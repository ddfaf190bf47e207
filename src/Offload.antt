-- ===== src/Offload.antt =====
-- ipc/offload_gateway.py, `StubOffloadGateway`. The identifier that `uuid4` makes is an argument.
use nitpicker_daemon.Prelude.{
  ℕ, String, Bool, true, false, Option, none, some, List, [], ◌∷◌, ◌==◌, ◌≡◌, refl, arith, concat,
  if◌then◌else◌, eq_refl,
}
use nitpicker_daemon.Python.Json.{str, Dict, lookup, insert, lookup-insert}
use nitpicker_daemon.Orchestrator.Controller.{OffloadRequest}

pub data JobState : Type 0 where
  queued running done failed : JobState

-- the progress is in percent
pub record JobStatus : Type 0 where
  pub remote_job_id : String
  pub state : JobState
  pub progress_pct : ℕ
  pub result : Option Dict
  pub error : Option String

pub record OffloadResult : Type 0 where
  pub request_id : String
  pub accepted : Bool
  pub remote_job_id : String
  pub status_url : String
  pub reason : Option String

pub record OffloadGateway : Type 0 where
  pub base_url : String
  pub jobs : List (String × JobStatus)

unfoldable pub submit : String → OffloadRequest → OffloadGateway → OffloadResult × OffloadGateway
submit id request g = (
  record {
    request_id = request.request_id;
    accepted = true;
    remote_job_id = id;
    status_url = concat (g.base_url ∷ "/jobs/" ∷ id ∷ []);
    reason = none;
  },
  record g {
    jobs =
        insert id
          (record {
            remote_job_id = id;
            state = queued;
            progress_pct = 0;
            result = none;
            error = none;
          })
          g.jobs;
  },
)

abbrev pub finished : String → JobStatus
finished id = record {
  remote_job_id = id;
  state = done;
  progress_pct = 100;
  result = some (
      ("status", str "PASS")
      ∷ ("reason", str "stub offload complete")
      ∷ ("patch_code", str "")
      ∷ []);
  error = none;
}

abbrev pub not_found : String → JobStatus
not_found id = record {
  remote_job_id = id;
  state = failed;
  progress_pct = 0;
  result = none;
  error = some "job not found";
}

abbrev is_queued : JobState → Bool
is_queued queued = true
is_queued _ = false

polled : String → Option JobStatus → OffloadGateway → JobStatus × OffloadGateway
polled id none g = (not_found id, g)
polled id (some status) g =
    if is_queued status.state
    then (finished id, record g { jobs = insert id (finished id) g.jobs })
    else (status, g)

unfoldable pub poll : String → OffloadGateway → JobStatus × OffloadGateway
unfolding polled
poll id g = polled id (lookup id g.jobs) g

remove_job : String → List (String × JobStatus) → List (String × JobStatus)
remove_job id [] = []
remove_job id ((k, status) ∷ rest) =
    let others = remove_job id rest in if k == id then others else (k, status) ∷ others

unfoldable pub cancel : String → OffloadGateway → OffloadGateway
unfolding remove_job
cancel id g = record g { jobs = remove_job id g.jobs }

-- A submitted job is done at every poll.
pub submit_then_poll :
    (id : String) (request : OffloadRequest) (g : OffloadGateway)
    → let submitted = (submit id request g).1 in
      ((poll id submitted).0 ≡ finished id) × ((poll id (poll id submitted).1).0 ≡ finished id)
unfolding submit poll polled
submit_then_poll id request g =
    rw (lookup-insert, eq_refl id) (refl, rw (lookup-insert, eq_refl id))

lookup-remove_job :
    (id : String) (jobs : List (String × JobStatus)) → lookup id (remove_job id jobs) ≡ none
unfolding remove_job
lookup-remove_job id [] = refl
lookup-remove_job id (x ∷ rest) = ground (arith, lookup-remove_job id rest)

-- A cancelled job is not found.
pub cancel_then_poll : (id : String) (g : OffloadGateway) → (poll id (cancel id g)).0 ≡ not_found id
unfolding poll polled cancel
cancel_then_poll id g = rw (lookup-remove_job id g.jobs)
