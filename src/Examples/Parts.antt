-- ===== src/Examples/Parts.antt =====
-- The parts of the daemon, each at a concrete input.
use nitpicker_daemon.Prelude.{
  ◌≤◌, String, true, false, some, [], ◌∷◌, ◌≡◌, ◌≢◌, refl, any, All, ◌==◌, ◌⊎◌, if◌then◌else◌,
  arith,
}
use nitpicker_daemon.Python.Errors.{ok, raised, Error, timeout_error, json_decode_error}
use nitpicker_daemon.Python.Json.{Dict, str, arr, nil, cons}
use nitpicker_daemon.Models.{ReviewRequest, AgentStatus, queued, context_ready}
use nitpicker_daemon.State.Machine.{value, can_transition}
use nitpicker_daemon.State.Spooler.{
  JobStore, empty, conflicts, create_request, get_request, transition_state, first, has_id,
  list_recoverable_jobs,
}
use nitpicker_daemon.State.Spooler.Audit.{state_of}
use nitpicker_daemon.State.Spooler.Sound.{IsSound, IsSound-empty, create-IsSound}
use nitpicker_daemon.State.Spooler.Methods.{
  create, transition, calls, calls-IsSound, create-twice, transition-total,
}
use nitpicker_daemon.State.Spooler.Recovery.{list_recoverable_complete, among_recoverable}
use nitpicker_daemon.Services.LlmReviewGate.{Gate, review, has_grounds}
use nitpicker_daemon.Services.LlmReviewGate.Grounds.{review_blocks_with_grounds}
use nitpicker_daemon.Orchestrator.PolicyEngine.{PolicyEngine, evaluate_request}
use nitpicker_daemon.Orchestrator.Consensus.{decide, weight}
use nitpicker_daemon.Orchestrator.Consensus.Decide.{
  decide_score_bounds, IsClose, terms, rounded, weights, products,
}
use nitpicker_daemon.Orchestrator.Controller.Agents.{active_agents}
use nitpicker_daemon.Orchestrator.Controller.Agents.FastPath.{InNames, passive_runs_fast_path}
use nitpicker_daemon.Examples.Samples.{
  request, passive, decision, security, performance, repr, orchestrator, exact, round_div,
  numerators,
}

calls-IsSound_example :
    IsSound
      (calls (create request ∷ transition "r1" queued context_ready "go" (str "GO") ∷ []) empty)
calls-IsSound_example =
    calls-IsSound (create request ∷ transition "r1" queued context_ready "go" (str "GO") ∷ [])

abbrev again : ReviewRequest
again = record request { request_id = "r9" }

nothing_known : conflicts request empty.rows ≡ false
unfolding conflicts
nothing_known = refl

create-twice_example :
    let s = (create_request request empty).1 in
    ((create_request again s).0
      ≡ ok (record { created = false; duplicate = true; existing_state = some (value queued) }))
    × ((create_request again s).1.rows ≡ s.rows)
    × (get_request "r1" s ≡ some request)
create-twice_example = create-twice request again empty nothing_known refl

abbrev stored : JobStore
stored = (create_request request empty).1

stored-IsSound : IsSound stored
stored-IsSound = create-IsSound request empty IsSound-empty

transition-total_example :
    let (r, s) = transition_state "r1" queued context_ready "go" (str "GO") stored in
    ((r ≡ ok tt)
      × (can_transition queued context_ready ≡ true)
      × (state_of (first (has_id "r1") stored.rows) ≡ some queued)
      × ((j : String)
          → state_of (first (has_id j) s.rows)
            ≡ (if "r1" == j then some context_ready else state_of (first (has_id j) stored.rows))))
    ⊎ ((r ≢ ok tt)
        × (s ≡ stored)
        × ((can_transition queued context_ready ≡ false)
            ⊎ (state_of (first (has_id "r1") stored.rows) ≢ some queued)))
transition-total_example =
    transition-total "r1" queued context_ready "go" (str "GO") stored stored-IsSound.keyed

list_recoverable_complete_example :
    any (λ q. q.request_id == "r1") (list_recoverable_jobs stored)
    ≡ among_recoverable (state_of (first (has_id "r1") stored.rows))
list_recoverable_complete_example = list_recoverable_complete stored "r1" stored-IsSound.keyed

abbrev refusal : Dict
refusal =
    ("result_code", str "REVIEW_REJECTED")
    ∷ ("summary", str "a leak")
    ∷ ("details", arr (cons (str "line 3") nil))
    ∷ []

abbrev gate : Gate
gate = record {
  generate = λ prompt. ok refusal;
  loads = λ text. raised (record { kind = json_decode_error; message = "no" });
  float_text = λ text. ok 0;
  repr = repr;
}

rejected_review : review gate "" ≡ ok refusal
unfolding review
rejected_review = refl

review_blocks_with_grounds_example : has_grounds refusal ≡ true
review_blocks_with_grounds_example = review_blocks_with_grounds gate "" refusal rejected_review refl

abbrev slow : Error
slow = record { kind = timeout_error; message = "timed out" }

abbrev policy : PolicyEngine
policy = orchestrator.policy_engine

passive_accepted : (evaluate_request policy (some 10) passive).accepted ≡ true
unfolding evaluate_request
passive_accepted = refl

passive_runs_fast_path_example :
    All
      (InNames ("security" ∷ []))
      (active_agents (evaluate_request policy (some 10) passive) (security ∷ performance ∷ []))
passive_runs_fast_path_example =
    passive_runs_fast_path policy (some 10) passive (security ∷ performance ∷ []) refl
      passive_accepted

close : IsClose exact (terms (decision AgentStatus.pass ∷ []))
unfolding rounded weights products round_div numerators weight
close = record { above = omega arith; below = omega arith }

decide_score_bounds_example :
    (8000 ≤ (decide exact repr (decision AgentStatus.pass ∷ [])).confidence_score)
    × ((decide exact repr (decision AgentStatus.pass ∷ [])).confidence_score ≤ 9500)
decide_score_bounds_example =
    decide_score_bounds exact repr 8000 9500 (decision AgentStatus.pass) [] close
      ((omega arith, omega arith), tt)
