-- ===== src/Examples/Effects.antt =====
-- Debouncing, patches, fixes and channels at concrete inputs.
use nitpicker_daemon.Prelude.{
  String, true, false, none, some, [], ◌∷◌, ◌≡◌, ◌≢◌, refl, arith, starts, lower,
}
use nitpicker_daemon.Python.Errors.{ok, raised, Error, key_error}
use nitpicker_daemon.Python.Json.{str}
use nitpicker_daemon.Models.{ReviewResult, ResultStatus, ConsensusStatus, delivered}
use nitpicker_daemon.Services.PatchService.{
  PatchService, PatchProposal, Process, create_patch, create_patch-checked, extract_diff_from_text,
}
use nitpicker_daemon.Services.AutoFix.{AutoFixResult}
use nitpicker_daemon.Services.ArtifactPublisher.{
  Publisher, Channel, diagnostics, quick_fix, logged, notified, quick_fix_catches, publish_result,
  publish_result_isolated,
}
use nitpicker_daemon.Orchestrator.ResourceManager.{ResourceManager, init, allow_new_job}
use nitpicker_daemon.Orchestrator.ResourceManager.Debounce.{serve, debounce_window}
use nitpicker_daemon.Orchestrator.Controller.Verdict.{Verdict}
use nitpicker_daemon.Examples.Samples.{passive}

abbrev manager : ResourceManager
manager = init 10

first_allowed : (allow_new_job passive 2000 manager).0 ≡ true
unfolding allow_new_job
first_allowed = refl

debounce_window_example :
    (allow_new_job passive 3000 (serve [] (allow_new_job passive 2000 manager).1)).0 ≡ false
debounce_window_example =
    debounce_window passive 2000 3000 [] manager (omega arith) first_allowed tt (omega arith)

abbrev fine : Process
fine = record { returncode = 0; stdout = ""; stderr = "" }

abbrev patches : PatchService
patches = record {
  patches_dir = none;
  project_root = some "/repo";
  git_check = λ diff. ok fine;
  digest = λ diff. "d1";
}

abbrev proposed : PatchProposal
proposed = record {
  patch_hash = "d1";
  unified_diff = "--- a\n+++ b";
  source_file = "app.py";
  saved_path = none;
}

proposed_patch : create_patch patches "app.py" "--- a\n+++ b\n" ≡ ok (some proposed)
unfolding create_patch starts lower
proposed_patch = refl

create_patch-checked_example :
    (fine.returncode ≡ 0)
    × (proposed.unified_diff ≢ "")
    × (extract_diff_from_text "--- a\n+++ b\n" ≡ some proposed.unified_diff)
    × (proposed.patch_hash ≡ patches.digest proposed.unified_diff)
create_patch-checked_example =
    create_patch-checked patches "app.py" "--- a\n+++ b\n" proposed fine refl proposed_patch refl

abbrev applied : AutoFixResult
applied = record {
  applied = true;
  rolled_back = false;
  reason = "재검증 실패 (롤백 미설정)";
  patch_text = "--- a";
  verify_passed = some false;
}

abbrev verdict : Verdict
verdict = record {
  status = ResultStatus.rejected;
  summary = str "a leak";
  result_code = str "PATCH_PROPOSED";
  consensus = record {
    status = ConsensusStatus.pass;
    summary = str "all passed";
    confidence_score = 9000;
    winning_reasons = [];
    conflicting_agents = [];
  };
  patch_proposal = none;
  llm_result = none;
}

abbrev silent : Channel
silent e = ok tt

abbrev failure : Error
failure = record { kind = key_error; message = "range" }

abbrev picky : Channel
picky (quick_fix _ _ _ _) = raised failure
picky _ = ok tt

abbrev quiet_publisher : Publisher
quiet_publisher = record {
  feedback = some silent;
  logger = some silent;
  analytics_writer = none;
  notifier = some silent;
}

abbrev result : ReviewResult
result = record {
  request_id = "r1";
  state = delivered;
  status = ResultStatus.pass;
  summary = str "fine";
  confidence_score = 9000;
  result_code = str "REVIEW_PASSED";
  reviewer = str "";
}

present_silent : (channel : Channel) → some silent ≡ some channel → silent ≡ channel
present_silent channel e = cc

caught :
    (channel : Channel) (e : Error)
    → quiet_publisher.feedback ≡ some channel
    → channel (quick_fix result "app.py" [] none) ≡ raised e
    → quick_fix_catches e.kind ≡ true
caught channel e present raises =
    let returns : channel (quick_fix result "app.py" [] none) ≡ ok tt =
      rw (← present_silent channel present) refl in
    let never : ⊥ = cc in absurd never

publish_result_isolated_example : publish_result quiet_publisher result "app.py" [] none [] ≡ (
  ok tt,
  diagnostics result "app.py"
      ∷ quick_fix result "app.py" [] none
      ∷ logged result
      ∷ notified result "app.py"
      ∷ [],
)
publish_result_isolated_example =
    publish_result_isolated quiet_publisher result "app.py" [] none []
      λ channel e present raises. caught channel e present raises

abbrev file : String
file = "app.py"
