-- ===== src/Examples/Runs.antt =====
-- Runs of the orchestrator.
use nitpicker_daemon.Prelude.{true, false, ◌≡◌, ◌≢◌, refl, any, some, eq_iff}
use nitpicker_daemon.Python.Errors.{ok}
use nitpicker_daemon.Python.Exec.{◌>>=◌, pure, raise, lift, gets, try_except, modify}
use nitpicker_daemon.Python.Json.{str}
use nitpicker_daemon.Models.{ReviewResult, ResultStatus, delivered}
use nitpicker_daemon.State.Spooler.{
  empty, conflicts, create_request, transition_state, mark_terminal, append_event, update, first,
  has_id, has_key, existing_value,
}
use nitpicker_daemon.State.Spooler.Audit.{state_of}
use nitpicker_daemon.Orchestrator.Consensus.{is_reject}
use nitpicker_daemon.Orchestrator.Controller.Pipeline.{
  pipeline, after_creation, admit, screen, prepare, analyze, run_selected, conclude, deliver,
  offload, warm_cache,
}
use nitpicker_daemon.Orchestrator.Controller.{
  set_state, set_persisted, stored, published, managed, transition, record_stage_event_best_effort,
  mark_terminal_safe, build_result,
}
use nitpicker_daemon.Orchestrator.Controller.Agents.{
  select_agents, active_agents, run_agent, run_agents, collect_findings,
}
use nitpicker_daemon.Orchestrator.Controller.Verdict.{
  l3_stage, ask_l3, after_l3, patch_stage, autofix_stage, first_verdict,
}
use nitpicker_daemon.Orchestrator.ResourceManager.{allow_new_job}
use nitpicker_daemon.Orchestrator.PolicyEngine.{evaluate_request}
use nitpicker_daemon.State.Machine.{can_transition, allowed_transitions, same}
use nitpicker_daemon.Services.ArtifactPublisher.{
  emit, emit_safe, publish_diagnostics, publish_quick_fix, log_result, log_analytics,
}
use nitpicker_daemon.Orchestrator.Consensus.{decide, weighted_conf, total_weight, weight}
use nitpicker_daemon.Orchestrator.Controller.{World, is_terminal}
use nitpicker_daemon.Orchestrator.Controller.Failures.{duplicate_result}
use nitpicker_daemon.Orchestrator.Controller.Pipeline.{run_once}
use nitpicker_daemon.Orchestrator.Controller.Pipeline.Terminal.{run_once_settles}
use nitpicker_daemon.Orchestrator.Controller.Pipeline.Passing.{
  ApprovedRun, run_once-passes, run_once_fails_closed,
}
use nitpicker_daemon.Orchestrator.Controller.Pipeline.Isolated.{run_once_isolated}
use nitpicker_daemon.Orchestrator.Controller.Pipeline.Duplicates.{run_once_duplicate}
use nitpicker_daemon.Examples.Samples.{exact, round_div, numerators, request, orchestrator, world}

new_request : conflicts request world.store.rows ≡ false
unfolding conflicts
new_request = refl

run_once_settles_example :
    (result : ReviewResult) × ((run_once orchestrator request world).0 ≡ ok result)
    × (state_of (first (has_id "r1") (run_once orchestrator request world).1.store.rows)
        ≡ some result.state)
    × (is_terminal result.state ≡ true)
run_once_settles_example = run_once_settles orchestrator request world new_request

other_id : request.request_id ≢ "r2"
other_id e = let differ : false ≡ true = (eq_iff "r1" "r2").1 e in let never : ⊥ = cc in never

run_once_isolated_example :
    first (has_id "r2") (run_once orchestrator request world).1.store.rows
    ≡ first (has_id "r2") world.store.rows
run_once_isolated_example = run_once_isolated orchestrator request world "r2" other_id

abbrev later : World
later = record world { store = (create_request request empty).1 }

known_request : conflicts request later.store.rows ≡ true
unfolding conflicts create_request append_event
known_request = refl

run_once_duplicate_example :
    ((run_once orchestrator request later).0
      ≡ ok (duplicate_result request (existing_value (first (has_key "k1") later.store.rows))))
    × ((run_once orchestrator request later).1.store.rows ≡ later.store.rows)
run_once_duplicate_example = run_once_duplicate orchestrator request later known_request

abbrev passed : ReviewResult
passed = record {
  request_id = "r1";
  state = delivered;
  status = ResultStatus.pass;
  summary = str "fine";
  confidence_score = 9000;
  result_code = str "REVIEW_PASSED";
  reviewer = str "";
}

passing_run : (run_once orchestrator request world).0 ≡ ok passed
unfolding run_once pipeline after_creation admit screen prepare analyze run_selected conclude
    deliver offload warm_cache set_state set_persisted stored published managed transition
    record_stage_event_best_effort mark_terminal_safe build_result select_agents active_agents
    run_agent run_agents collect_findings l3_stage ask_l3 after_l3 patch_stage autofix_stage
    first_verdict allow_new_job evaluate_request can_transition allowed_transitions same emit
    emit_safe publish_diagnostics publish_quick_fix log_result log_analytics decide weighted_conf
    total_weight numerators weight round_div create_request conflicts transition_state mark_terminal
    append_event update pure raise lift gets modify try_except ◌>>=◌
passing_run = refl

run_once-passes_example : ApprovedRun orchestrator request
run_once-passes_example = run_once-passes orchestrator request world passed passing_run refl

run_once_fails_closed_example :
    (run : ApprovedRun orchestrator request) × (any is_reject run.decisions ≡ false)
run_once_fails_closed_example =
    run_once_fails_closed exact orchestrator request world passed (λ ds. refl) passing_run refl
