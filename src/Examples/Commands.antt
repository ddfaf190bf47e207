-- ===== src/Examples/Commands.antt =====
-- The command line at concrete inputs.
use nitpicker_daemon.Prelude.{String, ◌≡◌, refl, concat, take_text}
use nitpicker_daemon.Python.Errors.{ok}
use nitpicker_daemon.Python.Exec.{◌>>=◌, pure, raise, lift, gets, try_except, modify}
use nitpicker_daemon.Python.Json.{insert}
use nitpicker_daemon.State.Spooler.{
  conflicts, create_request, transition_state, mark_terminal, append_event, update,
}
use nitpicker_daemon.Orchestrator.Controller.Pipeline.{
  pipeline, after_creation, admit, screen, prepare, analyze, run_selected, conclude, deliver,
  offload, warm_cache,
}
use nitpicker_daemon.Orchestrator.Controller.{
  set_state, set_persisted, stored, published, managed, transition, record_stage_event_best_effort,
  mark_terminal_safe, build_result,
}
use nitpicker_daemon.Orchestrator.Controller.Agents.{
  select_agents, active_agents, run_agent, run_agents, collect_findings,
}
use nitpicker_daemon.Orchestrator.Controller.Verdict.{
  l3_stage, ask_l3, after_l3, patch_stage, autofix_stage, first_verdict,
}
use nitpicker_daemon.Orchestrator.ResourceManager.{allow_new_job}
use nitpicker_daemon.Orchestrator.PolicyEngine.{evaluate_request}
use nitpicker_daemon.State.Machine.{can_transition, allowed_transitions, same}
use nitpicker_daemon.Services.ArtifactPublisher.{
  emit, emit_safe, publish_diagnostics, publish_quick_fix, log_result, log_analytics,
}
use nitpicker_daemon.Orchestrator.Consensus.{decide, weighted_conf, total_weight, weight}
use nitpicker_daemon.Orchestrator.Controller.Pipeline.{run_once}
use nitpicker_daemon.Orchestrator.Controller.Pipeline.Passing.{ApprovedRun}
use nitpicker_daemon.Examples.Samples.{round_div, numerators, orchestrator, world}
use nitpicker_daemon.Triggers.{adapt, build_common, arguments, digest}
use nitpicker_daemon.Cli.{
  cli_request, labelled_request, run_direct, exit_code_from_result, exit_code_from_result_code,
}
use nitpicker_daemon.Cli.Gate.{run_direct_exit_zero}

abbrev same_text : String → String
same_text s = s

exits_zero : (run_direct same_text same_text orchestrator "mock" "app.py" "+x" world).0 ≡ ok 0
unfolding concat take_text run_direct labelled_request cli_request adapt build_common arguments
    digest insert exit_code_from_result exit_code_from_result_code run_once pipeline after_creation
    admit screen prepare analyze run_selected conclude deliver offload warm_cache set_state
    set_persisted stored published managed transition record_stage_event_best_effort
    mark_terminal_safe build_result select_agents active_agents run_agent run_agents
    collect_findings l3_stage ask_l3 after_l3 patch_stage autofix_stage first_verdict allow_new_job
    evaluate_request can_transition allowed_transitions same emit emit_safe publish_diagnostics
    publish_quick_fix log_result log_analytics decide weighted_conf total_weight numerators weight
    round_div create_request conflicts transition_state mark_terminal append_event update pure raise
    lift gets modify try_except ◌>>=◌
exits_zero = refl

run_direct_exit_zero_example :
    ApprovedRun orchestrator (labelled_request same_text same_text "mock" "app.py" "+x")
run_direct_exit_zero_example =
    run_direct_exit_zero same_text same_text orchestrator "mock" "app.py" "+x" world exits_zero

abbrev diffs : String → String
diffs f = f
