-- ===== src/Orchestrator/Controller/Pipeline.antt =====
-- orchestrator/controller.py: `run_once`, stage by stage.
pub mod Stages
pub mod Keeps
pub mod Verdicts
pub mod Present
pub mod Terminal
pub mod Isolated
pub mod Duplicates
pub mod Passing
use nitpicker_daemon.Prelude.{
  String, Bool, false, not, none, some, List, [], ◌==◌, ◌||◌, ◌++◌, join, if◌then◌else◌, length,
}
use nitpicker_daemon.Python.Errors.{ErrorClass, Result, is_os_error, is_runtime_error}
use nitpicker_daemon.Python.Exec.{Exec, pure, raise, lift, try_except, ◌>>=◌, ◌>>◌}
use nitpicker_daemon.Python.Json.{Json, str, get_or, truthy}
use nitpicker_daemon.Models.{
  one, ReviewRequest, ReviewResult, ReviewState, ResultStatus, ContextBundle, AgentDecision, queued,
  precheck_failed, context_ready, analyzing, consensus_reached, delivered, rejected,
}
use nitpicker_daemon.State.Spooler.{create_request, JobCreationOutcome}
use nitpicker_daemon.Services.ArtifactPublisher.{
  AnalyticsRow, publish_diagnostics, publish_quick_fix, log_result, log_analytics,
}
use nitpicker_daemon.Orchestrator.ResourceManager.{allow_new_job}
use nitpicker_daemon.Orchestrator.PolicyEngine.{PolicyDecision, evaluate_request, should_offload}
use nitpicker_daemon.Orchestrator.Controller.{
  World, OffloadRequest, Agent, ReviewOrchestrator, stored, published, managed, set_state,
  set_persisted, row, transition, mark_terminal_safe, build_result,
}
use nitpicker_daemon.Orchestrator.Controller.Failures.{handle_duplicate_request, handle_failure}
use nitpicker_daemon.Orchestrator.Controller.Agents.{
  select_agents, active_agents, run_agents, not_passed, collect_findings,
}
use nitpicker_daemon.Orchestrator.Controller.Verdict.{Verdict, l3_stage, patch_stage, autofix_stage}

-- `decision.reason or "precheck failed"`
abbrev pub reason_of : PolicyDecision → String
reason_of decision = elim decision.reason [
  | none ↦ "precheck failed"
  | some r ↦ if r == "" then "precheck failed" else r
]

abbrev pub rejected_result : ReviewRequest → ReviewResult
rejected_result request =
    build_result request ReviewState.degraded ResultStatus.degraded
      (str "resource manager rejected the request") 0 (str "RESOURCE_REJECTED")

abbrev pub precheck_result : ReviewRequest → PolicyDecision → ReviewResult
precheck_result request decision =
    build_result request precheck_failed rejected (str (reason_of decision)) one
      (str "POLICY_REJECTED")

abbrev pub final_result : ReviewRequest → Verdict → ReviewResult
final_result request v =
    build_result request delivered v.status v.summary v.consensus.confidence_score v.result_code

abbrev status_text : ResultStatus → String
status_text ResultStatus.pass = "pass"
status_text ResultStatus.rejected = "rejected"
status_text ResultStatus.degraded = "degraded"
status_text ResultStatus.failed = "failed"
status_text ResultStatus.ignored = "ignored"
status_text ResultStatus.patch = "patch"

abbrev offload_request : ReviewRequest → ContextBundle → OffloadRequest
offload_request request context = record {
  request_id = request.request_id;
  git_revision = request.git_revision;
  context_bundle = context.context_hash;
  masked_diff = request.diff_text;
}

-- `"\n".join(tiers.get("tier2", []) + tiers.get("tier3", []))`
abbrev static_context : ContextBundle → String
static_context context =
    join "\n" (get_or "tier2" [] context.tiers ++ get_or "tier3" [] context.tiers)

abbrev system_prompt : ContextBundle → Json
system_prompt context = get_or "system_prompt" (str "") context.metadata

-- the errors of the cache that the run outlives
abbrev cache_catches : ErrorClass → Bool
cache_catches k = is_runtime_error k || is_os_error k

module _ (s : ReviewOrchestrator) (request : ReviewRequest) where
  abbrev log : AnalyticsRow → Exec World (Unit {0})
  log r = published (log_analytics s.publisher r)

  unfoldable pub reject_resources : Exec World ReviewResult
  reject_resources = do
    mark_terminal_safe request.request_id ReviewState.degraded "resource budget exceeded"
        (str "RESOURCE_REJECTED")
    published (log_result s.publisher (rejected_result request))
    pure (rejected_result request)

  unfoldable pub reject_policy : PolicyDecision → Exec World ReviewResult
  reject_policy decision = do
    transition request.request_id queued precheck_failed (reason_of decision)
        (str "POLICY_REJECTED")
    set_state precheck_failed
    mark_terminal_safe request.request_id precheck_failed (reason_of decision)
        (str "POLICY_REJECTED")
    published
        (publish_diagnostics s.publisher (precheck_result request decision) request.target_file)
    published (log_result s.publisher (precheck_result request decision))
    pure (precheck_result request decision)

  abbrev submit : (OffloadRequest → Result Bool) → ContextBundle → Exec World (Unit {0})
  submit send context =
      try_except
        (do
          accepted ← lift (send (offload_request request context))
          log (
              row request.request_id "offload_submitted"
                (if accepted then "accepted" else "rejected") "offload_gateway"))
        λ e. pure tt

  unfoldable pub offload : ContextBundle → Exec World (Unit {0})
  offload context = elim s.offload_gateway [
    | none ↦ pure tt
    | some send ↦
        if should_offload request context.token_estimate then submit send context else pure tt
  ]

  abbrev warm_with : (Json → String → Result Bool) → ContextBundle → Exec World (Unit {0})
  warm_with get_or_create context =
      if truthy (system_prompt context) || not (static_context context == "")
      then (do
        hit ← lift (get_or_create (system_prompt context) (static_context context))
        log (
            row request.request_id "context_cache" (if hit then "hit" else "miss")
              "context_cache_manager"))
      else pure tt

  unfoldable pub warm_cache : ContextBundle → Exec World (Unit {0})
  warm_cache context = elim s.context_cache_manager [
    | none ↦ pure tt
    | some get_or_create ↦
        try_except (warm_with get_or_create context)
          λ e. if cache_catches e.kind then pure tt else raise e
  ]

  unfoldable pub deliver : List AgentDecision → Verdict → Exec World ReviewResult
  deliver decisions v = do
    mark_terminal_safe request.request_id delivered "pipeline completed normally" v.result_code
    log (record (row request.request_id "pipeline_complete" (status_text v.status) "") {
      result_code = v.result_code;
      confidence = v.consensus.confidence_score;
    })
    published (publish_diagnostics s.publisher (final_result request v) request.target_file)
    published (
        publish_quick_fix s.publisher (final_result request v) request.target_file
          (collect_findings decisions) v.patch_proposal)
    published (log_result s.publisher (final_result request v))
    pure (final_result request v)

  unfoldable pub conclude : ContextBundle → List AgentDecision → Exec World ReviewResult
  conclude context decisions = do
    transition request.request_id analyzing consensus_reached "agent decisions collected"
        (str "CONSENSUS_REACHED")
    set_state consensus_reached
    c ← lift (s.decide decisions)
    v ← l3_stage s request context decisions c
    patched ← patch_stage s request v
    fixed ← autofix_stage s request patched
    deliver decisions fixed

  unfoldable pub run_selected : ContextBundle → List Agent → Exec World ReviewResult
  run_selected context agents = do
    decisions ← run_agents request context 1 (length agents) agents
    log (record (row request.request_id "agents_run" "done" "") {
      findings_cnt = not_passed decisions;
    })
    conclude context decisions

  unfoldable pub analyze : PolicyDecision → ContextBundle → Exec World ReviewResult
  analyze decision context = do
    transition request.request_id context_ready analyzing "agents start" (str "AGENTS_STARTED")
    set_state analyzing
    agents ← lift (select_agents s request)
    run_selected context (active_agents decision agents)

  unfoldable pub prepare : PolicyDecision → Exec World ReviewResult
  prepare decision = do
    transition request.request_id queued context_ready "context build start"
        (str "CONTEXT_BUILD_STARTED")
    set_state context_ready
    context ← lift (s.build_context request)
    offload context
    warm_cache context
    analyze decision context

  unfoldable pub screen : PolicyDecision → Exec World ReviewResult
  screen decision = do
    log (
        row request.request_id "policy_decision"
          (if decision.fast_path_only then "fast_path" else "heavy_path") "policy_engine")
    if decision.accepted then prepare decision else reject_policy decision

  unfoldable pub admit : Exec World ReviewResult
  admit = do
    allowed ← managed (allow_new_job request s.now)
    if allowed
        then screen (evaluate_request s.policy_engine s.file_size request)
        else reject_resources

  unfoldable pub after_creation : JobCreationOutcome → Exec World ReviewResult
  after_creation outcome =
      if outcome.duplicate
      then handle_duplicate_request s request outcome.existing_state
      else (do set_persisted outcome.created; admit)

  -- the body of the `try`
  unfoldable pub pipeline : Exec World ReviewResult
  pipeline = do outcome ← stored (create_request request); after_creation outcome

  unfoldable pub run_once : Exec World ReviewResult
  run_once = do
    set_state queued
    set_persisted false
    try_except pipeline (handle_failure s request)
