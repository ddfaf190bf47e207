-- ===== src/Orchestrator/Controller.antt =====
-- orchestrator/controller.py, `ReviewOrchestrator`: what a run works on, its collaborators, and the
-- small methods. A collaborator is called at most once in a run (an agent too), so it is given by
-- its answer to that call. The job store's own tables are the state; measured times are left out.
pub mod Failures
pub mod Agents
pub mod Verdict
pub mod Pipeline
use nitpicker_daemon.Prelude.{ℕ, ◌*◌, String, Bool, false, Option, none, some, List, [], ◌∷◌, among}
use nitpicker_daemon.Python.Errors.{Result, ok}
use nitpicker_daemon.Python.Exec.{Exec, pure, modify, try_except}
use nitpicker_daemon.Python.Json.{Json, Dict, str, num, get_or}
use nitpicker_daemon.Models.{
  Score, one, ReviewRequest, ReviewState, ReviewResult, ResultStatus, ContextBundle, AgentDecision,
  ConsensusResult, Finding, precheck_failed, delivered,
}
use nitpicker_daemon.State.Machine.{value}
use nitpicker_daemon.State.Spooler.{JobStore, stage, append_event, transition_state, mark_terminal}
use nitpicker_daemon.Services.PatchService.{PatchProposal, VerificationReport}
use nitpicker_daemon.Services.AutoFix.{AutoFixResult}
use nitpicker_daemon.Services.ArtifactPublisher.{Publisher, Outbox, AnalyticsRow}
use nitpicker_daemon.Orchestrator.ResourceManager.{ResourceManager}
use nitpicker_daemon.Orchestrator.PolicyEngine.{PolicyEngine}

-- The objects that a run changes, and its two local variables.
pub record World : Type 0 where
  pub store : JobStore
  pub resources : ResourceManager
  pub outbox : Outbox
  pub current_state : ReviewState
  pub request_persisted : Bool

-- ipc/offload_gateway.py
pub record OffloadRequest : Type 0 where
  pub request_id : String
  pub git_revision : String
  pub context_bundle : String
  pub masked_diff : String

pub record Agent : Type 0 where
  -- `getattr(agent, "name", None)`
  pub name : Option String
  -- `agent.__class__.__name__`
  pub class_name : String
  pub run : ReviewRequest → ContextBundle → Result AgentDecision

pub record ReviewOrchestrator : Type 0 where
  -- the monotonic clock when `allow_new_job` reads it
  pub now : ℕ
  pub policy_engine : PolicyEngine
  -- the size of the target file, if it exists
  pub file_size : Option ℕ
  pub build_context : ReviewRequest → Result ContextBundle
  -- `submit`, and whether the remote side accepted
  pub offload_gateway : Option (OffloadRequest → Result Bool)
  -- `get_or_create`, and whether there are hits afterwards
  pub context_cache_manager : Option (Json → String → Result Bool)
  -- `select` on the project profile and the trigger's intent
  pub agent_registry : Option (String → String → Result (List Agent))
  pub agents : List Agent
  pub decide : List AgentDecision → Result ConsensusResult
  pub llm_review_gate : Option (ReviewRequest → ContextBundle → List Finding → Result Dict)
  pub patch_service : Option (ReviewRequest → ConsensusResult → Result (Option PatchProposal))
  pub verification_service : Option (ReviewRequest → PatchProposal → Result VerificationReport)
  pub autofix_service : Option (Json → String → Result AutoFixResult)
  pub publisher : Publisher
  -- `str(v)` of a value that is no text
  pub repr : Json → String

unfoldable pub stored : {A : Type 0} → Exec JobStore A → Exec World A
stored m w = let (r, s) = m w.store in (r, record w { store = s })

unfoldable pub published : Exec Outbox (Unit {0}) → Exec World (Unit {0})
published m w = let (r, box) = m w.outbox in (r, record w { outbox = box })

unfoldable pub managed : {A : Type 0} → (ResourceManager → A × ResourceManager) → Exec World A
managed f w = let (a, m) = f w.resources in (ok a, record w { resources = m })

-- `current_state = st`
unfoldable pub set_state : ReviewState → Exec World (Unit {0})
set_state st w = (ok tt, record w { current_state = st })

-- `request_persisted = b`
unfoldable pub set_persisted : Bool → Exec World (Unit {0})
set_persisted b w = (ok tt, record w { request_persisted = b })

-- a row for the analytics, with the defaults of `log_analytics`
abbrev pub row : String → String → String → String → AnalyticsRow
row id event_type status agent_name = record {
  request_id = id;
  event_type = event_type;
  status = status;
  agent_name = agent_name;
  findings_cnt = 0;
  result_code = str "";
  confidence = 0;
}

-- an `int` as a dynamic value
abbrev pub int : ℕ → Json
int n = num (n * one)

-- `_record_stage_event_best_effort`: an insertion into the table of events
unfoldable pub record_stage_event_best_effort :
    String → String → String → String → Dict → Exec World (Unit {0})
record_stage_event_best_effort id stage_name phase result_code details =
    stored (modify (append_event id (stage stage_name phase result_code details)))

-- `_transition_state`
unfoldable pub transition :
    String → ReviewState → ReviewState → String → Json → Exec World (Unit {0})
transition id from_state to_state reason result_code =
    stored (transition_state id from_state to_state reason result_code)

-- `_record_failure_transition_best_effort`: what the store raises is logged
unfoldable pub record_failure_transition_best_effort :
    String → ReviewState → ReviewState → String → Json → Exec World (Unit {0})
record_failure_transition_best_effort id from_state to_state reason result_code =
    try_except (transition id from_state to_state reason result_code) λ e. pure tt

-- `_mark_terminal_safe`
unfoldable pub mark_terminal_safe : String → ReviewState → String → Json → Exec World (Unit {0})
mark_terminal_safe id st reason result_code =
    try_except (stored (mark_terminal id st reason result_code)) λ e. pure tt

-- `_build_result`
unfoldable pub build_result :
    ReviewRequest → ReviewState → ResultStatus → Json → Score → Json → ReviewResult
build_result request st status summary confidence_score result_code = record {
  request_id = request.request_id;
  state = st;
  status = status;
  summary = summary;
  confidence_score = confidence_score;
  result_code = result_code;
  reviewer = get_or "reviewer" (str "") request.metadata;
}

-- `_TERMINAL_STATE_VALUES`
abbrev pub terminal_values : List String
terminal_values =
    value precheck_failed
    ∷ value delivered
    ∷ value ReviewState.degraded
    ∷ value ReviewState.failed
    ∷ []

-- `_is_terminal_state_value`
unfoldable pub is_terminal_state_value : Option String → Bool
is_terminal_state_value none = false
is_terminal_state_value (some v) = among v terminal_values

-- `st in self._terminal_states()`
abbrev pub is_terminal : ReviewState → Bool
is_terminal st = among (value st) terminal_values
