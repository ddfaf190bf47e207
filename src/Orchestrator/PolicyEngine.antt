-- ===== src/Orchestrator/PolicyEngine.antt =====
-- orchestrator/policy_engine.py. The size of the target file, if it exists, is an argument.
use nitpicker_daemon.Prelude.{
  ℕ, String, Bool, true, false, not, Option, none, some, List, [], ◌∷◌, ◌==◌, ◌||◌, ltb,
  if◌then◌else◌, ◌≡◌, arith, ◌≢◌, eq_iff,
}
use nitpicker_daemon.Python.Json.{Dict, get, truthy}
use nitpicker_daemon.Models.{ReviewRequest}

abbrev pub default_fast_path_agents : List String
default_fast_path_agents = "fast_gate" ∷ "security" ∷ "architecture" ∷ []

pub record PolicyEngine : Type 0 where
  pub max_file_size_bytes : ℕ
  pub fast_path_agents : List String

-- `fast_path_agents or _FAST_PATH_AGENTS`: an empty set is replaced too
unfoldable pub init : ℕ → Option (List String) → PolicyEngine
init max none = record { max_file_size_bytes = max; fast_path_agents = default_fast_path_agents }
init max (some []) = record {
  max_file_size_bytes = max;
  fast_path_agents = default_fast_path_agents;
}
init max (some (a ∷ rest)) = record { max_file_size_bytes = max; fast_path_agents = a ∷ rest }

pub record PolicyDecision : Type 0 where
  pub accepted : Bool
  pub project_profile : String
  pub offload_allowed : Bool
  pub auto_apply_allowed : Bool
  pub redaction_required : Bool
  pub reason : Option String
  pub fast_path_only : Bool
  pub allowed_agents : Option (List String)

abbrev too_large : PolicyEngine → Option ℕ → Bool
too_large p none = false
too_large p (some size) = ltb p.max_file_size_bytes size

abbrev pub is_passive : ReviewRequest → Bool
is_passive request = request.trigger_intent == "passive_save"

unfoldable pub evaluate_request : PolicyEngine → Option ℕ → ReviewRequest → PolicyDecision
evaluate_request p size request =
    if too_large p size
    then record {
      accepted = false;
      project_profile = request.project_profile;
      offload_allowed = false;
      auto_apply_allowed = false;
      redaction_required = false;
      reason = some "file too large";
      fast_path_only = false;
      allowed_agents = none;
    }
    else record {
      accepted = true;
      project_profile = request.project_profile;
      offload_allowed = not (is_passive request);
      auto_apply_allowed = false;
      redaction_required = false;
      reason = none;
      fast_path_only = is_passive request;
      allowed_agents = if is_passive request then some p.fast_path_agents else none;
    }

unfoldable pub should_offload : ReviewRequest → ℕ → Bool
should_offload request context_size = if is_passive request then false else ltb 4000 context_size

unfoldable pub should_promote_deep_review : ReviewRequest → Dict → Bool
should_promote_deep_review request signals =
    if is_passive request
    then false
    else truthy (get "has_errors" signals) || truthy (get "high_risk" signals)

-- A passive save is never offloaded, whatever the size of its context, never promoted to a deep
-- review, and its policy decision does not allow an offload.
pub passive_stays_local :
    (p : PolicyEngine) (size : Option ℕ) (request : ReviewRequest) (n : ℕ) (signals : Dict)
    → request.trigger_intent ≡ "passive_save"
    → (should_offload request n ≡ false)
      × (should_promote_deep_review request signals ≡ false)
      × ((evaluate_request p size request).offload_allowed ≡ false)
unfolding evaluate_request should_offload should_promote_deep_review
passive_stays_local p size request n signals h =
    ground (arith, (eq_iff request.trigger_intent "passive_save").1 h)

pub passive_allowed :
    (p : PolicyEngine) (size : Option ℕ) (request : ReviewRequest)
    → request.trigger_intent ≡ "passive_save"
    → (evaluate_request p size request).accepted ≡ true
    → (evaluate_request p size request).allowed_agents ≡ some p.fast_path_agents
unfolding evaluate_request
passive_allowed p size request h a =
    ground (arith, (eq_iff request.trigger_intent "passive_save").1 h)

pub active_runs_all :
    (p : PolicyEngine) (size : Option ℕ) (request : ReviewRequest) (n : ℕ)
    → request.trigger_intent ≢ "passive_save"
    → let d = evaluate_request p size request in
      (should_offload request n ≡ ltb 4000 n)
      × (d.allowed_agents ≡ none)
      × (d.offload_allowed ≡ d.accepted)
unfolding evaluate_request should_offload
active_runs_all p size request n h =
    ground (arith, (eq_iff request.trigger_intent "passive_save").0)
