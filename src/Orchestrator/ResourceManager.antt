-- ===== src/Orchestrator/ResourceManager.antt =====
-- orchestrator/resource_mgr.py. Times are in milliseconds of the monotonic clock, which a call is
-- given; the lock makes each call one step.
pub mod Debounce
use nitpicker_daemon.Prelude.{
  ℕ, ◌-◌, String, Bool, true, false, List, [], ◌∷◌, ltb, if◌then◌else◌, concat,
}
use nitpicker_daemon.Python.Json.{get_or, insert}
use nitpicker_daemon.Models.{ReviewRequest}

pub record ResourceManager : Type 0 where
  pub token_budget : ℕ
  pub breaker_open : Bool
  pub debounce : List (String × ℕ)
  pub last_request_at : List (String × ℕ)

-- `_DEBOUNCE_SECONDS`
abbrev pub debounce_ms : List (String × ℕ)
debounce_ms = ("passive_save", 1500) ∷ ("active_intent", 0) ∷ []

abbrev pub init : ℕ → ResourceManager
init budget = record {
  token_budget = budget;
  breaker_open = false;
  debounce = debounce_ms;
  last_request_at = [];
}

abbrev pub wait_of : ReviewRequest → ResourceManager → ℕ
wait_of request m = get_or request.trigger_intent 0 m.debounce

unfoldable pub debounce_key : ReviewRequest → String
debounce_key request = concat (request.trigger_intent ∷ ":" ∷ request.target_file ∷ [])

unfoldable pub allow_new_job : ReviewRequest → ℕ → ResourceManager → Bool × ResourceManager
allow_new_job request now m =
    if m.breaker_open
    then (false, m)
    else if ltb 0 (wait_of request m)
    then (if ltb (now - get_or (debounce_key request) 0 m.last_request_at) (wait_of request m)
        then (false, m)
        else (
          true,
          record m { last_request_at = insert (debounce_key request) now m.last_request_at },
        ))
    else (true, m)

unfoldable pub reserve_tokens : ℕ → ResourceManager → Bool × ResourceManager
reserve_tokens amount m =
    if ltb m.token_budget amount
    then (false, m)
    else (true, record m { token_budget = m.token_budget - amount })

unfoldable pub release_tokens : String → ResourceManager → ResourceManager
release_tokens request_id m = m

unfoldable pub open_circuit : ResourceManager → ResourceManager
open_circuit m = record m { breaker_open = true }

unfoldable pub close_circuit : ResourceManager → ResourceManager
close_circuit m = record m { breaker_open = false }
