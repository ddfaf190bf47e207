-- ===== src/Orchestrator/Controller/Agents/FastPath.antt =====
-- Which agents a trigger runs.
use nitpicker_daemon.Prelude.{
  ℕ, String, true, false, Option, none, some, List, [], ◌∷◌, ◌≡◌, ◌≢◌, refl, among, keep, All, ap,
  Option-cases, Bool-cases, inl, inr,
}
use nitpicker_daemon.Models.{ReviewRequest}
use nitpicker_daemon.Orchestrator.PolicyEngine.{
  PolicyEngine, evaluate_request, active_runs_all, passive_allowed,
}
use nitpicker_daemon.Orchestrator.Controller.{Agent}
use nitpicker_daemon.Orchestrator.Controller.Agents.{is_allowed, active_agents}

abbrev pub InNames : List String → Agent → Type 0
InNames names a = (n : String) × (a.name ≡ some n) × (among n names ≡ true)

allowed-InNames :
    (names : List String) (a : Agent) → is_allowed (some names) a ≡ true → InNames names a
allowed-InNames names a h = elim (Option-cases a.name) [
  | inl e ↦ let no : false ≡ true = (rw (e) at h) in let never : ⊥ = cc in absurd never
  | inr (n, e) ↦ (n, e, rw (e) at h)
]

All-keep :
    (names : List String) (agents : List Agent)
    → All (InNames names) (keep (is_allowed (some names)) agents)
All-keep names [] = tt
All-keep names (a ∷ rest) = elim (Bool-cases (is_allowed (some names) a)) [
  | inl e ↦ rw (All, e) (allowed-InNames names a e, All-keep names rest)
  | inr e ↦ rw (All, e) (All-keep names rest)
]

keep_all : (agents : List Agent) → keep (is_allowed none) agents ≡ agents
keep_all [] = refl
keep_all (a ∷ rest) = ap (λ r. a ∷ r) (keep_all rest)

-- On a passive save that the policy accepts, every active agent has a name, and it is in the
-- policy's list of fast-path agents.
pub passive_runs_fast_path :
    (p : PolicyEngine) (size : Option ℕ) (request : ReviewRequest) (agents : List Agent)
    → request.trigger_intent ≡ "passive_save"
    → (evaluate_request p size request).accepted ≡ true
    → All (InNames p.fast_path_agents) (active_agents (evaluate_request p size request) agents)
unfolding active_agents
passive_runs_fast_path p size request agents passive accepted =
    rw (passive_allowed p size request passive accepted) (All-keep p.fast_path_agents agents)

-- On any trigger but a passive save, the active agents are all the agents that were chosen, in
-- their order.
pub active_runs_every_agent :
    (p : PolicyEngine) (size : Option ℕ) (request : ReviewRequest) (agents : List Agent)
    → request.trigger_intent ≢ "passive_save"
    → active_agents (evaluate_request p size request) agents ≡ agents
unfolding active_agents
active_runs_every_agent p size request agents active =
    rw ((active_runs_all p size request 0 active).1) (keep_all agents)
