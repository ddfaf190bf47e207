-- ===== src/Orchestrator/Controller/Agents.antt =====
-- orchestrator/controller.py, `run_once`: the choice of the agents and the loop that runs them;
-- `_collect_findings`.
pub mod FastPath
use nitpicker_daemon.Prelude.{
  ℕ, ◌+◌, String, Bool, true, false, not, Option, none, some, List, [], ◌∷◌, ◌++◌, ◌==◌, ◌≡◌, refl,
  among, if◌then◌else◌, keep, map, length,
}
use nitpicker_daemon.Python.Errors.{Result, ok, raised}
use nitpicker_daemon.Python.Exec.{Exec, pure, raise, lift, try_except, ◌>>=◌, ◌>>◌}
use nitpicker_daemon.Python.Json.{Dict, str, set_default}
use nitpicker_daemon.Models.{
  ReviewRequest, ContextBundle, AgentDecision, AgentStatus, Finding, pass, warn, reject, error,
}
use nitpicker_daemon.Orchestrator.PolicyEngine.{PolicyDecision}
use nitpicker_daemon.Orchestrator.Controller.{
  World, Agent, ReviewOrchestrator, record_stage_event_best_effort, int,
}

-- the agent's name in the events
abbrev pub agent_name : Agent → String
agent_name a = elim a.name [ none ↦ a.class_name | some n ↦ if n == "" then a.class_name else n ]

abbrev pub is_allowed : Option (List String) → Agent → Bool
is_allowed none a = true
is_allowed (some names) a = elim a.name [ none ↦ false | some n ↦ among n names ]

-- `text or default`
abbrev or_text : String → String → String
or_text text default = if text == "" then default else text

unfoldable pub select_agents : ReviewOrchestrator → ReviewRequest → Result (List Agent)
select_agents s request = elim s.agent_registry [
  | none ↦ ok s.agents
  | some select ↦
      select (or_text request.project_profile "general")
        (or_text request.trigger_intent "active_intent")
]

unfoldable pub active_agents : PolicyDecision → List Agent → List Agent
active_agents decision agents = keep (is_allowed decision.allowed_agents) agents

abbrev status_text : AgentStatus → String
status_text pass = "pass"
status_text warn = "warn"
status_text reject = "reject"
status_text error = "error"

abbrev place : ℕ → ℕ → Agent → Dict
place ordinal total a =
    ("agent_name", str (agent_name a)) ∷ ("ordinal", int ordinal) ∷ ("total", int total) ∷ []

abbrev event : String → String → String → Dict → Exec World (Unit {0})
event id phase code details = record_stage_event_best_effort id "agent" phase code details

-- one turn of the loop
unfoldable pub run_agent : ReviewRequest → ContextBundle → ℕ → ℕ → Agent → Exec World AgentDecision
run_agent request context ordinal total a = do
  event request.request_id "started" "AGENT_STARTED" (place ordinal total a)
  decision ←
      try_except (lift (a.run request context))
        (λ e. do event request.request_id "failed" "AGENT_FAILED" (place ordinal total a); raise e)
  event request.request_id "completed" "AGENT_COMPLETED"
      (place ordinal total a ++ ("status", str (status_text decision.status)) ∷ [])
  pure decision

unfoldable pub run_agents :
    ReviewRequest → ContextBundle → ℕ → ℕ → List Agent → Exec World (List AgentDecision)
run_agents request context ordinal total [] = pure []
run_agents request context ordinal total (a ∷ rest) = do
  decision ← run_agent request context ordinal total a
  decisions ← run_agents request context (ordinal + 1) total rest
  pure (decision ∷ decisions)

abbrev is_pass : AgentStatus → Bool
is_pass pass = true
is_pass _ = false

-- `sum(1 for d in decisions if d.status != "pass")`
abbrev pub not_passed : List AgentDecision → ℕ
not_passed decisions = length (keep (λ d. not (is_pass d.status)) decisions)

unfoldable pub collect_findings : List AgentDecision → List Finding
collect_findings [] = []
collect_findings (d ∷ ds) =
    map (set_default "agent_name" (str d.agent_name)) d.findings ++ collect_findings ds

abbrev decided : Result AgentDecision → Result (List AgentDecision) → Result (List AgentDecision)
decided (raised e) rest = raised e
decided (ok d) (raised e) = raised e
decided (ok d) (ok ds) = ok (d ∷ ds)

-- The decisions of a run of the loop, without the state: every agent's, in order, or the first
-- error.
unfoldable pub decisions_of :
    ReviewRequest → ContextBundle → List Agent → Result (List AgentDecision)
decisions_of request context [] = ok []
decisions_of request context (a ∷ rest) =
    decided (a.run request context) (decisions_of request context rest)

decided-eq-ok :
    (r : Result AgentDecision) (rest : Result (List AgentDecision)) (ds : List AgentDecision)
    → decided r rest ≡ ok ds
    → (d : AgentDecision) × (ds' : List AgentDecision) × (r ≡ ok d)
      × (rest ≡ ok ds')
      × (ds ≡ d ∷ ds')
decided-eq-ok (ok d) (ok ds') ds h = (d, ds', refl, refl, cc)
decided-eq-ok (ok d) (raised e) ds h = absurd (cc)
decided-eq-ok (raised e) rest ds h = absurd (cc)

-- if all agents decided, the first one did, and so did the others
pub decisions_of-cons :
    (request : ReviewRequest) (context : ContextBundle) (a : Agent) (rest : List Agent)
    (ds : List AgentDecision)
    → decisions_of request context (a ∷ rest) ≡ ok ds
    → (d : AgentDecision) × (ds' : List AgentDecision) × (a.run request context ≡ ok d)
      × (decisions_of request context rest ≡ ok ds')
      × (ds ≡ d ∷ ds')
unfolding decisions_of
decisions_of-cons request context a rest ds h =
    decided-eq-ok (a.run request context) (decisions_of request context rest) ds h
