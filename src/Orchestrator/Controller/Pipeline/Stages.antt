-- ===== src/Orchestrator/Controller/Pipeline/Stages.antt =====
-- A run, stage by stage, down to the three places where it makes a result. What those three
-- guarantee, the run guarantees; a delivered verdict comes with what it was reached from.
use nitpicker_daemon.Prelude.{List, ◌≡◌}
use nitpicker_daemon.Python.Errors.{ok}
use nitpicker_daemon.Python.Exec.Triple.{Triple, Triple-if, Triple-weaken}
use nitpicker_daemon.Models.{ReviewRequest, ReviewResult, ContextBundle, AgentDecision}
use nitpicker_daemon.Orchestrator.Controller.{World, Agent, ReviewOrchestrator}
use nitpicker_daemon.Orchestrator.Controller.Agents.{select_agents, active_agents, decisions_of}
use nitpicker_daemon.Orchestrator.Controller.Verdict.{Verdict}
use nitpicker_daemon.Orchestrator.Controller.Pipeline.{
  reject_resources, reject_policy, deliver, conclude, run_selected, analyze, prepare, screen, admit,
}
use nitpicker_daemon.Orchestrator.Controller.Pipeline.Keeps.{
  Closed, Keeps-published, Keeps-managed, Keeps-set_state, Keeps-transition, Keeps-offload,
  Keeps-warm_cache, Fact-bind, Keeps-then, Fact-lift,
}
use nitpicker_daemon.Orchestrator.Controller.Pipeline.Verdicts.{
  Approved, verdict_decision, Reviewed, Good, Fact-run_agents, Good-l3_stage, Good-patch_stage,
  Good-autofix_stage,
}

module _ (s : ReviewOrchestrator) (request : ReviewRequest) {J : World → Type 0}
    (c : Closed request.request_id J) {Q : ReviewResult → World → Type 0}
    (resources : Triple J (reject_resources s request) Q (λ _. J))
    (policy : Triple J (reject_policy s request (verdict_decision s request)) Q (λ _. J))
    (delivers : (decisions : List AgentDecision) (v : Verdict)
      → Reviewed s request decisions v
      → Triple J (deliver s request decisions v) Q (λ _. J)) where
  conclude_lem :
      (context : ContextBundle) (agents : List Agent) (decisions : List AgentDecision)
      → s.build_context request ≡ ok context
      → select_agents s request ≡ ok agents
      → decisions_of request context (active_agents (verdict_decision s request) agents)
        ≡ ok decisions
      → Triple J (conclude s request context decisions) Q (λ _. J)
  unfolding conclude
  conclude_lem context agents decisions built selected decided =
      Keeps-then (Keeps-transition c _ _ _ _) λ _. Keeps-then (Keeps-set_state c _) λ _.
        Fact-bind (Fact-lift (s.decide decisions)) λ r reached.
          let P = Approved s request context decisions in
          Fact-bind {F = Good P}
            (Triple-weaken (Good-l3_stage s request c context decisions r) (λ w h. h)
              (λ v w h. (
                h.0,
                λ p.
                    let (passed, agrees) = h.1 p in
                    record { consensus = r; reached = reached; passed = passed; agrees = agrees },
              ))
              (λ e w h. h))
            λ v g. Fact-bind {F = Good P} (Good-patch_stage s request c P v g) λ patched g'.
              Fact-bind {F = Good P} (Good-autofix_stage s request c P patched g') λ fixed g''.
                delivers decisions fixed (record {
                  context = context;
                  agents = agents;
                  built = built;
                  selected = selected;
                  decided = decided;
                  approved = g'';
                })

  analyze_lem :
      (context : ContextBundle)
      → s.build_context request ≡ ok context
      → Triple J (analyze s request (verdict_decision s request) context) Q (λ _. J)
  unfolding analyze run_selected
  analyze_lem context built = Keeps-then (Keeps-transition c _ _ _ _) λ _.
      Keeps-then (Keeps-set_state c _) λ _.
        Fact-bind (Fact-lift (select_agents s request)) λ agents selected.
          Fact-bind (Fact-run_agents s request c context _ _ _) λ decisions decided.
            Keeps-then (Keeps-published c.boxes _)
              λ _. conclude_lem context agents decisions built selected decided

  prepare_lem : Triple J (prepare s request (verdict_decision s request)) Q (λ _. J)
  unfolding prepare
  prepare_lem = Keeps-then (Keeps-transition c _ _ _ _) λ _. Keeps-then (Keeps-set_state c _) λ _.
      Fact-bind (Fact-lift (s.build_context request)) λ context built.
        Keeps-then (Keeps-offload s request c context)
          λ _. Keeps-then (Keeps-warm_cache s request c context) λ _. analyze_lem context built

  pub admit_lem : Triple J (admit s request) Q (λ _. J)
  unfolding admit screen
  admit_lem = Keeps-then (Keeps-managed c _) λ allowed.
      Triple-if allowed
        (λ _.
          Keeps-then (Keeps-published c.boxes _)
            λ _. Triple-if (verdict_decision s request).accepted (λ _. prepare_lem) (λ _. policy))
        (λ _. resources)
