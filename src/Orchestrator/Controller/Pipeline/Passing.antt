-- ===== src/Orchestrator/Controller/Pipeline/Passing.antt =====
-- What a passing result of a run rests on.
use nitpicker_daemon.Prelude.{
  String, true, false, Option, List, ◌≡◌, refl, any, Bool-cases, inl, inr, subst,
}
use nitpicker_daemon.Python.Errors.{Error, Result, ok, raised}
use nitpicker_daemon.Python.Exec.{Exec, pure, ◌>>=◌}
use nitpicker_daemon.Python.Exec.Triple.{
  Post, Triple, Triple-pure, Triple-bind, Triple-try, Triple-if, Triple-gets,
}
use nitpicker_daemon.Python.Json.{Json}
use nitpicker_daemon.Models.{
  ReviewRequest, ReviewResult, ContextBundle, AgentDecision, ConsensusStatus, ConsensusResult,
}
use nitpicker_daemon.Orchestrator.Consensus.{decide, is_reject, Floats}
use nitpicker_daemon.Orchestrator.Consensus.Decide.{decide-status}
use nitpicker_daemon.Orchestrator.Controller.{
  World, Agent, ReviewOrchestrator, published, build_result,
}
use nitpicker_daemon.Orchestrator.Controller.Failures.{
  classify_failure, failure_result, duplicate_result, report_failure, handle_failure,
  handle_duplicate_request,
}
use nitpicker_daemon.Orchestrator.Controller.Failures.Classified.{classify_failure_cases}
use nitpicker_daemon.Orchestrator.Controller.Agents.{select_agents, active_agents, decisions_of}
use nitpicker_daemon.Orchestrator.Controller.Verdict.{Verdict, is_consensus_pass}
use nitpicker_daemon.Orchestrator.Controller.Pipeline.{
  rejected_result, precheck_result, final_result, reject_resources, reject_policy, deliver,
  after_creation, pipeline, run_once,
}
use nitpicker_daemon.Orchestrator.Controller.Pipeline.Keeps.{
  Closed, Keeps, Keeps-then, Keeps-published, Keeps-set_state, Keeps-transition,
  Keeps-mark_terminal, Keeps-settle,
}
use nitpicker_daemon.Orchestrator.Controller.Pipeline.Verdicts.{
  passes, Approved, Reviewed, verdict_decision,
}
use nitpicker_daemon.Orchestrator.Controller.Pipeline.Stages.{admit_lem}

-- The context was built, the agents were chosen, each active one returned a decision, and the
-- consensus and the L3 gate approve.
pub record ApprovedRun (s : ReviewOrchestrator) (request : ReviewRequest) : Type 0 where
  pub context : ContextBundle
  pub agents : List Agent
  pub decisions : List AgentDecision
  pub built : s.build_context request ≡ ok context
  pub selected : select_agents s request ≡ ok agents
  pub decided :
      decisions_of request context (active_agents (verdict_decision s request) agents)
      ≡ ok decisions
  pub approved : Approved s request context decisions

abbrev Anything : World → Type 0
Anything w = Unit

anything : (id : String) → Closed id Anything
anything id = record {
  transitions = λ f t reason code w h. tt;
  terminals = λ st reason code w h. tt;
  stages = λ name phase code details w h. tt;
  boxes = λ box w h. tt;
  managers = λ m w h. tt;
  states = λ st w h. tt;
}

anyhow : {A : Type 0} (r : Result A) (w : World) → Post (λ _. Anything) (λ _. Anything) r w
anyhow (ok a) w = tt
anyhow (raised e) w = tt

indifferent : {A : Type 0} (m : Exec World A) → Keeps Anything m
indifferent m = record { at = λ w h. anyhow (m w).0 (m w).1 }

module _ (s : ReviewOrchestrator) (request : ReviewRequest) where
  abbrev J : World → Type 0
  J = Anything

  abbrev c : Closed request.request_id J
  c = anything request.request_id

  abbrev Q : ReviewResult → World → Type 0
  Q r w = passes r.status r.result_code ≡ true → ApprovedRun s request

  abbrev Rests : Exec World ReviewResult → Type 0
  Rests m = Triple J m Q (λ _. J)

  Rests-pure : (r : ReviewResult) → passes r.status r.result_code ≡ false → Rests (pure r)
  Rests-pure r n = Triple-pure r λ w h p. let no : ⊥ = cc in absurd no

  Rests-publish :
      (m : Exec _ (Unit {0})) {n : Exec World ReviewResult}
      → Rests n
      → Rests (published m >>= λ _. n)
  Rests-publish m t = Keeps-then (Keeps-published c.boxes m) λ _. t

  resources_lem : Rests (reject_resources s request)
  unfolding reject_resources build_result
  resources_lem =
      Keeps-then (Keeps-mark_terminal c _ _ _)
        λ _. Rests-publish _ (Rests-pure (rejected_result request) refl)

  policy_lem : Rests (reject_policy s request (verdict_decision s request))
  unfolding reject_policy build_result
  policy_lem = Keeps-then (Keeps-transition c _ _ _ _) λ _. Keeps-then (Keeps-set_state c _) λ _.
      Keeps-then (Keeps-mark_terminal c _ _ _) λ _.
        Rests-publish _
          (Rests-publish _ (Rests-pure (precheck_result request (verdict_decision s request)) refl))

  deliver_lem :
      (decisions : List AgentDecision) (v : Verdict)
      → Reviewed s request decisions v
      → Rests (deliver s request decisions v)
  unfolding deliver build_result
  deliver_lem decisions v reviewed = Keeps-then (Keeps-mark_terminal c _ _ _) λ _. Rests-publish _ (
      Rests-publish _ (
        Rests-publish _ (
          Rests-publish _ (
            Triple-pure (final_result request v) λ w h p. record {
              context = reviewed.context;
              agents = reviewed.agents;
              decisions = decisions;
              built = reviewed.built;
              selected = reviewed.selected;
              decided = reviewed.decided;
              approved = reviewed.approved p;
            }))))

  duplicate_lem : (v : Option String) → Rests (handle_duplicate_request s request v)
  unfolding handle_duplicate_request duplicate_result build_result
  duplicate_lem v =
      Rests-publish _
        (Rests-publish _ (Rests-publish _ (Rests-pure (duplicate_result request v) refl)))

  failed_passes_not :
      (e : Error)
      → passes
          (failure_result request (classify_failure e)).status
          (failure_result request (classify_failure e)).result_code
        ≡ false
  unfolding build_result
  failed_passes_not =
      classify_failure_cases
        (λ f.
          passes (failure_result request f).status (failure_result request f).result_code ≡ false)
        refl refl refl refl

  handle_lem : (e : Error) → Rests (handle_failure s request e)
  unfolding handle_failure report_failure
  handle_lem e =
      Triple-bind (λ _. J) (Triple-gets {Q = λ _. J} (λ w. w) λ w h. tt)
        λ w. Keeps-then (Keeps-settle s request c e w) λ _. Rests-publish _ (
          Rests-publish _
            (Rests-pure (failure_result request (classify_failure e)) (failed_passes_not e)))

  run_once_lem : Rests (run_once s request)
  unfolding run_once pipeline after_creation
  run_once_lem = Keeps-then (Keeps-set_state c _) λ _. Keeps-then (indifferent _) λ _.
      Triple-try
        (Keeps-then (indifferent _) λ o.
          Triple-if o.duplicate (λ _. duplicate_lem o.existing_state)
            (λ _.
              Keeps-then (indifferent _)
                λ _. admit_lem s request c resources_lem policy_lem deliver_lem))
        handle_lem

Post-ok :
    (Q : ReviewResult → World → Type 0) (r : Result ReviewResult) (w : World) (a : ReviewResult)
    → Post Q (λ _. Anything) r w
    → r ≡ ok a
    → Q a w
Post-ok R (ok b) w a h e = let equal : b ≡ a = cc in subst (λ x. R x w) equal h
Post-ok R (raised x) w a h e = let no : ⊥ = cc in absurd no

-- If a run returns a result with the status pass or the code REVIEW_PASSED, then the context was
-- built, every active agent returned a decision, the consensus engine passed these decisions, and
-- the L3 gate, where there is one, answered REVIEW_PASSED or no code on the findings of these
-- decisions.
pub run_once-passes :
    (s : ReviewOrchestrator) (request : ReviewRequest) (w : World) (result : ReviewResult)
    → (run_once s request w).0 ≡ ok result
    → passes result.status result.result_code ≡ true
    → ApprovedRun s request
run_once-passes s request w result h p =
    Post-ok (λ r w. passes r.status r.result_code ≡ true → ApprovedRun s request)
      (run_once s request w).0 (run_once s request w).1 result ((run_once_lem s request).at w tt) h
      p

no_rejection :
    {F : Type 0} (floats : Floats F) (repr : Json → String) (ds : List AgentDecision)
    (r : ConsensusResult)
    → decide floats repr ds ≡ r
    → is_consensus_pass r.status ≡ true
    → any is_reject ds ≡ false
no_rejection floats repr ds r e p = elim (Bool-cases (any is_reject ds)) [
  | inr n ↦ n
  | inl h ↦
      let rejects : r.status ≡ ConsensusStatus.reject =
        rw (← e) (rw (decide-status floats repr ds, h)) in
      let no : true ≡ false = rw (← p, rejects) refl in let impossible : ⊥ = cc in absurd impossible
]

-- If the consensus engine is the default one, and a run returns a result with the status pass or
-- the code REVIEW_PASSED, then the context was built, the agents were chosen, every active agent
-- returned a decision, and none of these decisions is a rejection.
pub run_once_fails_closed :
    {F : Type 0} (floats : Floats F) (s : ReviewOrchestrator) (request : ReviewRequest) (w : World)
    (result : ReviewResult)
    → ((ds : List AgentDecision) → s.decide ds ≡ ok (decide floats s.repr ds))
    → (run_once s request w).0 ≡ ok result
    → passes result.status result.result_code ≡ true
    → (run : ApprovedRun s request) × (any is_reject run.decisions ≡ false)
run_once_fails_closed floats s request w result engine h p =
    let run = run_once-passes s request w result h p in
    let agreed : decide floats s.repr run.decisions ≡ run.approved.consensus =
      let e = engine run.decisions in let f = run.approved.reached in cc in
    (
      run,
      no_rejection floats s.repr run.decisions run.approved.consensus agreed run.approved.passed,
    )
