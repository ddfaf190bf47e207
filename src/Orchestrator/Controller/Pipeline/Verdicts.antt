-- ===== src/Orchestrator/Controller/Pipeline/Verdicts.antt =====
-- What a verdict rests on, through the stages that make it: a verdict that the commit gate passes
-- comes with a consensus and an L3 gate that pass.
use nitpicker_daemon.Prelude.{
  ℕ, ◌+◌, String, Bool, true, false, Option, none, some, List, [], ◌∷◌, ◌≡◌, ◌||◌, refl,
  Option-cases, Bool-cases, inl, inr, arith,
}
use nitpicker_daemon.Python.Errors.{Result, ok}
use nitpicker_daemon.Python.Exec.Triple.{Triple, Triple-if, Triple-weaken, Triple-raise, Triple-try}
use nitpicker_daemon.Python.Json.{Json, Dict, is_str, truthy}
use nitpicker_daemon.Models.{
  ReviewRequest, ResultStatus, ContextBundle, AgentDecision, ConsensusResult, Finding,
}
use nitpicker_daemon.Services.PatchService.{PatchProposal, VerificationReport}
use nitpicker_daemon.Services.AutoFix.{AutoFixResult}
use nitpicker_daemon.Orchestrator.PolicyEngine.{PolicyDecision, evaluate_request}
use nitpicker_daemon.Orchestrator.Controller.{World, Agent, ReviewOrchestrator}
use nitpicker_daemon.Orchestrator.Controller.Agents.{
  select_agents, active_agents, run_agent, run_agents, decisions_of, collect_findings,
}
use nitpicker_daemon.Orchestrator.Controller.Verdict.{
  Verdict, is_consensus_pass, is_consensus_patch, l3_code, first_verdict, after_l3, ask_l3,
  l3_stage, after_verify, verify_stage, patch_stage, after_fix, autofix_stage, patch_with,
  autofix_with,
}
use nitpicker_daemon.Orchestrator.Controller.Pipeline.Keeps.{
  Closed, Keeps-lift, Keeps-published, Keeps-stage, Fact-bind, Keeps-then, Fact-pure, Fact-lift,
}

abbrev is_pass : ResultStatus → Bool
is_pass ResultStatus.pass = true
is_pass _ = false

-- the commit gate sees a pass
abbrev pub passes : ResultStatus → Json → Bool
passes status code = is_pass status || is_str "REVIEW_PASSED" code

-- the L3 gate, if there is one, has answered with a pass
abbrev pub L3Agrees :
    Option (ReviewRequest → ContextBundle → List Finding → Result Dict)
    → ReviewRequest
    → ContextBundle
    → List AgentDecision
    → Type 0
L3Agrees none request context decisions = Unit
L3Agrees (some review) request context decisions =
    (d : Dict) × (review request context (collect_findings decisions) ≡ ok d)
    × (is_str "REVIEW_PASSED" (l3_code d) ≡ true)

module _ (s : ReviewOrchestrator) (request : ReviewRequest) where
  -- Every active agent has returned a decision, and the consensus and the L3 gate approve.
  pub record Approved (context : ContextBundle) (decisions : List AgentDecision) : Type 0 where
    pub consensus : ConsensusResult
    pub reached : s.decide decisions ≡ ok consensus
    pub passed : is_consensus_pass consensus.status ≡ true
    pub agrees : L3Agrees s.llm_review_gate request context decisions

  abbrev pub verdict_decision : PolicyDecision
  verdict_decision = evaluate_request s.policy_engine s.file_size request

  pub record Reviewed (decisions : List AgentDecision) (v : Verdict) : Type 0 where
    pub context : ContextBundle
    pub agents : List Agent
    pub built : s.build_context request ≡ ok context
    pub selected : select_agents s request ≡ ok agents
    pub decided :
        decisions_of request context (active_agents verdict_decision agents) ≡ ok decisions
    pub approved : passes v.status v.result_code ≡ true → Approved context decisions

clash : {P : Type 0} (b : Bool) → b ≡ true → b ≡ false → P
clash b h k = let no : ⊥ = cc in absurd no

abbrev pub Good : Type 0 → Verdict → Type 0
Good P v = passes v.status v.result_code ≡ true → P

Good-first : (c : ConsensusResult) → Good (is_consensus_pass c.status ≡ true) (first_verdict c)
unfolding first_verdict
Good-first c h = ground arith

Good-l3 :
    (c : ConsensusResult) (d : Dict)
    → Good (is_str "REVIEW_PASSED" (l3_code d) ≡ true) (after_l3 c d)
unfolding after_l3
Good-l3 c d h = ground arith

module _ (s : ReviewOrchestrator) (request : ReviewRequest) where
  Good-patch :
      (proposal : PatchProposal) (report : VerificationReport) (v : Verdict) (P : Type 0)
      → Good P (after_verify s request proposal report v)
  unfolding after_verify
  Good-patch proposal report v P h = ground arith

  Good-fix :
      (fix : AutoFixResult) (v : Verdict) (P : Type 0)
      → Good P v
      → Good P (after_fix s request fix v)
  unfolding after_fix
  Good-fix fix v P g h = ground (arith, g)

  module _ {J : World → Type 0} (c : Closed request.request_id J) where
    Fact-run_agent :
        (context : ContextBundle) (ordinal total : ℕ) (a : Agent)
        → Triple J
            (run_agent request context ordinal total a)
            (λ d w. J w × (a.run request context ≡ ok d))
            (λ _. J)
    unfolding run_agent
    Fact-run_agent context ordinal total a = Keeps-then (Keeps-stage c _ _ _ _) λ _.
        Fact-bind {F = λ d. a.run request context ≡ ok d}
          (Triple-try (Fact-lift (a.run request context))
            λ e. Keeps-then (Keeps-stage c _ _ _ _) λ _. Triple-raise e λ w h. h)
          λ d e. Keeps-then (Keeps-stage c _ _ _ _) λ _. Fact-pure _ d e

    pub Fact-run_agents :
        (context : ContextBundle) (ordinal total : ℕ) (agents : List Agent)
        → Triple J
            (run_agents request context ordinal total agents)
            (λ ds w. J w × (decisions_of request context agents ≡ ok ds))
            (λ _. J)
    unfolding run_agents decisions_of
    Fact-run_agents context ordinal total [] = Fact-pure _ [] refl
    Fact-run_agents context ordinal total (a ∷ rest) =
        Fact-bind (Fact-run_agent context ordinal total a) λ d e.
          Fact-bind (Fact-run_agents context (ordinal + 1) total rest)
            λ ds f. Fact-pure _ (d ∷ ds) (rw (e, f))

    Good-ask_l3 :
        (review : ReviewRequest → ContextBundle → List Finding → Result Dict)
        (context : ContextBundle) (decisions : List AgentDecision) (r : ConsensusResult)
        → Triple J
            (ask_l3 s request review context decisions r)
            (λ v w. J w × Good (L3Agrees (some review) request context decisions) v)
            (λ _. J)
    unfolding ask_l3
    Good-ask_l3 review context decisions r = Keeps-then (Keeps-published c.boxes _) λ _.
        Keeps-then (Keeps-stage c _ _ _ _) λ _.
          Fact-bind {F = λ d. review request context (collect_findings decisions) ≡ ok d}
            (Triple-try (Fact-lift (review request context (collect_findings decisions)))
              λ e. Keeps-then (Keeps-stage c _ _ _ _) λ _. Triple-raise e λ w h. h)
            λ d e. Keeps-then (Keeps-stage c _ _ _ _) λ _.
              Keeps-then (Keeps-published c.boxes _)
                λ _. Fact-pure _ (after_l3 r d) λ h. (d, e, Good-l3 r d h)

    pub Good-l3_stage :
        (context : ContextBundle) (decisions : List AgentDecision) (r : ConsensusResult)
        → Triple J
            (l3_stage s request context decisions r)
            (λ v w.
              J w
              × Good
                  ((is_consensus_pass r.status ≡ true)
                    × L3Agrees s.llm_review_gate request context decisions)
                  v)
            (λ _. J)
    unfolding l3_stage
    Good-l3_stage context decisions r = elim (Bool-cases (is_consensus_pass r.status)) [
      | inl e ↦ elim (Option-cases s.llm_review_gate) [
        | inl g ↦ rw (e, g) (Fact-pure _ (first_verdict r) λ h. (refl, tt))
        | inr (review, g) ↦
            rw (e, g)
              (Triple-weaken (Good-ask_l3 review context decisions r) (λ w h. h)
                (λ v w h. (h.0, λ p. (refl, h.1 p))) (λ x w h. h))
      ]
      | inr e ↦
          rw e (
            Fact-pure _ (first_verdict r)
              λ h. clash (is_consensus_pass r.status) (Good-first r h) e)
    ]

    Good-verify_stage :
        (P : Type 0) (v : Verdict) (proposal : Option PatchProposal)
        (verify : ReviewRequest → PatchProposal → Result VerificationReport)
        → Triple J (verify_stage s request verify proposal v) (λ v w. J w × Good P v) (λ _. J)
    unfolding verify_stage
    Good-verify_stage P v none verify = Fact-pure _ _ λ h. ground arith
    Good-verify_stage P v (some proposal) verify = Keeps-then (Keeps-lift _) λ report.
        Keeps-then (Keeps-published c.boxes _) λ _. Fact-pure _ _ (Good-patch proposal report v P)

    Good-patch_with :
        (P : Type 0) (v : Verdict)
        (create : Option (ReviewRequest → ConsensusResult → Result (Option PatchProposal)))
        (verify : Option (ReviewRequest → PatchProposal → Result VerificationReport))
        → Triple J (patch_with s request create verify v) (λ v w. J w × Good P v) (λ _. J)
    Good-patch_with P v (some create) (some verify) =
        Keeps-then (Keeps-lift _) λ proposal. Good-verify_stage P v proposal verify
    Good-patch_with P v (some create) none = Fact-pure _ _ λ h. ground arith
    Good-patch_with P v none o = Fact-pure _ _ λ h. ground arith

    pub Good-patch_stage :
        (P : Type 0) (v : Verdict)
        → Good P v
        → Triple J (patch_stage s request v) (λ v w. J w × Good P v) (λ _. J)
    unfolding patch_stage
    Good-patch_stage P v g =
        Triple-if (is_consensus_patch v.consensus.status)
          (λ _. Good-patch_with P v s.patch_service s.verification_service) (λ _. Fact-pure _ v g)

    Good-autofix_with :
        (P : Type 0) (v : Verdict) (service : Option (Json → String → Result AutoFixResult))
        → Good P v
        → Triple J (autofix_with s request service v) (λ v w. J w × Good P v) (λ _. J)
    Good-autofix_with P v none g = Fact-pure _ v g
    Good-autofix_with P v (some apply) g = Keeps-then (Keeps-lift _) λ patch.
        Triple-if (truthy patch)
          (λ _.
            Keeps-then (Keeps-lift _)
              λ fix. Keeps-then (Keeps-published c.boxes _) λ _. Fact-pure _ _ (Good-fix fix v P g))
          (λ _. Fact-pure _ v g)

    pub Good-autofix_stage :
        (P : Type 0) (v : Verdict)
        → Good P v
        → Triple J (autofix_stage s request v) (λ v w. J w × Good P v) (λ _. J)
    unfolding autofix_stage
    Good-autofix_stage P v g =
        Triple-if (is_str "PATCH_PROPOSED" v.result_code)
          (λ _. Good-autofix_with P v s.autofix_service g) (λ _. Fact-pure _ v g)
