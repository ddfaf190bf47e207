-- ===== src/Agents/Security/Blocks.antt =====
-- From a dangerous line in a diff to the result of the review.
use nitpicker_daemon.Prelude.{
  String, Bool, true, false, List, [], ◌∷◌, ◌≡◌, ◌⊎◌, inl, inr, ◌↔◌, refl, sym, ap, ◌∙◌, arith, any,
  filled, Bool-cases, if◌then◌else◌,
}
use nitpicker_daemon.Python.Errors.{ok}
use nitpicker_daemon.Models.{
  ReviewRequest, ReviewResult, ContextBundle, AgentDecision, AgentStatus, reject,
}
use nitpicker_daemon.Orchestrator.Consensus.{decide, is_reject, Floats}
use nitpicker_daemon.Orchestrator.Controller.{World, Agent, ReviewOrchestrator}
use nitpicker_daemon.Orchestrator.Controller.Agents.{
  select_agents, active_agents, decisions_of, decisions_of-cons,
}
use nitpicker_daemon.Orchestrator.Controller.Pipeline.{run_once}
use nitpicker_daemon.Orchestrator.Controller.Pipeline.Verdicts.{passes, verdict_decision}
use nitpicker_daemon.Orchestrator.Controller.Pipeline.Passing.{run_once_fails_closed}
use nitpicker_daemon.Agents.Scan.{added_block, scan_rules, action_of}
use nitpicker_daemon.Agents.Scan.Rules.{SomeRule, scan_rules-SomeRule, decide_findings-status}
use nitpicker_daemon.Agents.Security.{security_rules, run}

status_of_filled : (b : Bool) → ((if b then reject else AgentStatus.pass) ≡ reject) ↔ (b ≡ true)
status_of_filled true = (λ h. refl, λ h. refl)
status_of_filled false = (λ h. absurd (cc), λ h. absurd (cc))

run-status :
    (request : ReviewRequest)
    → (run request).status ≡ (
        if filled (scan_rules security_rules (added_block request.diff_text))
        then reject
        else AgentStatus.pass)
unfolding run
run-status request =
    decide_findings-status "security" reject 9500 9000 action_of
      (scan_rules security_rules (added_block request.diff_text))

-- The security agent rejects exactly if the pattern of one of its rules matches somewhere in the
-- added lines of the diff, by the meaning of the patterns as relations between places of a text.
pub rejects-SomeRule :
    (request : ReviewRequest)
    → ((run request).status ≡ reject) ↔ SomeRule (added_block request.diff_text) security_rules
rejects-SomeRule request =
    let text : String = added_block request.diff_text in
    let both = status_of_filled (filled (scan_rules security_rules text)) in
    let found = scan_rules-SomeRule security_rules text in
    (
      λ h. found.0 (both.0 (sym (run-status request) ∙ h)),
      λ h. run-status request ∙ both.1 (found.1 h),
    )

reject-is_reject : (d : AgentDecision) → d.status ≡ reject → is_reject d ≡ true
reject-is_reject d h = ground arith

-- an agent of a list
abbrev pub Has : Agent → List Agent → Type 0
Has a [] = ⊥
Has a (b ∷ bs) = (a ≡ b) ⊎ Has a bs

decides-reject :
    (request : ReviewRequest) (context : ContextBundle) (a : Agent) (agents : List Agent)
    (ds : List AgentDecision) (d : AgentDecision)
    → Has a agents
    → a.run request context ≡ ok d
    → is_reject d ≡ true
    → decisions_of request context agents ≡ ok ds
    → any is_reject ds ≡ true
decides-reject request context a [] ds d has ran r h = absurd has
decides-reject request context a (b ∷ bs) ds d (inl same) ran r h =
    let (e, ds', first, rest, all_of_them) = decisions_of-cons request context b bs ds h in
    let twice : ok e ≡ ok d =
      sym first ∙ ap (λ (x : Agent). x.run request context) (sym same) ∙ ran in
    ground (arith)
decides-reject request context a (b ∷ bs) ds d (inr has) ran r h =
    let (e, ds', first, rest, all_of_them) = decisions_of-cons request context b bs ds h in
    let later = decides-reject request context a bs ds' d has ran r rest in ground arith

-- If the pattern of a security rule matches in the added lines of a request, an active agent of
-- the orchestrator runs the security agent, and the consensus engine is the default one, then a
-- run that returns a result returns one without the status pass and without the code
-- REVIEW_PASSED.
pub dangerous_line_blocks :
    {F : Type 0} (floats : Floats F) (s : ReviewOrchestrator) (request : ReviewRequest) (w : World)
    (result : ReviewResult) (a : Agent) (agents : List Agent)
    → ((ds : List AgentDecision) → s.decide ds ≡ ok (decide floats s.repr ds))
    → select_agents s request ≡ ok agents
    → Has a (active_agents (verdict_decision s request) agents)
    → ((context : ContextBundle) → a.run request context ≡ ok (run request))
    → SomeRule (added_block request.diff_text) security_rules
    → (run_once s request w).0 ≡ ok result
    → passes result.status result.result_code ≡ false
dangerous_line_blocks floats s request w result a agents engine selected active is_agent danger h =
    elim (Bool-cases (passes result.status result.result_code)) [
      | inl p ↦
          let (review, none_rejects) = run_once_fails_closed floats s request w result engine h p in
          let same : review.agents ≡ agents = cc (review.selected, selected) in
          let rejected : any is_reject review.decisions ≡ true =
            decides-reject request review.context a
              (active_agents (verdict_decision s request) agents) review.decisions (run request)
              active (is_agent review.context)
              (reject-is_reject (run request) ((rejects-SomeRule request).1 danger))
              (rw (← same) review.decided) in
          absurd (cc)
      | inr p ↦ p
    ]
