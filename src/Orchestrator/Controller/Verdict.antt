-- ===== src/Orchestrator/Controller/Verdict.antt =====
-- orchestrator/controller.py, `run_once`: the verdict, from the consensus on. The last word of an
-- LLM, a patch that is checked, and a patch that is applied may each change it.
pub mod Rollback
use nitpicker_daemon.Prelude.{
  ℕ, String, Bool, true, false, Option, none, some, List, [], ◌∷◌, concat, decimal, if◌then◌else◌,
}
use nitpicker_daemon.Python.Errors.{Result, ok, raised, unbound_local_error}
use nitpicker_daemon.Python.Exec.{Exec, pure, raise, lift, try_except, ◌>>=◌, ◌>>◌}
use nitpicker_daemon.Python.Json.{
  Json, Dict, str, num, bool, get, get_or, or_json, is_str, truthy, text_of,
}
use nitpicker_daemon.Models.{
  Score, one, ReviewRequest, ResultStatus, ContextBundle, ConsensusResult, ConsensusStatus,
  AgentDecision, Finding, rejected, pass, patch,
}
use nitpicker_daemon.Services.PatchService.{PatchProposal, VerificationReport}
use nitpicker_daemon.Services.AutoFix.{AutoFixResult}
use nitpicker_daemon.Services.ArtifactPublisher.{AnalyticsRow, log_analytics}
use nitpicker_daemon.Orchestrator.Controller.{
  World, ReviewOrchestrator, published, row, record_stage_event_best_effort,
}
use nitpicker_daemon.Orchestrator.Controller.Agents.{collect_findings}

-- `final_status`, `final_summary`, `final_result_code`, and the variables they are made from. An
-- `llm_result` of `none` is a variable that no assignment has reached.
pub record Verdict : Type 0 where
  pub status : ResultStatus
  pub summary : Json
  pub result_code : Json
  pub consensus : ConsensusResult
  pub patch_proposal : Option PatchProposal
  pub llm_result : Option Dict

abbrev pub is_consensus_pass : ConsensusStatus → Bool
is_consensus_pass pass = true
is_consensus_pass _ = false

abbrev pub is_consensus_patch : ConsensusStatus → Bool
is_consensus_patch patch = true
is_consensus_patch _ = false

unfoldable pub first_verdict : ConsensusResult → Verdict
first_verdict c = record {
  status = if is_consensus_pass c.status then ResultStatus.pass else rejected;
  summary = c.summary;
  result_code = if is_consensus_pass c.status then str "REVIEW_PASSED" else str "REVIEW_REJECTED";
  consensus = c;
  patch_proposal = none;
  llm_result = none;
}

-- `isinstance(v, (int, float))` and `float(v)`: a Boolean is an `int`
abbrev score_of : Json → Option Score
score_of (num n) = some n
score_of (bool b) = some (if b then one else 0)
score_of _ = none

abbrev pub l3_code : Dict → Json
l3_code d = get_or "result_code" (str "REVIEW_PASSED") d

abbrev rescored : ConsensusResult → Json → Option Score → ConsensusResult
rescored c summary none = c
rescored c summary (some n) = record c { summary = summary; confidence_score = n }

-- The branches on the LLM's code that reject assign the same three variables from `l3_code`.
unfoldable pub after_l3 : ConsensusResult → Dict → Verdict
after_l3 c d =
    let summary = or_json (get "summary" d) c.summary in
    record {
      status = if is_str "REVIEW_PASSED" (l3_code d) then ResultStatus.pass else rejected;
      summary = summary;
      result_code = l3_code d;
      consensus = rescored c summary (score_of (get "confidence_score" d));
      patch_proposal = none;
      llm_result = some d;
    }

-- the assignments for "patch" without a verified patch
abbrev pub patch_rejected : List String → String → Verdict → Verdict
patch_rejected summary code v = record v {
  status = rejected;
  summary = str (concat summary);
  result_code = str code;
}

-- `-1` for a verification that was stopped
abbrev rc_text : Option ℕ → String
rc_text none = "-1"
rc_text (some n) = decimal n

abbrev rolled_back_status : Option Bool → Bool
rolled_back_status (some false) = true
rolled_back_status _ = false

module _ (s : ReviewOrchestrator) (request : ReviewRequest) where
  abbrev l3_event : String → String → Exec World (Unit {0})
  l3_event phase code = record_stage_event_best_effort request.request_id "l3" phase code []

  abbrev log : AnalyticsRow → Exec World (Unit {0})
  log r = published (log_analytics s.publisher r)

  unfoldable pub ask_l3 :
      (ReviewRequest → ContextBundle → List Finding → Result Dict)
      → ContextBundle
      → List AgentDecision
      → ConsensusResult
      → Exec World Verdict
  ask_l3 review context decisions c = do
    log (row request.request_id "l3_review_start" "started" "")
    l3_event "started" "L3_STARTED"
    d ←
        try_except (lift (review request context (collect_findings decisions)))
          (λ e. do l3_event "failed" "L3_FAILED"; raise e)
    l3_event "completed" "L3_COMPLETED"
    log (record (row request.request_id "l3_review_complete" "done" "") { result_code = l3_code d })
    pure (after_l3 c d)

  unfoldable pub l3_stage :
      ContextBundle → List AgentDecision → ConsensusResult → Exec World Verdict
  l3_stage context decisions c =
      if is_consensus_pass c.status
      then (elim s.llm_review_gate [
        | none ↦ pure (first_verdict c)
        | some review ↦ ask_l3 review context decisions c
      ])
      else pure (first_verdict c)

  -- f"[…] {consensus.summary}"
  abbrev with_summary : String → Verdict → List String
  with_summary prefix v = prefix ∷ text_of s.repr v.consensus.summary ∷ []

  unfoldable pub after_verify : PatchProposal → VerificationReport → Verdict → Verdict
  after_verify proposal report v =
      if report.passed
      then record v {
        status = ResultStatus.patch;
        summary = str (concat (with_summary "[PATCH VERIFIED] " v));
        result_code = str "PATCH_PROPOSED";
        patch_proposal = some proposal;
      }
      else record (patch_rejected
          ("[PATCH REJECTED] tests failed (rc=" ∷ rc_text report.returncode ∷ with_summary "): " v)
          "PATCH_VERIFY_FAILED" v) { patch_proposal = some proposal }

  unfoldable pub verify_stage :
      (ReviewRequest → PatchProposal → Result VerificationReport)
      → Option PatchProposal
      → Verdict
      → Exec World Verdict
  verify_stage verify none v =
      pure (patch_rejected (with_summary "[PATCH REQUIRED] " v) "PATCH_REQUIRED" v)
  verify_stage verify (some proposal) v = do
    report ← lift (verify request proposal)
    log
        (record (row request.request_id "patch_verify"
          (if report.passed then "verified" else "rejected") "verification_service") {
            confidence = if report.passed then one else 0;
          })
    pure (after_verify proposal report v)

  abbrev pub patch_with :
      Option (ReviewRequest → ConsensusResult → Result (Option PatchProposal))
      → Option (ReviewRequest → PatchProposal → Result VerificationReport)
      → Verdict
      → Exec World Verdict
  patch_with (some create) (some verify) v = do
    proposal ← lift (create request v.consensus)
    verify_stage verify proposal v
  patch_with _ _ v = pure (patch_rejected (with_summary "[PATCH REQUIRED] " v) "PATCH_REQUIRED" v)

  unfoldable pub patch_stage : Verdict → Exec World Verdict
  patch_stage v =
      if is_consensus_patch v.consensus.status
      then patch_with s.patch_service s.verification_service v
      else pure v

  -- the tests of `fix_result`
  unfoldable pub after_fix : AutoFixResult → Verdict → Verdict
  after_fix fix v =
      if fix.applied
      then (if rolled_back_status fix.verify_passed
          then record v {
            status = rejected;
            summary = str (concat (with_summary "[Auto-Fix Rolled Back] " v));
            result_code = str "PATCH_ROLLBACK";
          }
          else record v {
            summary = str (concat ("[Auto-Fixed] " ∷ text_of s.repr v.summary ∷ []));
            result_code = str "PATCH_APPLIED";
          })
      else v

  abbrev pub fix_with : (Json → String → Result AutoFixResult) → Json → Verdict → Exec World Verdict
  fix_with apply suggested_patch v =
      if truthy suggested_patch
      then (do
        fix ← lift (apply suggested_patch request.target_file)
        log (
            row request.request_id "autofix" (if fix.applied then "applied" else "failed")
              "autofix_service")
        pure (after_fix fix v))
      else pure v

  -- `llm_result.get("suggested_patch") or ""`, where the gate is there and the variable is bound
  abbrev pub suggested :
      Option (ReviewRequest → ContextBundle → List Finding → Result Dict)
      → Option Dict
      → Result Json
  suggested none r = ok (str "")
  suggested (some gate) none = raised (record {
    kind = unbound_local_error;
    message = "cannot access local variable 'llm_result' where it is not associated with a value";
  })
  suggested (some gate) (some d) = ok (or_json (get "suggested_patch" d) (str ""))

  abbrev pub autofix_with :
      Option (Json → String → Result AutoFixResult) → Verdict → Exec World Verdict
  autofix_with none v = pure v
  autofix_with (some apply) v = do
    suggested_patch ← lift (suggested s.llm_review_gate v.llm_result)
    fix_with apply suggested_patch v

  unfoldable pub autofix_stage : Verdict → Exec World Verdict
  autofix_stage v =
      if is_str "PATCH_PROPOSED" v.result_code then autofix_with s.autofix_service v else pure v
