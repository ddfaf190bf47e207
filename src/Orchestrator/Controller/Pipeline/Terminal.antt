-- ===== src/Orchestrator/Controller/Pipeline/Terminal.antt =====
-- How a run leaves its own row: in the terminal state that its result names.
use nitpicker_daemon.Prelude.{String, true, false, not, some, List, ◌≡◌, ◌&&◌, refl, any, eq_refl}
use nitpicker_daemon.Python.Errors.{Error, Result, ok, raised}
use nitpicker_daemon.Python.Exec.{Exec, pure, ◌>>=◌}
use nitpicker_daemon.Python.Exec.Triple.{
  Post, Triple, Triple-pure, Triple-bind, Triple-try, Triple-if, Triple-weaken, Triple-gets,
}
use nitpicker_daemon.Models.{
  AgentDecision, ReviewRequest, ReviewResult, ReviewState, delivered, precheck_failed,
}
use nitpicker_daemon.State.Machine.{same}
use nitpicker_daemon.State.Spooler.{
  JobCreationOutcome, first, has_id, conflicts, create_request, append_event,
}
use nitpicker_daemon.State.Spooler.Audit.{state_of}
use nitpicker_daemon.Services.ArtifactPublisher.{Outbox, publish_diagnostics, log_result}
use nitpicker_daemon.Orchestrator.Controller.{
  World, ReviewOrchestrator, stored, published, set_state, set_persisted,
  record_failure_transition_best_effort, is_terminal, build_result,
}
use nitpicker_daemon.Orchestrator.Controller.Failures.{
  Failure, classify_failure, failure_result, settle, report_failure, handle_failure,
}
use nitpicker_daemon.Orchestrator.Controller.Failures.Classified.{classify_failure_cases}
use nitpicker_daemon.Orchestrator.Controller.Verdict.{Verdict}
use nitpicker_daemon.Orchestrator.Controller.Pipeline.{
  rejected_result, precheck_result, final_result, reject_resources, reject_policy, deliver,
  after_creation, pipeline, run_once,
}
use nitpicker_daemon.Orchestrator.Controller.Pipeline.Keeps.{
  Closed, Keeps-then, Keeps-transition, Keeps-set_state, Keeps-published,
}
use nitpicker_daemon.Orchestrator.Controller.Pipeline.Verdicts.{verdict_decision}
use nitpicker_daemon.Orchestrator.Controller.Pipeline.Stages.{admit_lem}
use nitpicker_daemon.Orchestrator.Controller.Pipeline.Present.{
  any-append, or-true, Present, Present-Closed, Settled, mark_terminal_settles, emit_safe_quiet,
}

-- what is promised of a result
abbrev Final : String → ReviewResult → World → Type 0
Final id r w =
    (state_of (first (has_id id) w.store.rows) ≡ some r.state) × (is_terminal r.state ≡ true)

classified_terminal : (e : Error) → is_terminal (classify_failure e).state ≡ true
classified_terminal = classify_failure_cases (λ f. is_terminal f.state ≡ true) refl refl refl refl

module _ (s : ReviewOrchestrator) (request : ReviewRequest) where
  abbrev J : World → Type 0
  J = Present request.request_id

  abbrev K : ReviewState → World → Type 0
  K = Settled request.request_id

  closed : Closed request.request_id J
  closed = Present-Closed request.request_id

  -- an output after the row is settled, whether it then returns or raises
  publish_then :
      (st : ReviewState) (m : Exec Outbox (Unit {0})) {A : Type 0} {f : Unit {0} → Exec World A}
      {R : A → World → Type 0}
      → ((a : Unit {0}) → Triple (K st) (f a) R (λ _. J))
      → Triple (K st) (published m >>= f) R (λ _. J)
  publish_then st m k =
      Triple-bind (λ _. K st)
        (Triple-weaken (Keeps-published (λ box w h. h) m) (λ w h. h) (λ a w h. h) (λ e w h. h.0)) k

  finish :
      (r : ReviewResult)
      → is_terminal r.state ≡ true
      → {E : Error → World → Type 0} → Triple (K r.state) (pure r) (Final request.request_id) E
  finish r t = Triple-pure r λ w h. (h.1, t)

  resources_lem : Triple J (reject_resources s request) (Final request.request_id) (λ _. J)
  unfolding reject_resources build_result
  resources_lem =
      Triple-bind (λ _. K ReviewState.degraded) (mark_terminal_settles _ _ _ _)
        λ _. publish_then _ _ λ _. finish (rejected_result request) refl

  policy_lem :
      Triple J
        (reject_policy s request (verdict_decision s request))
        (Final request.request_id)
        (λ _. J)
  unfolding reject_policy build_result
  policy_lem = Keeps-then (Keeps-transition closed _ _ _ _) λ _.
      Keeps-then (Keeps-set_state closed _) λ _.
        Triple-bind (λ _. K precheck_failed) (mark_terminal_settles _ _ _ _)
          λ _. publish_then _ _ λ _.
            publish_then _ _ λ _. finish (precheck_result request (verdict_decision s request)) refl

  deliver_lem :
      (decisions : List AgentDecision) (v : Verdict)
      → Triple J (deliver s request decisions v) (Final request.request_id) (λ _. J)
  unfolding deliver build_result
  deliver_lem decisions v =
      Triple-bind (λ _. K delivered) (mark_terminal_settles _ _ _ _)
        λ _. publish_then _ _ λ _.
          publish_then _ _
            λ _. publish_then _ _ λ _. publish_then _ _ λ _. finish (final_result request v) refl

  module _ {E : Error → World → Type 0} where
    quiet_set_state : (st : ReviewState) → Triple J (set_state st) (λ _. J) E
    unfolding set_state
    quiet_set_state st = record { at = λ w h. h }

    settle_lem :
        (e : Error) (f : Failure) (w : World)
        → w.request_persisted ≡ true
        → Triple J (settle s request e f w) (λ _. K f.state) E
    unfolding settle record_failure_transition_best_effort
    settle_lem e f w p = rw p (
        Triple-bind (λ _. J)
          (Triple-if (not (is_terminal w.current_state) && not (same w.current_state f.state))
            (λ _.
              Triple-bind (λ _. J)
                (Triple-try {F = λ _. J} (Keeps-transition closed _ _ _ _)
                  λ _. Triple-pure tt λ w h. h)
                λ _. quiet_set_state f.state)
            (λ _. Triple-pure tt λ w h. h))
          λ _. mark_terminal_settles _ _ _ _)

    report_lem :
        (f : Failure)
        → is_terminal f.state ≡ true
        → Triple (K f.state) (report_failure s request f) (Final request.request_id) E
    unfolding build_result report_failure publish_diagnostics log_result
    report_lem f t =
        Triple-bind (λ _. K f.state) (emit_safe_quiet (λ box w h. h) _ _)
          λ _.
            Triple-bind (λ _. K f.state) (emit_safe_quiet (λ box w h. h) _ _)
              λ _. finish (failure_result request f) t

    handle_lem : (e : Error) → Triple J (handle_failure s request e) (Final request.request_id) E
    unfolding handle_failure
    handle_lem e =
        Triple-bind (λ w' w. J w × (w'.request_persisted ≡ true))
          (Triple-gets (λ w. w) λ w h. (h, h.1))
          λ w. record {
            at = λ w' h.
                (Triple-bind (λ _. K (classify_failure e).state)
                    (settle_lem e (classify_failure e) w h.1)
                    λ _. report_lem (classify_failure e) (classified_terminal e)).at
                  w' h.0;
          }

  abbrev Fresh : World → Type 0
  Fresh w = conflicts request w.store.rows ≡ false

  creation_lem :
      Triple Fresh
        (stored (create_request request))
        (λ o w.
          (any (has_id request.request_id) w.store.rows ≡ true)
          × (o.duplicate ≡ false)
          × (o.created ≡ true))
        (λ _ _. ⊥)
  unfolding stored create_request append_event
  creation_lem = record {
    at = λ w h. rw h (
      rw (any-append, eq_refl request.request_id)
          (or-true (any (has_id request.request_id) w.store.rows)),
      refl,
      refl,
    );
  }

  after_creation_lem :
      (o : JobCreationOutcome)
      → o.duplicate ≡ false
      → o.created ≡ true
      → Triple
          (λ w. any (has_id request.request_id) w.store.rows ≡ true)
          (after_creation s request o)
          (Final request.request_id)
          (λ _. J)
  unfolding after_creation set_persisted
  after_creation_lem o d k =
      rw (d, k)
        (Triple-bind (λ _. J) (record { at = λ w h. (h, refl) })
          λ _. admit_lem s request closed resources_lem policy_lem λ ds v r. deliver_lem ds v)

  run_once_lem : Triple Fresh (run_once s request) (Final request.request_id) (λ _ _. ⊥)
  unfolding run_once pipeline set_state set_persisted
  run_once_lem =
      Triple-bind (λ _. Fresh) (record { at = λ w h. h })
        λ _.
          Triple-bind (λ _. Fresh) (record { at = λ w h. h })
            λ _.
              Triple-try {F = λ _. J}
                (Triple-bind _
                  (Triple-weaken creation_lem (λ w h. h) (λ a w h. h) (λ e w h. absurd h))
                  λ o. record { at = λ w h. (after_creation_lem o h.1 h.2).at w h.0 })
                handle_lem

pub returned :
    (Q : ReviewResult → World → Type 0) (r : Result ReviewResult) (w : World)
    → Post Q (λ _ _. ⊥) r w
    → (result : ReviewResult) × (r ≡ ok result) × Q result w
returned Q (ok result) w h = (result, refl, h)
returned Q (raised e) w h = absurd h

-- A run for a request that conflicts with no row of the job store returns a result, whatever the
-- collaborators answer or raise: afterwards the row of the request is in the state that the result
-- names, and that state is terminal.
pub run_once_settles :
    (s : ReviewOrchestrator) (request : ReviewRequest) (w : World)
    → conflicts request w.store.rows ≡ false
    → (result : ReviewResult) × ((run_once s request w).0 ≡ ok result)
      × (state_of (first (has_id request.request_id) (run_once s request w).1.store.rows)
          ≡ some result.state)
      × (is_terminal result.state ≡ true)
run_once_settles s request w h =
    let (result, returns, final) =
      returned (Final request.request_id) (run_once s request w).0 (run_once s request w).1
        ((run_once_lem s request).at w h) in
    (result, returns, final.0, final.1)
