-- ===== src/Orchestrator/Controller/Pipeline/Duplicates.antt =====
-- A run of a request that the job store has already, by its identifier or by its idempotency key.
use nitpicker_daemon.Prelude.{true, String, Option, List, ◌≡◌, refl, ap, ◌∙◌}
use nitpicker_daemon.Python.Errors.{Error, ok}
use nitpicker_daemon.Python.Exec.Triple.{Triple, Triple-pure, Triple-bind, Triple-try}
use nitpicker_daemon.Models.{ReviewRequest, ReviewResult}
use nitpicker_daemon.State.Spooler.{Row, first, has_key, conflicts, create_request, existing_value}
use nitpicker_daemon.State.Spooler.Others.{create_conflict}
use nitpicker_daemon.Services.ArtifactPublisher.{publish_diagnostics, log_result, log_analytics}
use nitpicker_daemon.Orchestrator.Controller.{
  World, ReviewOrchestrator, stored, set_state, set_persisted,
}
use nitpicker_daemon.Orchestrator.Controller.Failures.{duplicate_result, handle_duplicate_request}
use nitpicker_daemon.Orchestrator.Controller.Pipeline.{after_creation, pipeline, run_once}
use nitpicker_daemon.Orchestrator.Controller.Pipeline.Present.{emit_safe_quiet}
use nitpicker_daemon.Orchestrator.Controller.Pipeline.Terminal.{returned}

module _ (s : ReviewOrchestrator) (request : ReviewRequest) (rows : List Row) where
  abbrev Same : World → Type 0
  Same w = w.store.rows ≡ rows

  abbrev before : Option String
  before = existing_value (first (has_key request.idempotency_key) rows)

  abbrev Ignored : ReviewResult → World → Type 0
  Ignored r w = (r ≡ duplicate_result request before) × Same w

  abbrev Known : World → Type 0
  Known w = (conflicts request rows ≡ true) × Same w

  module _ {E : Error → World → Type 0} where
    handle_lem : Triple Same (handle_duplicate_request s request before) Ignored E
    unfolding handle_duplicate_request log_analytics publish_diagnostics log_result
    handle_lem =
        Triple-bind (λ _. Same) (emit_safe_quiet (λ box w h. h) _ _)
          λ _.
            Triple-bind (λ _. Same) (emit_safe_quiet (λ box w h. h) _ _)
              λ _.
                Triple-bind (λ _. Same) (emit_safe_quiet (λ box w h. h) _ _)
                  λ _. Triple-pure (duplicate_result request before) λ w h. (refl, h)

    creation_lem :
        Triple Known
          (stored (create_request request))
          (λ o w. Same w × (o.duplicate ≡ true) × (o.existing_state ≡ before))
          E
    unfolding stored create_request
    creation_lem = record {
      at = λ w h.
          let c : conflicts request w.store.rows ≡ true = rw h.1 h.0 in
          let same = create_conflict request w.store c in
          rw c (
            (rw c at same) ∙ h.1,
            refl,
            ap (λ rs. existing_value (first (has_key request.idempotency_key) rs)) h.1,
          );
    }

  run_once_lem : Triple Known (run_once s request) Ignored (λ _ _. ⊥)
  unfolding run_once pipeline set_state set_persisted after_creation
  run_once_lem =
      Triple-bind (λ _. Known) (record { at = λ w h. h })
        λ _.
          Triple-bind (λ _. Known) (record { at = λ w h. h })
            λ _.
              Triple-try {F = λ _ _. ⊥}
                (Triple-bind _ creation_lem
                  λ o. record { at = λ w h. rw (h.1, h.2) (handle_lem.at w h.0) })
                λ e. record { at = λ w h. absurd h }

-- A run for a request whose identifier or idempotency key the job store has already returns the
-- result that ignores the duplicate, with the state of the row that has the idempotency key, if
-- there is one, in its summary, and changes no row.
pub run_once_duplicate :
    (s : ReviewOrchestrator) (request : ReviewRequest) (w : World)
    → conflicts request w.store.rows ≡ true
    → ((run_once s request w).0
        ≡ ok (
            duplicate_result request
              (existing_value (first (has_key request.idempotency_key) w.store.rows))))
      × ((run_once s request w).1.store.rows ≡ w.store.rows)
run_once_duplicate s request w h =
    let (result, returns, same) =
      returned (Ignored s request w.store.rows) (run_once s request w).0 (run_once s request w).1
        ((run_once_lem s request w.store.rows).at w (h, refl)) in
    (returns ∙ ap ok same.0, same.1)
