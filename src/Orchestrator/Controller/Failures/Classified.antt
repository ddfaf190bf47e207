-- ===== src/Orchestrator/Controller/Failures/Classified.antt =====
-- The four outcomes of `_classify_failure`.
use nitpicker_daemon.Prelude.{String, Bool-cases, inl, inr, codes, lower, occurs}
use nitpicker_daemon.Python.Errors.{Error, ErrorClass, timeout_error, connection_error}
use nitpicker_daemon.Orchestrator.Controller.Failures.{
  Failure, degraded_with, system_failed, by_message, by_class, classify_failure,
}

module _ (P : Failure → Type 0) (timed_out : P (degraded_with "LLM_TIMEOUT"))
    (unconnected : P (degraded_with "LLM_CONNECTION_ERROR"))
    (limited : P (degraded_with "LLM_RATE_LIMITED")) (broken : P system_failed) where
  by_message_cases : (m : String) → P (by_message m)
  by_message_cases m = elim (Bool-cases (occurs (codes "rate limit") (lower (codes m)))) [
    | inl e ↦ rw e limited
    | inr e ↦ elim (Bool-cases (occurs (codes "timeout") (lower (codes m)))) [
      | inl f ↦ rw (e, f) timed_out
      | inr f ↦ elim (Bool-cases (occurs (codes "connection") (lower (codes m)))) [
        | inl g ↦ rw (e, f, g) unconnected
        | inr g ↦ rw (e, f, g) broken
      ]
    ]
  ]

  by_class_cases : (k : ErrorClass) (m : String) → P (by_class k m)
  unfolding by_class
  by_class_cases timeout_error m = timed_out
  by_class_cases connection_error m = unconnected
  by_class_cases _ m = by_message_cases m

  pub classify_failure_cases : (e : Error) → P (classify_failure e)
  unfolding classify_failure
  classify_failure_cases e = by_class_cases e.kind e.message
