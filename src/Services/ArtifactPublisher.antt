-- ===== src/Services/ArtifactPublisher.antt =====
-- services/artifact_publisher.py: the channels of a review's results, each behind a handler. What
-- a channel is called with is recorded, whether the call then returns or raises.
use nitpicker_daemon.Prelude.{
  ℕ, String, Bool, true, false, Option, none, some, List, [], ◌∷◌, ◌++◌, ◌==◌, ◌||◌, ◌≡◌, ◌≢◌, refl,
  if◌then◌else◌, inl, inr, Bool-cases, Option-cases, eq_iff,
}
use mathlib.Core.List.{append-nil}
use nitpicker_daemon.Python.Errors.{
  Result, ok, raised, Error, ErrorClass, is_os_error, is_value_error, is_type_error,
}
use nitpicker_daemon.Python.Exec.{Exec, ◌>>=◌, ◌>>◌, pure}
use nitpicker_daemon.Python.Json.{Json}
use nitpicker_daemon.Models.{Score, ReviewResult, Finding}
use nitpicker_daemon.Services.PatchService.{PatchProposal}

-- the payload of `log_analytics`, without the measured latency
pub record AnalyticsRow : Type 0 where
  pub request_id : String
  pub event_type : String
  pub status : String
  pub agent_name : String
  pub findings_cnt : ℕ
  pub result_code : Json
  pub confidence : Score

pub data Emission : Type 0 where
  diagnostics : ReviewResult → String → Emission
  quick_fix : ReviewResult → String → List Finding → Option PatchProposal → Emission
  logged : ReviewResult → Emission
  analytics : AnalyticsRow → Emission
  notified : ReviewResult → String → Emission

-- how a channel answers a call
abbrev pub Channel : Type 0
Channel = Emission → Result (Unit {0})

pub record Publisher : Type 0 where
  pub feedback : Option Channel
  pub logger : Option Channel
  pub analytics_writer : Option Channel
  pub notifier : Option Channel

abbrev pub Outbox : Type 0
Outbox = List Emission

-- `if channel is None: return`, else the call
unfoldable pub emit : Option Channel → Emission → Exec Outbox (Unit {0})
emit none e box = (ok tt, box)
emit (some channel) e box = (channel e, box ++ e ∷ [])

-- `except Exception`: logged, and dropped
unfoldable pub emit_safe : Option Channel → Emission → Exec Outbox (Unit {0})
unfolding emit
emit_safe none e box = (ok tt, box)
emit_safe (some channel) e box = (ok tt, box ++ e ∷ [])

-- `except (OSError, ValueError, TypeError)`: any other exception goes on
abbrev pub quick_fix_catches : ErrorClass → Bool
quick_fix_catches k = is_os_error k || is_value_error k || is_type_error k

abbrev quick_fix_result : Result (Unit {0}) → Result (Unit {0})
quick_fix_result (ok _) = ok tt
quick_fix_result (raised e) = if quick_fix_catches e.kind then ok tt else raised e

-- what a channel, if it is there, is called with
abbrev pub offered : Option Channel → Emission → List Emission
offered none e = []
offered (some _) e = e ∷ []

emit_safe_lem :
    (o : Option Channel) (e : Emission) (box : Outbox)
    → emit_safe o e box ≡ (ok tt, box ++ offered o e)
unfolding emit_safe
emit_safe_lem none e box = rw append-nil
emit_safe_lem (some channel) e box = refl

quick_fix_caught :
    (r : Result (Unit {0}))
    → ((e : Error) → r ≡ raised e → quick_fix_catches e.kind ≡ true)
    → quick_fix_result r ≡ ok tt
quick_fix_caught (ok _) h = refl
quick_fix_caught (raised e) h = rw (h e refl)

module _ (p : Publisher) where
  unfoldable pub publish_diagnostics : ReviewResult → String → Exec Outbox (Unit {0})
  unfolding emit_safe
  publish_diagnostics result file = emit_safe p.feedback (diagnostics result file)

  unfoldable pub publish_quick_fix :
      ReviewResult → String → List Finding → Option PatchProposal → Exec Outbox (Unit {0})
  unfolding emit
  publish_quick_fix result file findings patch box =
      let (r, box') = emit p.feedback (quick_fix result file findings patch) box in
      (quick_fix_result r, box')

  unfoldable pub log_result : ReviewResult → Exec Outbox (Unit {0})
  unfolding emit_safe
  log_result result = emit_safe p.logger (logged result)

  unfoldable pub log_analytics : AnalyticsRow → Exec Outbox (Unit {0})
  unfolding emit_safe
  log_analytics row = emit_safe p.analytics_writer (analytics row)

  unfoldable pub send_notification : ReviewResult → String → Exec Outbox (Unit {0})
  unfolding emit_safe
  send_notification result file = emit_safe p.notifier (notified result file)

  unfoldable pub publish_result :
      ReviewResult → String → List Finding → Option PatchProposal → Exec Outbox (Unit {0})
  publish_result result file findings patch = do
    publish_diagnostics result file
    if file == "" then pure tt else publish_quick_fix result file findings patch
    log_result result
    send_notification result file

  publish_quick_fix_lem :
      (result : ReviewResult) (file : String) (findings : List Finding)
      (patch : Option PatchProposal) (box : Outbox)
      → ((channel : Channel) (e : Error)
          → p.feedback ≡ some channel
          → channel (quick_fix result file findings patch) ≡ raised e
          → quick_fix_catches e.kind ≡ true)
      → publish_quick_fix result file findings patch box
        ≡ (ok tt, box ++ offered p.feedback (quick_fix result file findings patch))
  unfolding publish_quick_fix
  publish_quick_fix_lem result file findings patch box h = elim (Option-cases p.feedback) [
    | inl e ↦ rw (e, emit, append-nil)
    | inr (channel, e) ↦
        rw (e, emit)
          (rw (
            quick_fix_caught (channel (quick_fix result file findings patch)) (λ x. h channel x e)))
  ]

  -- If the feedback channel raises on a quick fix, if at all, only errors that the publisher
  -- catches there, a published result reaches every channel that is there, in order, and nothing
  -- is raised; the quick fix is sent only if the file has a name.
  pub publish_result_isolated :
      (result : ReviewResult) (file : String) (findings : List Finding)
      (patch : Option PatchProposal) (box : Outbox)
      → ((channel : Channel) (e : Error)
          → p.feedback ≡ some channel
          → channel (quick_fix result file findings patch) ≡ raised e
          → quick_fix_catches e.kind ≡ true)
      → publish_result result file findings patch box ≡ (
        ok tt,
        (((box ++ offered p.feedback (diagnostics result file))
                ++ (if file == ""
                    then []
                    else offered p.feedback (quick_fix result file findings patch)))
              ++ offered p.logger (logged result))
            ++ offered p.notifier (notified result file),
      )
  unfolding publish_result publish_diagnostics log_result send_notification ◌>>=◌
  publish_result_isolated result file findings patch box h = elim (Bool-cases (file == "")) [
    | inl e ↦ rw (e, emit_safe_lem, append-nil, emit_safe_lem, emit_safe_lem)
    | inr e ↦ rw (
      e,
      emit_safe_lem,
      publish_quick_fix_lem result file findings patch _ h,
      emit_safe_lem,
      emit_safe_lem,
    )
  ]

  -- If the file has a name and the feedback channel raises an error on the quick fix that the
  -- publisher does not catch there, this error is raised, and neither the logger nor the notifier
  -- is called.
  pub publish_result_stopped :
      (result : ReviewResult) (file : String) (findings : List Finding)
      (patch : Option PatchProposal) (box : Outbox) (channel : Channel) (e : Error)
      → p.feedback ≡ some channel
      → file ≢ ""
      → channel (quick_fix result file findings patch) ≡ raised e
      → quick_fix_catches e.kind ≡ false
      → publish_result result file findings patch box ≡ (
        raised e,
        (box ++ diagnostics result file ∷ []) ++ quick_fix result file findings patch ∷ [],
      )
  unfolding publish_result publish_diagnostics publish_quick_fix ◌>>=◌
  publish_result_stopped result file findings patch box channel e f ne r c =
      elim (Bool-cases (file == "")) [
        | inl blank ↦ absurd (ne ((eq_iff file "").0 blank))
        | inr named ↦ rw (named, f, emit_safe, emit, r, c)
      ]
