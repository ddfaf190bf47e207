-- ===== src/State/Machine.antt =====
-- state/statemachine.py, and the values of `ReviewState`.
use nitpicker_daemon.Prelude.{
  String, Bool, true, false, Option, none, some, List, [], ◌∷◌, ◌==◌, ◌≡◌, refl, ap, ◌↔◌, ◌||◌,
  eq_iff, if◌then◌else◌,
}
use nitpicker_daemon.Models.{
  ReviewState, queued, precheck_failed, context_ready, analyzing, consensus_reached, patch_proposed,
  verified, delivered,
}

abbrev pub value : ReviewState → String
value queued = "queued"
value precheck_failed = "precheck_failed"
value context_ready = "context_ready"
value analyzing = "analyzing"
value consensus_reached = "consensus_reached"
value patch_proposed = "patch_proposed"
value verified = "verified"
value delivered = "delivered"
value ReviewState.degraded = "degraded"
value ReviewState.failed = "failed"

abbrev pub states : List ReviewState
states =
    queued ∷ precheck_failed ∷ context_ready ∷ analyzing ∷ consensus_reached ∷ patch_proposed
    ∷ verified ∷ delivered ∷ ReviewState.degraded ∷ ReviewState.failed ∷ []

-- `ReviewState(text)`
find_value : String → List ReviewState → Option ReviewState
find_value text [] = none
find_value text (s ∷ rest) = if value s == text then some s else find_value text rest

find_value-value : (s : ReviewState) → find_value (value s) states ≡ some s
unfolding find_value
find_value-value queued = refl
find_value-value precheck_failed = refl
find_value-value context_ready = refl
find_value-value analyzing = refl
find_value-value consensus_reached = refl
find_value-value patch_proposed = refl
find_value-value verified = refl
find_value-value delivered = refl
find_value-value ReviewState.degraded = refl
find_value-value ReviewState.failed = refl

pub value-injective : (s t : ReviewState) → value s ≡ value t → s ≡ t
value-injective s t h = cc (find_value-value s, find_value-value t, ap (λ v. find_value v states) h)

-- Members of a `str` enumeration are compared by their values.
unfoldable pub same : ReviewState → ReviewState → Bool
same s t = value s == value t

pub same_iff : (s t : ReviewState) → (same s t ≡ true) ↔ (s ≡ t)
unfolding same
same_iff s t = (
  λ h. value-injective s t ((eq_iff (value s) (value t)).0 h),
  λ e. (eq_iff (value s) (value t)).1 (ap value e),
)

abbrev pub member : ReviewState → List ReviewState → Bool
member s [] = false
member s (t ∷ ts) = same s t || member s ts

unfoldable pub allowed_transitions : ReviewState → List ReviewState
allowed_transitions queued = precheck_failed ∷ context_ready ∷ ReviewState.failed ∷ []
allowed_transitions precheck_failed = []
allowed_transitions context_ready = analyzing ∷ ReviewState.degraded ∷ ReviewState.failed ∷ []
allowed_transitions analyzing = consensus_reached ∷ ReviewState.degraded ∷ ReviewState.failed ∷ []
allowed_transitions consensus_reached = patch_proposed ∷ delivered ∷ ReviewState.failed ∷ []
allowed_transitions patch_proposed = verified ∷ ReviewState.failed ∷ []
allowed_transitions verified = delivered ∷ ReviewState.failed ∷ []
allowed_transitions delivered = []
allowed_transitions ReviewState.degraded = delivered ∷ ReviewState.failed ∷ []
allowed_transitions ReviewState.failed = []

unfoldable pub can_transition : ReviewState → ReviewState → Bool
unfolding allowed_transitions same
can_transition from_state to_state = member to_state (allowed_transitions from_state)
