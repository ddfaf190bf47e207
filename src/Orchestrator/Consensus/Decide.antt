-- ===== src/Orchestrator/Consensus/Decide.antt =====
-- The verdict and the score of `decide`.
use native.Mathlib.Nat.{lt_of_mul-lt-mul_right}
use nitpicker_daemon.Prelude.{
  ◌∙◌, ℕ, ◌+◌, ◌*◌, ◌≤◌, ◌<◌, String, Bool, false, List, [], ◌∷◌, ◌≡◌, refl, inl, inr,
  if◌then◌else◌, any, keep, map, ap, filled, All, arith, Bool-cases,
}
use nitpicker_daemon.Python.Json.{Json}
use nitpicker_daemon.Models.{Score, AgentDecision, ConsensusStatus, AgentStatus}
use nitpicker_daemon.Orchestrator.Consensus.{
  is_reject, is_warn, weight, total_weight, weighted_conf, decide, Floats,
}

filled-keep {ℓ} : {A : Type ℓ} (p : A → Bool) (xs : List A) → filled (keep p xs) ≡ any p xs
filled-keep p [] = refl
filled-keep p (x ∷ xs) = ground (arith, filled-keep p xs)

-- The consensus rejects exactly if one of the decisions is a rejection, and else passes; it never
-- gives another status.
pub decide-status :
    {F : Type 0} (floats : Floats F) (repr : Json → String) (ds : List AgentDecision)
    → (decide floats repr ds).status
      ≡ (if any is_reject ds then ConsensusStatus.reject else ConsensusStatus.pass)
unfolding decide
decide-status floats repr [] = refl
decide-status floats repr (d ∷ ds) =
    ground (arith, filled-keep is_reject (d ∷ ds), filled-keep is_warn (d ∷ ds))

no_reject :
    (ds : List AgentDecision)
    → All (λ d. d.status ≡ AgentStatus.error) ds
    → any is_reject ds ≡ false
no_reject [] h = refl
no_reject (d ∷ ds) h = ground (arith, no_reject ds h.1)

-- If every decision has the status error, the consensus passes.
pub error_only_passes :
    {F : Type 0} (floats : Floats F) (repr : Json → String) (ds : List AgentDecision)
    → All (λ d. d.status ≡ AgentStatus.error) ds
    → (decide floats repr ds).status ≡ ConsensusStatus.pass
error_only_passes floats repr ds h = rw (decide-status, no_reject ds h)

-- the sum of the weights, and the exact sum of the scores by weight
unfoldable pub weights : List (Score × ℕ) → ℕ
weights [] = 0
weights ((score, times) ∷ terms) = times + weights terms

unfoldable pub products : List (Score × ℕ) → ℕ
products [] = 0
products ((score, times) ∷ terms) = score * times + products terms

-- the mean that the floats give for scores and weights
unfoldable pub rounded : {F : Type 0} → Floats F → List (Score × ℕ) → Score
unfolding weights
rounded floats terms = floats.round_4 (
    floats.over (floats.sum (map (λ t. floats.times (floats.of_score t.0) t.1) terms))
      (weights terms))

abbrev pub terms : List AgentDecision → List (Score × ℕ)
terms = map (λ d. (d.confidence_score, weight d))

weights-terms : (ds : List AgentDecision) → weights (terms ds) ≡ total_weight ds
unfolding weights total_weight
weights-terms [] = refl
weights-terms (d ∷ ds) = rw (weights-terms ds)

-- the products that the code sums
abbrev products_of : {F : Type 0} → Floats F → List AgentDecision → List F
products_of floats = map (λ d. floats.times (floats.of_score d.confidence_score) (weight d))

map-terms :
    {F : Type 0} (floats : Floats F) (ds : List AgentDecision)
    → map (λ t. floats.times (floats.of_score t.0) t.1) (terms ds) ≡ products_of floats ds
map-terms floats [] = refl
map-terms floats (d ∷ ds) = rw (map-terms floats ds)

rounded-terms :
    {F : Type 0} (floats : Floats F) (ds : List AgentDecision)
    → rounded floats (terms ds) ≡ weighted_conf floats ds
unfolding rounded weighted_conf
rounded-terms floats ds =
    ap (λ xs. floats.round_4 (floats.over (floats.sum xs) (weights (terms ds))))
      (map-terms floats ds)
    ∙ ap (λ w. floats.round_4 (floats.over (floats.sum (products_of floats ds)) w))
        (weights-terms ds)

-- The rounded mean that the floats give for these scores and weights is less than one
-- ten-thousandth off the exact mean.
pub record IsClose {F : Type 0} (floats : Floats F) (terms : List (Score × ℕ)) : Type 0 where
  pub above : rounded floats terms * weights terms < products terms + weights terms
  pub below : products terms < rounded floats terms * weights terms + weights terms

weight_mono :
    (lo hi : Score) (d : AgentDecision)
    → (lo ≤ d.confidence_score) × (d.confidence_score ≤ hi)
    → (lo * weight d ≤ d.confidence_score * weight d)
      × (d.confidence_score * weight d ≤ hi * weight d)
unfolding weight
weight_mono lo hi d h = elim (Bool-cases (is_reject d)) [
  | inl e ↦ rw e (omega arith, omega arith)
  | inr e ↦ rw e (omega arith, omega arith)
]

products_bounds :
    (lo hi : Score) (ds : List AgentDecision)
    → All (λ d. (lo ≤ d.confidence_score) × (d.confidence_score ≤ hi)) ds
    → (lo * weights (terms ds) ≤ products (terms ds))
      × (products (terms ds) ≤ hi * weights (terms ds))
unfolding products weights
products_bounds lo hi [] h = (omega arith, omega arith)
products_bounds lo hi (d ∷ ds) h =
    let ih = products_bounds lo hi ds h.1 in
    let k = weight_mono lo hi d h.0 in (grind arith, grind arith)

-- a number whose multiple is less than one multiple off a sum keeps the bounds of the sum
near_bounds :
    (lo hi n p w : ℕ)
    → n * w < p + w
    → p < n * w + w
    → lo * w ≤ p
    → p ≤ hi * w
    → (lo ≤ n) × (n ≤ hi)
near_bounds lo hi n p w above below l u =
    let low : lo * w < (n + 1) * w = omega (arith, l, below) in
    let high : n * w < (hi + 1) * w = omega (arith, u, above) in
    let lo_n : lo < n + 1 = lt_of_mul-lt-mul_right w low in
    let n_hi : n < hi + 1 = lt_of_mul-lt-mul_right w high in (omega arith, omega arith)

decide-score :
    {F : Type 0} (floats : Floats F) (repr : Json → String) (d : AgentDecision)
    (ds : List AgentDecision)
    → (decide floats repr (d ∷ ds)).confidence_score ≡ weighted_conf floats (d ∷ ds)
unfolding decide
decide-score floats repr d ds = elim (Bool-cases (filled (keep is_reject (d ∷ ds)))) [
  | inl r ↦ rw r
  | inr r ↦ elim (Bool-cases (filled (keep is_warn (d ∷ ds)))) [
    | inl w ↦ rw (r, w)
    | inr w ↦ rw (r, w)
  ]
]

-- If there is a decision, the scores of all decisions lie between two bounds, and the floats give
-- a rounded mean of these scores and weights less than one ten-thousandth off the exact mean, the
-- score of the consensus lies between these bounds.
pub decide_score_bounds :
    {F : Type 0} (floats : Floats F) (repr : Json → String) (lo hi : Score) (d : AgentDecision)
    (ds : List AgentDecision)
    → IsClose floats (terms (d ∷ ds))
    → All (λ x. (lo ≤ x.confidence_score) × (x.confidence_score ≤ hi)) (d ∷ ds)
    → (lo ≤ (decide floats repr (d ∷ ds)).confidence_score)
      × ((decide floats repr (d ∷ ds)).confidence_score ≤ hi)
decide_score_bounds floats repr lo hi d ds close h =
    let b = products_bounds lo hi (d ∷ ds) h in
    rw (decide-score floats repr d ds, ← rounded-terms floats (d ∷ ds))
      (near_bounds lo hi (rounded floats (terms (d ∷ ds))) (products (terms (d ∷ ds)))
        (weights (terms (d ∷ ds))) close.above close.below b.0 b.1)
