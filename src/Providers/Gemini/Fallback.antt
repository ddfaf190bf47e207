-- ===== src/Providers/Gemini/Fallback.antt =====
-- Which model answers, by `_with_model_fallback` of `GeminiProvider`.
use nitpicker_daemon.Prelude.{
  Bool-cases, String, Bool, true, false, not, ◌&&◌, [], ◌∷◌, ◌==◌, ◌≡◌, refl, sym, ap, ◌∙◌, ◌⊎◌,
  inl, inr, arith, if◌then◌else◌,
}
use nitpicker_daemon.Python.Errors.{Result, ok, raised, Error}
use nitpicker_daemon.Providers.Gemini.{
  GeminiProvider, is_missing_model, tried, try_candidates, with_model_fallback,
}

module _ {A : Type 0} where
  -- the first model answers, or it is missing and the fallback, another model, answers
  abbrev pub IsAnswer : (String → Result A) → GeminiProvider → A → Type 0
  IsAnswer operation p x =
      (operation p.model ≡ ok x)
      ⊎ ((e : Error) × (operation p.model ≡ raised e)
          × (is_missing_model e.message ≡ true)
          × ((p.fallback_model == p.model) ≡ false)
          × (operation p.fallback_model ≡ ok x))

  tried-last :
      (first : Result A) (rest : Result A) (x : A) → tried first [] rest ≡ ok x → first ≡ ok x
  unfolding tried
  tried-last (ok y) rest x h = h
  tried-last (raised e) rest x h = h

  tried-next :
      (first second : Result A) (m : String) (x : A)
      → tried first (m ∷ []) second ≡ ok x
      → (first ≡ ok x)
        ⊎ ((e : Error) × (first ≡ raised e) × (is_missing_model e.message ≡ true) × (second ≡ ok x))
  unfolding tried
  tried-next (ok y) second m x h = inl h
  tried-next (raised e) second m x h = elim (Bool-cases (is_missing_model e.message)) [
    | inl missing ↦
        inr (e, refl, missing, sym (ap (λ b. if b then second else raised e) missing) ∙ h)
    | inr found ↦ inl (sym (ap (λ b. if b then second else raised e) found) ∙ h)
  ]

  try_kept-IsAnswer :
      (operation : String → Result A) (p : GeminiProvider) (x : A) (kept : Bool)
      → (not (p.fallback_model == "") && not (p.fallback_model == p.model)) ≡ kept
      → try_candidates operation p.model (elim kept [ true ↦ p.fallback_model ∷ [] | false ↦ [] ])
        ≡ ok x
      → IsAnswer operation p x
  unfolding try_candidates
  try_kept-IsAnswer operation p x true kept h =
      elim (tried-next (operation p.model)
        (tried (operation p.fallback_model) [] (operation p.fallback_model)) p.fallback_model x h) [
          | inl first ↦ inl first
          | inr (e, failed, missing, second) ↦ inr (
            e,
            failed,
            missing,
            ground arith,
            tried-last (operation p.fallback_model) (operation p.fallback_model) x second,
          )
        ]
  try_kept-IsAnswer operation p x false kept h = inl (tried-last (operation p.model) _ x h)

  -- If the fallback over models returns an answer, either it is the answer of the first model, or
  -- the first model failed with an error that says that the model is missing, the fallback model
  -- is another one, and it gave the answer.
  pub with_model_fallback-IsAnswer :
      (operation : String → Result A) (p : GeminiProvider) (x : A)
      → with_model_fallback operation p ≡ ok x
      → IsAnswer operation p x
  unfolding with_model_fallback
  with_model_fallback-IsAnswer operation p x h =
      try_kept-IsAnswer operation p x
        (not (p.fallback_model == "") && not (p.fallback_model == p.model)) refl h
