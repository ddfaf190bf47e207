-- ===== src/Reviewer/Settings/Checks.antt =====
-- What the rest of the reviewer relies on in settings that were loaded.
use nitpicker_daemon.Prelude.{
  ℕ, String, true, false, Option, ◌==◌, ◌≡◌, ◌≢◌, refl, arith, eq_iff, ◌⊎◌, inl, inr, subst, sym,
  Bool-cases,
}
use nitpicker_daemon.Python.Errors.{Result, ok, ◌>>=◌, bind-eq-ok}
use nitpicker_daemon.Python.Json.{Json, truthy}
use nitpicker_daemon.Reviewer.Settings.{
  MiniReviewerSettings, Environ, has_space, read_settings, check_settings, file_data, load_settings,
}

-- a name of a model that is not empty and has no white space
abbrev pub IsModelName : String → Type 0
IsModelName s = (s ≢ "") × (has_space s ≡ false)

pub record IsUsable (s : MiniReviewerSettings) : Type 0 where
  pub known : (s.provider ≡ "ollama") ⊎ (s.provider ≡ "gemini")
  pub gemini :
      s.provider ≡ "gemini"
      → s.skip ≡ false
      → (truthy s.gemini_api_key ≡ true)
        × IsModelName s.gemini_model
        × (has_space s.gemini_fallback_model ≡ false)
  pub ollama : s.provider ≡ "ollama" → s.skip ≡ false → IsModelName s.ollama_model

blank-has_space : (s : String) → s == "" ≡ true → has_space s ≡ false
blank-has_space s h = rw ((eq_iff s "").0 h) (unfold has_space in refl)

check_settings-same : (s t : MiniReviewerSettings) → check_settings s ≡ ok t → t ≡ s
unfolding check_settings
check_settings-same s t h = ground arith

check-known :
    (s t : MiniReviewerSettings)
    → check_settings s ≡ ok t
    → (s.provider ≡ "ollama") ⊎ (s.provider ≡ "gemini")
unfolding check_settings
check-known s t h = elim (Bool-cases (s.provider == "ollama")) [
  | inl e ↦ inl ((eq_iff s.provider "ollama").0 e)
  | inr e ↦ elim (Bool-cases (s.provider == "gemini")) [
    | inl g ↦ inr ((eq_iff s.provider "gemini").0 g)
    | inr g ↦ ground arith
  ]
]

check-gemini :
    (s t : MiniReviewerSettings)
    → check_settings s ≡ ok t
    → s.provider ≡ "gemini"
    → s.skip ≡ false
    → (truthy s.gemini_api_key ≡ true)
      × IsModelName s.gemini_model
      × (has_space s.gemini_fallback_model ≡ false)
unfolding check_settings
check-gemini s t h p k =
    let same : s.provider == "gemini" ≡ true = (eq_iff s.provider "gemini").1 p in
    (
      ground (arith),
      (λ e. ground (arith, eq_iff s.gemini_model ""), ground arith),
      ground (arith, blank-has_space s.gemini_fallback_model),
    )

check-ollama :
    (s t : MiniReviewerSettings)
    → check_settings s ≡ ok t
    → s.provider ≡ "ollama"
    → s.skip ≡ false
    → IsModelName s.ollama_model
unfolding check_settings
check-ollama s t h p k =
    let same : s.provider == "ollama" ≡ true = (eq_iff s.provider "ollama").1 p in
    (λ e. ground (arith, eq_iff s.ollama_model ""), ground arith)

check_settings-IsUsable : (s t : MiniReviewerSettings) → check_settings s ≡ ok t → IsUsable t
check_settings-IsUsable s t h =
    subst IsUsable (sym (check_settings-same s t h)) (record {
      known = check-known s t h;
      gemini = check-gemini s t h;
      ollama = check-ollama s t h;
    })

-- If settings are loaded, their provider is ollama or gemini; unless reviews are skipped, with
-- gemini there is a key, a model with a name that is not empty and has no white space, and a
-- fallback model without white space, and with ollama a model with such a name.
pub load_settings-IsUsable :
    (to_float : Json → Result ℕ) (env : Environ) (file : Option (Result Json))
    (s : MiniReviewerSettings)
    → load_settings to_float env file ≡ ok s
    → IsUsable s
unfolding load_settings
load_settings-IsUsable to_float env file s h =
    let (table, read, rest) =
      bind-eq-ok (file_data file) (λ t. read_settings to_float env t >>= check_settings) h in
    let (raw, made, checked) = bind-eq-ok (read_settings to_float env table) check_settings rest in
    check_settings-IsUsable raw s checked
