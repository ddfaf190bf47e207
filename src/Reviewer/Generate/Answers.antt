-- ===== src/Reviewer/Generate/Answers.antt =====
-- Where the verdict of a review comes from.
use nitpicker_daemon.Prelude.{
  String, true, ◌&&◌, some, List, [], ◌∷◌, ◌++◌, ◌≡◌, refl, ap, ◌∙◌, arith, Bool-cases, inl, inr,
  concat, filled, All,
}
use nitpicker_daemon.Python.Errors.{Result, ok, raised, Error, bind-eq-ok}
use nitpicker_daemon.Python.Json.{Json, str, obj, Fields, fields, Dict, get, insert, get-insert}
use nitpicker_daemon.Reviewer.Settings.{MiniReviewerSettings}
use nitpicker_daemon.Providers.Ollama.{new_provider, generate_mini}
use nitpicker_daemon.Providers.Ollama.Mini.{Answered, generate_mini-Answered}
use nitpicker_daemon.Reviewer.Generate.{
  Services, Response, is_missing_model_error, build_user_prompt, is_valid_code,
  coerce_ollama_payload, signed, generate_review_ollama, ask, model_error, after_ask, try_models,
}

get-signed_code :
    (path reviewer : String) (payload : Dict)
    → get "result_code" (signed path reviewer payload) ≡ get "result_code" payload
get-signed_code path reviewer payload =
    get-insert "reviewer" "result_code" (str reviewer) (insert "target_file" (str path) payload)
    ∙ get-insert "target_file" "result_code" (str path) payload

get-signed_target :
    (path reviewer : String) (payload : Dict)
    → get "target_file" (signed path reviewer payload) ≡ str path
get-signed_target path reviewer payload =
    get-insert "reviewer" "target_file" (str reviewer) (insert "target_file" (str path) payload)
    ∙ get-insert "target_file" "target_file" (str path) payload

module _ (s : Services) where
  -- Ollama's model answered with a dictionary whose code is valid, and the review has this code.
  pub record OllamaVerdict (path diff_text : String) (settings : MiniReviewerSettings)
      (payload : Dict) : Type 0 where
    pub system_prompt : String
    pub raw : Fields
    pub answered :
        Answered s.server system_prompt
          (build_user_prompt path diff_text)
          (new_provider s.environ (some settings.ollama_model) (some settings.ollama_base_url) 180)
          (obj raw)
    pub valid : is_valid_code (get "result_code" (fields raw)) ≡ true
    pub same_code : get "result_code" payload ≡ get "result_code" (fields raw)
    pub target : get "target_file" payload ≡ str path

  coerced :
      (raw : Json) (payload : Dict)
      → coerce_ollama_payload s raw ≡ ok payload
      → (fs : Fields) × (raw ≡ obj fs)
        × (is_valid_code (get "result_code" (fields fs)) ≡ true)
        × (get "result_code" payload ≡ get "result_code" (fields fs))
  unfolding coerce_ollama_payload
  coerced (obj fs) payload h = elim (Bool-cases (is_valid_code (get "result_code" (fields fs)))) [
    | inl e ↦ (fs, refl, e, ground arith)
    | inr e ↦ absurd (ground arith)
  ]
  coerced _ payload h = cc

  -- If a review by Ollama returns a payload, the model was available, its text was not blank and
  -- parsed to a dictionary whose result code is one of the three valid ones, and the payload has
  -- this code and names the file.
  pub generate_review_ollama-OllamaVerdict :
      (path diff_text : String) (settings : MiniReviewerSettings) (payload : Dict)
      → generate_review_ollama s path diff_text settings ≡ ok payload
      → OllamaVerdict path diff_text settings payload
  unfolding generate_review_ollama
  generate_review_ollama-OllamaVerdict path diff_text settings payload h =
      let (system_prompt, read, h1) = bind-eq-ok s.get_system_prompt _ h in
      let (raw, made, h2) =
        bind-eq-ok
          (generate_mini s.server system_prompt (build_user_prompt path diff_text) (
            new_provider s.environ (some settings.ollama_model) (some settings.ollama_base_url)
              180)).0
          _ h1 in
      let (p, coerce, h3) = bind-eq-ok (coerce_ollama_payload s raw) _ h2 in
      let (fs, is_obj, valid, same) = coerced raw p coerce in
      let signature : String = concat (
        "Ollama/"
        ∷ (new_provider s.environ (some settings.ollama_model) (some settings.ollama_base_url)
            180).model
        ∷ []) in
      let written : payload ≡ signed path signature p = cc h3 in
      record {
        system_prompt = system_prompt;
        raw = fs;
        answered =
            generate_mini-Answered s.server system_prompt (build_user_prompt path diff_text)
              (new_provider s.environ (some settings.ollama_model) (some settings.ollama_base_url)
                180)
              (obj fs) (made ∙ ap ok is_obj);
        valid = valid;
        same_code = rw written (get-signed_code path signature p ∙ same);
        target = rw written (get-signed_target path signature p);
      }

  -- the error of a model that is not there
  abbrev pub IsMissing : String → String → Type 0
  IsMissing prompt m =
      (e : Error) × (ask s m prompt ≡ raised e) × (is_missing_model_error e.message ≡ true)

  -- the first of the models that is there answered
  pub record FirstAnswer (prompt : String) (models : List String) (m : String) (response : Response)
      : Type 0 where
    pub before : List String
    pub after : List String
    pub order : models ≡ before ++ m ∷ after
    pub missing : All (IsMissing prompt) before
    pub answer : ask s m prompt ≡ ok response

  after_ask-FirstAnswer :
      (prompt : String) (tried : List String) (n : String) (models : List String)
      (r : Result Response) (m : String) (response : Response)
      → ask s n prompt ≡ r
      → (try_models s prompt tried models ≡ ok (m, response) → FirstAnswer prompt models m response)
      → after_ask s r n tried (filled models) (try_models s prompt tried models) ≡ ok (m, response)
      → FirstAnswer prompt (n ∷ models) m response
  unfolding after_ask
  after_ask-FirstAnswer prompt tried n models (ok a) m response asked later h = record {
    before = [];
    after = models;
    order = cc;
    missing = tt;
    answer = cc;
  }
  after_ask-FirstAnswer prompt tried n models (raised e) m response asked later h =
      elim (Bool-cases (is_missing_model_error e.message && filled models)) [
        | inl more ↦
            let f = later (rw more at h) in
            record {
              before = n ∷ f.before;
              after = f.after;
              order = ap (λ (l : List String). n ∷ l) f.order;
              missing = ((e, asked, ground arith), f.missing);
              answer = f.answer;
            }
        | inr last ↦ absurd (unfold model_error in ground arith)
      ]

  -- If the loop over the models of Gemini returns an answer, it is the answer of the model it
  -- names, which is one of the list, and every model before it failed with an error that says that
  -- the model is missing.
  pub try_models-FirstAnswer :
      (prompt : String) (tried models : List String) (m : String) (response : Response)
      → try_models s prompt tried models ≡ ok (m, response)
      → FirstAnswer prompt models m response
  unfolding try_models
  try_models-FirstAnswer prompt tried [] m response h = absurd (cc)
  try_models-FirstAnswer prompt tried (n ∷ models) m response h =
      after_ask-FirstAnswer prompt tried n models (ask s n prompt) m response refl
        (try_models-FirstAnswer prompt tried models m response) h
