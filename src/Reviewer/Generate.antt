-- ===== src/Reviewer/Generate.antt =====
-- mini_reviewer.py: `generate_review` for one file, by a model of Ollama or of Gemini. git, the
-- clients of the services and the resolution of paths are arguments.
pub mod Answers
use Prim.Native.Char.{code}
use nitpicker_daemon.Prelude.{
  String, Bool, not, ◌||◌, ◌&&◌, Option, none, some, List, [], ◌∷◌, ◌++◌, map, ◌==◌, if◌then◌else◌,
  codes, is_blank, concat, join, filled, among, occurs, lower, splitlines, keep,
}
use nitpicker_daemon.Python.Errors.{
  Result, ok, raised, Error, ◌>>=◌, fail, type_error, runtime_error, unbound_local_error,
}
use nitpicker_daemon.Python.Json.{
  Json, num, str, arr, obj, Items, nil, cons, end, field, Dict, fields, to_fields, get, get_or,
  insert, is_str, text_of,
}
use nitpicker_daemon.Reviewer.Settings.{MiniReviewerSettings}
use nitpicker_daemon.Providers.Ollama.{Server, new_provider, generate_mini}

-- the parts of Gemini's answer that are read
pub data Parsed : Type 0 where
  absent : Parsed
  dict : Dict → Parsed
  -- an object with `model_dump`
  model : Dict → Parsed
  other : Parsed

pub record Response : Type 0 where
  pub parsed : Parsed
  -- `none` if it is no text
  pub text : Option String

pub record Services : Type 0 where
  -- `git(*args)`
  pub git : List String → Result String
  -- `normalize_target`
  pub normalize_target : String → String
  pub environ : String → Option String
  pub get_system_prompt : Result String
  -- Ollama's server; its `loads` is `json.loads`
  pub server : Server
  -- `_HAS_GENAI`, `genai.Client` and `client.models.generate_content` of a model on the prompts of
  -- the system and the user
  pub has_genai : Bool
  pub client : Json → Result (Unit {0})
  pub generate_content : String → String → String → Result Response
  -- `str` of a value that is no text
  pub repr : Json → String

-- `_model_candidates`
unfoldable pub model_candidates : MiniReviewerSettings → List String
model_candidates settings =
    let first : List String =
      if settings.gemini_model == "" then [] else settings.gemini_model ∷ [] in
    let fallback : String = settings.gemini_fallback_model in
    if fallback == "" || among fallback first then first else first ++ fallback ∷ []

abbrev mentions : String → String → Bool
mentions word message = occurs (codes word) (codes message)

abbrev mentions_lower : String → String → Bool
mentions_lower word message = occurs (codes word) (lower (codes message))

-- `_is_missing_model_error`
unfoldable pub is_missing_model_error : String → Bool
is_missing_model_error message =
    mentions_lower "not_found" message
    || (mentions_lower "is not found" message || mentions_lower "listmodels" message)

-- `_build_user_prompt`
unfoldable pub build_user_prompt : String → String → String
build_user_prompt path diff_text =
    concat ("[Target File]\n" ∷ path ∷ "\n\n[Git Diff]\n" ∷ diff_text ∷ "\n" ∷ [])

-- `result_code in _VALID_RESULT_CODES`
abbrev pub is_valid_code : Json → Bool
is_valid_code v =
    is_str "REVIEW_PASSED" v || (is_str "PATCH_PROPOSED" v || is_str "REVIEW_REJECTED" v)

-- `payload["target_file"] = path` and `payload["reviewer"] = reviewer`
abbrev pub signed : String → String → Dict → Dict
signed path reviewer payload =
    insert "reviewer" (str reviewer) (insert "target_file" (str path) payload)

module _ (s : Services) where
  open s use {
    git, normalize_target, environ, get_system_prompt, server, has_genai, client, generate_content,
    repr,
  }

  -- `diff_for`
  unfoldable pub diff_for : String → Bool → Result String
  diff_for path staged =
      git ("diff" ∷ "--unified=3" ∷ (if staged then "--cached" else "HEAD") ∷ "--" ∷ path ∷ [])

  -- `targets_from_args`
  unfoldable pub targets_from_args : List String → Bool → Result (List String)
  targets_from_args paths staged =
      if staged
      then (do
        names ← git ("diff" ∷ "--cached" ∷ "--name-only" ∷ "--diff-filter=ACM" ∷ [])
        ok (keep (λ path. not (path == "")) (splitlines names)))
      else ok (map normalize_target paths)

  normalized_details : Items → Items
  normalized_details nil = nil
  normalized_details (cons (obj fs) rest) =
      cons
        (obj (
          field "line_number" (get "line_number" (fields fs))
            (field "issue" (str (text_of repr (get_or "issue" (str "") (fields fs)))) end)))
        (normalized_details rest)
  normalized_details (cons _ rest) = normalized_details rest

  details_of : Json → Items
  unfolding normalized_details
  details_of (arr items) = normalized_details items
  details_of _ = nil

  -- `_coerce_ollama_payload`
  unfoldable pub coerce_ollama_payload : Json → Result Dict
  unfolding details_of
  coerce_ollama_payload (obj fs) =
      let raw : Dict = fields fs in
      let code : Json = get "result_code" raw in
      if is_valid_code code
      then ok (
          ("result_code", code)
          ∷ ("summary", str (text_of repr (get_or "summary" (str "") raw)))
          ∷ ("confidence_score", get_or "confidence_score" (num 0) raw)
          ∷ ("details", arr (details_of (get "details" raw)))
          ∷ ("suggested_patch", get "suggested_patch" raw)
          ∷ [])
      else fail runtime_error (
          concat (
            "Ollama가 유효하지 않은 result_code를 반환: "
            ∷ repr code
            ∷ " (허용: ('REVIEW_PASSED', 'PATCH_PROPOSED', 'REVIEW_REJECTED')). silent-PASS 금지 → 리뷰 차단."
            ∷ []))
  coerce_ollama_payload _ = fail runtime_error "Ollama mini 응답이 객체가 아님"

  -- `_generate_review_ollama`
  unfoldable pub generate_review_ollama : String → String → MiniReviewerSettings → Result Dict
  generate_review_ollama path diff_text settings =
      let provider =
        new_provider environ (some settings.ollama_model) (some settings.ollama_base_url) 180 in
      get_system_prompt >>= λ system_prompt.
      (generate_mini server system_prompt (build_user_prompt path diff_text) provider).0 >>= λ raw.
      coerce_ollama_payload raw >>= λ payload.
      ok (signed path (concat ("Ollama/" ∷ provider.model ∷ [])) payload)

  parsed_text : Option String → Result Json
  parsed_text none = fail runtime_error "Gemini returned an empty response body"
  parsed_text (some text) =
      if is_blank (codes text)
      then fail runtime_error "Gemini returned an empty response body"
      else server.loads text

  -- `_normalize_response_payload`
  unfoldable pub normalize_response_payload : Response → Result Json
  unfolding parsed_text
  normalize_response_payload r = elim r.parsed [
    | dict d ↦ ok (obj (to_fields d))
    | model d ↦ ok (obj (to_fields d))
    | absent ↦ parsed_text r.text
    | other ↦ parsed_text r.text
  ]

  -- the assignment of a key, on what may be no dictionary
  abbrev assigned : String → String → Json → Result Dict
  assigned path reviewer (obj fs) = ok (signed path reviewer (fields fs))
  assigned path reviewer _ = fail type_error "object does not support item assignment"

  -- the errors that end the loop over the models
  model_error : Error → List String → Result (String × Response)
  model_error e tried =
      if is_missing_model_error e.message
      then fail runtime_error (
          concat (
            "Gemini model is not available for generateContent in this API path; tried: "
            ∷ join ", " tried
            ∷ []))
      else if mentions "RESOURCE_EXHAUSTED" e.message || mentions_lower "quota" e.message
      then fail runtime_error "Gemini API quota exhausted"
      else if mentions "API key" e.message
          || (mentions_lower "authentication" e.message || mentions_lower "permission" e.message)
      then fail runtime_error "Gemini API authentication failed"
      else raised e

  -- the call in the `try` block
  abbrev pub ask : String → String → Result Response
  ask m prompt = get_system_prompt >>= λ system_prompt. generate_content m system_prompt prompt

  -- what an answer of a model leads to; `rest` is the loop over the models after it
  after_ask :
      Result Response
      → String
      → List String
      → Bool
      → Result (String × Response)
      → Result (String × Response)
  unfolding model_error
  after_ask (ok response) m tried more rest = ok (m, response)
  after_ask (raised e) m tried more rest =
      if is_missing_model_error e.message && more then rest else model_error e tried

  -- The loop over the models that are left: the model that answered, with its answer.
  unfoldable pub try_models : String → List String → List String → Result (String × Response)
  unfolding after_ask
  try_models prompt tried [] = fail unbound_local_error "response"
  try_models prompt tried (m ∷ models) =
      after_ask (ask m prompt) m tried (filled models) (try_models prompt tried models)

  unfoldable pub generate_review_gemini : String → String → MiniReviewerSettings → Result Dict
  generate_review_gemini path diff_text settings =
      if not has_genai
      then fail runtime_error "google-genai is not installed in the active Python environment"
      else (client settings.gemini_api_key >>= λ _.
          try_models (build_user_prompt path diff_text) (model_candidates settings)
            (model_candidates settings)
          >>= λ answer.
              normalize_response_payload answer.1
              >>= assigned path (concat ("Gemini/" ∷ answer.0 ∷ [])))

  -- `generate_review`, once there is a diff
  unfoldable pub generate_with : String → String → MiniReviewerSettings → Result (Option Dict)
  unfolding generate_review_ollama generate_review_gemini
  generate_with path diff_text settings =
      if diff_text == ""
      then ok none
      else ((if settings.provider == "ollama"
            then generate_review_ollama path diff_text settings
            else generate_review_gemini path diff_text settings)
          >>= λ payload. ok (some payload))

  unfoldable pub generate_review : String → Bool → MiniReviewerSettings → Result (Option Dict)
  unfolding generate_with
  generate_review path staged settings =
      if settings.skip
      then ok none
      else diff_for path staged >>= λ diff_text. generate_with path diff_text settings
