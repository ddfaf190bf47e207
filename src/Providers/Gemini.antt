-- ===== src/Providers/Gemini.antt =====
-- providers/gemini.py and providers/local_llm.py. The environment, the configuration, the calls of the
-- service, the clock and fresh identifiers are arguments.
pub mod Fallback
use nitpicker_daemon.Prelude.{
  ℕ, ◌+◌, String, Bool, not, ◌&&◌, ◌||◌, Option, none, some, List, [], ◌∷◌, ◌==◌, if◌then◌else◌,
  ltb, codes, lower, occurs, concat, strip, keep,
}
use nitpicker_daemon.Python.Errors.{Result, ok, raised, ◌>>=◌, fail, attribute_error}
use nitpicker_daemon.Python.Json.{
  Json, str, obj, end, fields, to_fields, get, or_json, truthy, text_of, lookup, insert,
}

pub record GeminiProvider : Type 0 where
  pub api_key : String
  pub model : String
  pub fallback_model : String

pub record MockEntry : Type 0 where
  pub system_prompt : String
  pub static_context : String
  pub expires_at : ℕ

-- `_CACHE_STORE`
abbrev pub MockStore : Type 0
MockStore = List (String × MockEntry)

pub record GeminiService : Type 0 where
  pub has_genai : Bool
  -- `genai.Client(...)`
  pub client : Result (Unit {0})
  -- the text of `generate_content` for a model, a prompt and a system prompt
  pub generate_content : String → String → String → Result (Option String)
  -- the same for a model, a prompt and a cache
  pub generate_cached : String → String → String → Result (Option String)
  -- the name of the cache that `caches.create` makes
  pub create_cache : String → String → String → ℕ → Result String
  pub loads : String → Result Json

-- `value.get(key)`
abbrev get_in : String → Json → Result Json
get_in k (obj fs) = ok (get k (fields fs))
get_in k _ = fail attribute_error "object has no attribute 'get'"

-- a text that may be missing
abbrev text_or : Option String → String
text_or none = ""
text_or (some s) = s

module _ (env : String → Option String) (config : Json) (repr : Json → String) where
  -- `os.environ.get(name, "").strip()`
  abbrev env_text : String → String
  env_text name = strip (text_or (env name))

  configured_model : Json → Json → Result String
  configured_model model provider =
      if truthy model
      then ok (strip (text_of repr model))
      else (get_in "gemini_model" (or_json provider (obj end)) >>= λ configured.
          ok (
            if truthy configured
            then strip (text_of repr configured)
            else "gemini-3.1-pro-preview"))

  -- `_resolve_model`
  unfoldable pub resolve_model : Option String → Result String
  unfolding configured_model
  resolve_model explicit =
      let named : String = text_or explicit in
      if not (named == "")
      then ok named
      else if not (env_text "JEMMIN_MODEL" == "")
      then ok (env_text "JEMMIN_MODEL")
      else (do
        provider ← get_in "provider" config
        model ← get_in "model" config
        configured_model model provider)

  -- a fallback that is no second try of the same model
  abbrev other_than : String → String → String
  other_than primary_model name = if name == primary_model then "" else name

  configured_fallback : Json → Json → Result Json
  configured_fallback model provider = if truthy model then ok model else (do
    configured ← get_in "gemini_fallback_model" (or_json provider (obj end))
    ok (or_json configured (str "gemini-2.0-flash")))

  -- `_resolve_fallback_model`
  unfoldable pub resolve_fallback_model : Option String → String → Result String
  unfolding configured_fallback
  resolve_fallback_model explicit primary_model =
      let named : String = text_or explicit in
      if not (named == "")
      then ok (other_than primary_model named)
      else if not (env_text "JEMMIN_FALLBACK_MODEL" == "")
      then ok (other_than primary_model (env_text "JEMMIN_FALLBACK_MODEL"))
      else (do
        provider ← get_in "provider" config
        model ← get_in "model_fallback" config
        configured ← configured_fallback model provider
        ok (other_than primary_model (strip (text_of repr configured))))

  -- `GeminiProvider.__init__`
  unfoldable pub new_gemini_provider :
      Option String → Option String → Option String → Result GeminiProvider
  unfolding resolve_model resolve_fallback_model
  new_gemini_provider api_key model fallback_model = do
    primary ← resolve_model model
    fallback ← resolve_fallback_model fallback_model primary
    ok (record {
      api_key = if text_or api_key == "" then text_or (env "GEMINI_API_KEY") else text_or api_key;
      model = primary;
      fallback_model = fallback;
    })

-- `_is_missing_model_error`
unfoldable pub is_missing_model : String → Bool
is_missing_model message =
    let lowered : List ℕ = lower (codes message) in
    occurs (codes "not_found") lowered
    || (occurs (codes "is not found") lowered || occurs (codes "listmodels") lowered)

module _ {A : Type 0} where
  -- the next model is tried if this one is missing and there is a next one
  tried : Result A → List String → Result A → Result A
  unfolding is_missing_model
  tried (ok x) later rest = ok x
  tried (raised e) [] rest = raised e
  tried (raised e) (m ∷ later) rest = if is_missing_model e.message then rest else raised e

  unfoldable pub try_candidates : (String → Result A) → String → List String → Result A
  unfolding tried
  try_candidates operation m [] = tried (operation m) [] (operation m)
  try_candidates operation m (n ∷ later) =
      tried (operation m) (n ∷ later) (try_candidates operation n later)

  -- `_with_model_fallback`
  unfoldable pub with_model_fallback : (String → Result A) → GeminiProvider → Result A
  unfolding try_candidates
  with_model_fallback operation p =
      try_candidates operation p.model
        (keep (λ m. not (m == "") && not (m == p.model)) (p.fallback_model ∷ []))

abbrev pass_with : String → Json
pass_with reason =
    obj (to_fields (("status", str "PASS") ∷ ("reason", str reason) ∷ ("patch_code", str "") ∷ []))

-- the answers of `MockLocalLLMProvider`
unfoldable pub mock_generate : Json
mock_generate = pass_with "mock provider"

unfoldable pub mock_generate_with_cache : String → ℕ → MockStore → Json
mock_generate_with_cache cache_id now store = elim (lookup cache_id store) [
  | none ↦ pass_with "mock cache miss fallback"
  | some entry ↦
      if ltb now entry.expires_at
      then obj (
          to_fields (
            ("status", str "PASS")
            ∷ ("reason", str "mock cache hit")
            ∷ ("patch_code", str "")
            ∷ ("cache_id", str cache_id)
            ∷ []))
      else pass_with "mock cache miss fallback"
]

unfoldable pub mock_create_context_cache :
    String → String → String → ℕ → ℕ → MockStore → String × MockStore
mock_create_context_cache fresh system_prompt static_context ttl_seconds now store =
    let cache_id : String = concat ("mock-cache-" ∷ fresh ∷ []) in
    (
      cache_id,
      insert cache_id
          (record {
            system_prompt = system_prompt;
            static_context = static_context;
            expires_at = now + ttl_seconds;
          })
          store,
    )

unfoldable pub mock_delete_context_cache : String → MockStore → MockStore
mock_delete_context_cache cache_id store = keep (λ x. not (x.0 == cache_id)) store

module _ (service : GeminiService) where
  open service use {has_genai, client, generate_content, generate_cached, create_cache, loads}

  unfoldable pub gemini_available : GeminiProvider → Bool
  gemini_available p = has_genai && not (p.api_key == "")

  -- an answer, where a text that is no JSON counts as a pass with this text
  parsed_answer : Result Json → String → Json
  parsed_answer (ok v) raw = v
  parsed_answer (raised e) raw = pass_with raw

  -- `response.text or "{}"`
  abbrev raw_text : Option String → String
  raw_text none = "{}"
  raw_text (some s) = if s == "" then "{}" else s

  unfoldable pub answer_of : Result (Option String) → Json
  unfolding parsed_answer
  answer_of (ok text) = parsed_answer (loads (raw_text text)) (raw_text text)
  answer_of (raised e) = obj (
      to_fields (("status", str "ERROR") ∷ ("reason", str e.message) ∷ ("patch_code", str "") ∷ []))

  -- `generate`
  unfoldable pub gemini_generate : String → String → GeminiProvider → Result Json
  unfolding answer_of with_model_fallback gemini_available mock_generate
  gemini_generate system_prompt user_prompt p =
      if not (gemini_available p) then ok mock_generate else (do
        _ ← client
        ok (answer_of (with_model_fallback (λ m. generate_content m user_prompt system_prompt) p)))

  -- `generate_with_cache`
  unfoldable pub gemini_generate_with_cache :
      String → String → ℕ → MockStore → GeminiProvider → Result Json
  unfolding answer_of with_model_fallback gemini_available mock_generate_with_cache
  gemini_generate_with_cache cache_id tier1_prompt now store p =
      if not (gemini_available p) then ok (mock_generate_with_cache cache_id now store) else (do
        _ ← client
        ok (answer_of (with_model_fallback (λ m. generate_cached m tier1_prompt cache_id) p)))

  -- `create_context_cache`
  unfoldable pub gemini_create_context_cache :
      String → String → String → ℕ → ℕ → GeminiProvider → MockStore → Result String × MockStore
  unfolding with_model_fallback gemini_available mock_create_context_cache
  gemini_create_context_cache fresh system_prompt static_context ttl_seconds now p store =
      if not (gemini_available p)
      then (let (cache_id, store') =
            mock_create_context_cache fresh system_prompt static_context ttl_seconds now store in
          (ok cache_id, store'))
      else (
        (client >>= λ _.
            with_model_fallback (λ m. create_cache m system_prompt static_context ttl_seconds) p),
        store,
      )

  -- `delete_context_cache`: an error of the deletion itself is dropped
  unfoldable pub gemini_delete_context_cache :
      String → GeminiProvider → MockStore → Result (Unit {0}) × MockStore
  unfolding gemini_available mock_delete_context_cache
  gemini_delete_context_cache cache_id p store =
      if not (gemini_available p)
      then (ok tt, mock_delete_context_cache cache_id store)
      else ((client >>= λ _. ok tt), store)
