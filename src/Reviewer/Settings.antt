-- ===== src/Reviewer/Settings.antt =====
-- mini_reviewer.py: `load_settings`. The environment is a function, the values of the settings file
-- are dynamic, and `float` is an argument, with times in milliseconds.
pub mod Checks
use Prim.Native.Char.{code}
use nitpicker_daemon.Prelude.{
  ℕ, String, Bool, false, not, ◌&&◌, ◌||◌, Option, none, some, List, [], ◌∷◌, ◌==◌, if◌then◌else◌,
  is_space, strip, lower_text, among, concat,
}
use nitpicker_daemon.Python.Errors.{
  Result, ok, ◌>>=◌, fail, attribute_error, type_error, runtime_error,
}
use nitpicker_daemon.Python.Json.{
  Json, bool, num, str, arr, obj, Items, nil, cons, Fields, end, field, Dict, fields, get_or,
  truthy,
}

pub record MiniReviewerSettings : Type 0 where
  pub gemini_api_key : Json
  pub gemini_model : String
  pub watch_path : Json
  pub debounce_seconds : ℕ
  pub file_extensions : List String
  pub skip : Bool
  pub auto_apply_patches : Bool
  pub gemini_fallback_model : String
  pub provider : String
  pub ollama_model : String
  pub ollama_base_url : String

abbrev pub Environ : Type 0
Environ = String → Option String

-- `os.environ.get(name) == "1"`
abbrev pub is_set : Environ → String → Bool
is_set env name = elim (env name) [ none ↦ false | some s ↦ s == "1" ]

-- `os.environ.get(name) or data.get(key, default)`
abbrev pub env_or : Environ → String → Json → Json
env_or env name value = elim (env name) [ none ↦ value | some s ↦ if s == "" then value else str s ]

-- `value.strip()`
abbrev pub stripped : Json → Result String
stripped (str s) = ok (strip s)
stripped _ = fail attribute_error "object has no attribute 'strip'"

-- `text or default`
abbrev pub or_text : String → String → String
or_text s d = if s == "" then d else s

-- `any(char.isspace() for char in text)`
unfoldable pub has_space : String → Bool
has_space String.[] = false
has_space (String.◌∷◌ c s) = is_space (code c) || has_space s

-- `tuple(ext.lower() for ext in value)`: a text is iterated by its characters, a dictionary by its
-- keys
lower_items : Items → Result (List String)
lower_items nil = ok []
lower_items (cons (str s) rest) = do exts ← lower_items rest; ok (lower_text s ∷ exts)
lower_items (cons _ rest) = fail attribute_error "object has no attribute 'lower'"

lower_chars : String → List String
lower_chars String.[] = []
lower_chars (String.◌∷◌ c s) = lower_text (String.◌∷◌ c "") ∷ lower_chars s

lower_keys : Fields → List String
lower_keys end = []
lower_keys (field k v rest) = lower_text k ∷ lower_keys rest

unfoldable pub extensions : Json → Result (List String)
unfolding lower_items lower_chars lower_keys
extensions (arr items) = lower_items items
extensions (str s) = ok (lower_chars s)
extensions (obj fs) = ok (lower_keys fs)
extensions _ = fail type_error "object is not iterable"

abbrev pub default_extensions : Json
default_extensions =
    arr (cons (str ".py") (cons (str ".cpp") (cons (str ".h") (cons (str ".hpp") nil))))

-- the settings before they are checked; `to_float` is `float`
unfoldable pub read_settings : (Json → Result ℕ) → Environ → Dict → Result MiniReviewerSettings
read_settings to_float env file = do
  gemini_model ←
      stripped
        (env_or env "GEMINI_MODEL" (get_or "gemini_model" (str "gemini-3.1-pro-preview") file))
  gemini_fallback_model ← stripped (
      env_or env "GEMINI_FALLBACK_MODEL"
        (get_or "gemini_fallback_model" (str "gemini-2.0-flash") file))
  provider ← stripped (env_or env "NITPICKER_PROVIDER" (get_or "provider" (str "ollama") file))
  ollama_model ←
      stripped (env_or env "OLLAMA_MODEL" (get_or "ollama_model" (str "qwen2.5-coder:7b") file))
  ollama_base_url ←
      stripped (
        env_or env "OLLAMA_BASE_URL" (get_or "ollama_base_url" (str "http://localhost:11434") file))
  debounce ← to_float (get_or "debounce_seconds" (num 20000) file)
  exts ← extensions (get_or "file_extensions" default_extensions file)
  ok (record {
    gemini_api_key = env_or env "GEMINI_API_KEY" (get_or "gemini_api_key" (str "") file);
    gemini_model = gemini_model;
    watch_path = get_or "watch_path" (str "src") file;
    debounce_seconds = debounce;
    file_extensions = exts;
    skip = is_set env "NITPICKER_SKIP" || truthy (get_or "skip" (bool false) file);
    auto_apply_patches =
        is_set env "NITPICKER_AUTO_APPLY" || truthy (get_or "auto_apply_patches" (bool false) file);
    gemini_fallback_model =
        if gemini_fallback_model == gemini_model then "" else gemini_fallback_model;
    provider = or_text (lower_text provider) "ollama";
    ollama_model = or_text ollama_model "qwen2.5-coder:7b";
    ollama_base_url = or_text ollama_base_url "http://localhost:11434";
  })

-- the checks, in their order; the paths in one message are left out
unfoldable pub check_settings : MiniReviewerSettings → Result MiniReviewerSettings
check_settings settings =
    let gemini_required : Bool = settings.provider == "gemini" in
    if not (among settings.provider ("ollama" ∷ "gemini" ∷ []))
    then fail runtime_error (
        concat (
          "invalid provider '" ∷ settings.provider ∷ "' in local config; use 'ollama' or 'gemini'"
          ∷ []))
    else if gemini_required && (not settings.skip && not (truthy settings.gemini_api_key))
    then fail runtime_error "missing Gemini API key"
    else if gemini_required
        && (not settings.skip && (settings.gemini_model == "" || has_space settings.gemini_model))
    then fail runtime_error
        "invalid gemini_model in local config; use a valid model id such as gemini-3.1-pro-preview"
    else if gemini_required
        && (not settings.skip
            && (not (settings.gemini_fallback_model == "")
                && has_space settings.gemini_fallback_model))
    then fail runtime_error
        "invalid gemini_fallback_model in local config; use a valid model id such as gemini-2.0-flash"
    else if settings.provider == "ollama"
        && (not settings.skip && (settings.ollama_model == "" || has_space settings.ollama_model))
    then fail runtime_error
        "invalid ollama_model in local config; use a valid model id such as qwen2.5-coder:7b"
    else ok settings

-- `data.get` on what is no dictionary raises before anything else can
abbrev pub as_dict : Json → Result Dict
as_dict (obj fs) = ok (fields fs)
as_dict _ = fail attribute_error "object has no attribute 'get'"

-- The file as it was read and parsed, if there is one.
abbrev pub file_data : Option (Result Json) → Result Dict
file_data none = ok []
file_data (some parsed) = parsed >>= as_dict

unfoldable pub load_settings :
    (Json → Result ℕ) → Environ → Option (Result Json) → Result MiniReviewerSettings
unfolding read_settings check_settings
load_settings to_float env file = do
  table ← file_data file
  settings ← read_settings to_float env table
  check_settings settings
