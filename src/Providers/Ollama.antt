-- ===== src/Providers/Ollama.antt =====
-- providers/ollama.py. The answers of the server, the clock and the parser of JSON are arguments.
-- A URLError is an operating system error.
pub mod Stream
pub mod Mini
use Prim.Native.Char.{code}
use nitpicker_daemon.Prelude.{
  ℕ, ◌*◌, String, Bool, true, false, not, ◌&&◌, Option, none, some, List, [], ◌∷◌, ◌==◌,
  if◌then◌else◌, eqb, ltb, codes, is_blank, concat, decimal, strip,
}
use nitpicker_daemon.Python.Errors.{
  Result, ok, raised, Error, ◌>>=◌, fail, attribute_error, type_error, runtime_error, timeout_error,
  is_os_error, is_value_error, ErrorClass, json_decode_error,
}
use nitpicker_daemon.Python.Json.{
  Json, null, bool, str, obj, Dict, fields, get_or, truthy, set_default,
}
use nitpicker_daemon.Providers.Installed.{installed, model_names, any_match}

pub record OllamaProvider : Type 0 where
  pub model : String
  pub base_url : String
  pub total_timeout : ℕ
  -- `_available`, unset until the first check
  pub checked : Option Bool

-- What a read of the answer yields: the time since the call, and the line or what was raised.
pub record Reading : Type 0 where
  pub now : ℕ
  pub line : Result String

pub record Server : Type 0 where
  -- `_http_get`
  pub http_get : String → Result String
  -- `urlopen` for a prompt: the readings until the stream ends
  pub open_stream : String → String → String → Result (List Reading)
  -- `json.loads`
  pub loads : String → Result Json

-- `text.rstrip("/")`
unfoldable pub rstrip_slashes : String → String
rstrip_slashes String.[] = ""
rstrip_slashes (String.◌∷◌ c s) =
    let rest = rstrip_slashes s in if eqb (code c) b'/' && rest == "" then "" else String.◌∷◌ c rest

-- `given or environ.get(name, "").strip() or default`
abbrev chosen : Option String → Option String → String → String
chosen given variable default =
    let fallback : String = elim variable [
      | none ↦ default
      | some s ↦ if strip s == "" then default else strip s
    ] in
    elim given [ none ↦ fallback | some s ↦ if s == "" then fallback else s ]

-- `OllamaProvider(model, base_url, total_timeout=...)`
unfoldable pub new_provider :
    (String → Option String) → Option String → Option String → ℕ → OllamaProvider
unfolding rstrip_slashes
new_provider env model base_url total_timeout = record {
  model = chosen model (env "OLLAMA_MODEL") "qwen2.5-coder:7b";
  base_url = rstrip_slashes (chosen base_url (env "OLLAMA_BASE_URL") "http://localhost:11434");
  total_timeout = total_timeout;
  checked = none;
}

-- the handler of `available`
abbrev unreachable : ErrorClass → Bool
unreachable json_decode_error = true
unreachable k = is_os_error k

abbrev checked_as : OllamaProvider → Result Bool → Result Bool × OllamaProvider
checked_as p (ok found) = (ok found, record p { checked = some found })
checked_as p (raised e) =
    if unreachable e.kind then (ok false, record p { checked = some false }) else (raised e, p)

module _ (server : Server) where
  open server use {http_get, open_stream, loads}

  unfoldable pub available : OllamaProvider → Result Bool × OllamaProvider
  unfolding any_match model_names
  available p = elim p.checked [
    | some known ↦ (ok known, p)
    | none ↦ checked_as p (do
      resp ← http_get (concat (p.base_url ∷ "/api/tags" ∷ []))
      answer ← loads resp
      installed p.model answer)
  ]

  -- `_build_prompt`
  unfoldable pub build_prompt : String → String → String
  build_prompt system_prompt user_prompt =
      let user : String = concat ("[USER]\n" ∷ user_prompt ∷ []) in
      if system_prompt == ""
      then user
      else concat ("[SYSTEM]\n" ∷ system_prompt ∷ "\n" ∷ "\n" ∷ user ∷ [])

  -- `"".join(tokens)`
  unfoldable pub join_tokens : List Json → Result String
  join_tokens [] = ok ""
  join_tokens (str s ∷ tokens) = do rest ← join_tokens tokens; ok (concat (s ∷ rest ∷ []))
  join_tokens (_ ∷ tokens) = fail type_error "expected str instance"

  -- a line that is no JSON is skipped
  unfoldable pub parsed_line : Result Json → Result (Option Json)
  parsed_line (ok v) = ok (some v)
  parsed_line (raised e) = elim e.kind [ json_decode_error ↦ ok none | _ ↦ raised e ]

  -- `chunk.get("response", "")` and `chunk.get("done", False)`
  unfoldable pub chunk_parts : Option Json → Result (Json × Bool)
  chunk_parts none = ok (null, false)
  chunk_parts (some (obj fs)) =
      ok (get_or "response" (str "") (fields fs), truthy (get_or "done" (bool false) (fields fs)))
  chunk_parts (some _) = fail attribute_error "object has no attribute 'get'"

  abbrev add_token : Json → Result (List Json) → Result (List Json)
  add_token token (ok tokens) = ok (if truthy token then token ∷ tokens else tokens)
  add_token token (raised e) = raised e

  -- what a chunk adds, and whether it is the last one
  after_chunk : Json × Bool → Result (List Json) → Result (List Json)
  after_chunk (token, true) rest = add_token token (ok [])
  after_chunk (token, false) rest = add_token token rest

  -- an empty line ends the stream
  after_line : String → Result (List Json) → Result (List Json)
  unfolding parsed_line chunk_parts after_chunk
  after_line line rest =
      if line == ""
      then ok []
      else parsed_line (loads line) >>= chunk_parts >>= λ parts. after_chunk parts rest

  -- The loop: the tokens from the readings that are left. The time is looked at before each read.
  unfoldable pub receive : ℕ → List Reading → Result (List Json)
  unfolding after_line
  receive limit [] = ok []
  receive limit (r ∷ readings) =
      let rest = receive limit readings in
      if ltb limit r.now
      then fail timeout_error "total timeout"
      else r.line >>= λ line. after_line line rest

  unfoldable pub http_post_streaming : OllamaProvider → String → Result String
  unfolding join_tokens receive
  http_post_streaming p prompt =
      if eqb p.total_timeout 0 then fail timeout_error "total timeout" else (do
        readings ← open_stream (concat (p.base_url ∷ "/api/generate" ∷ [])) p.model prompt
        tokens ← receive (p.total_timeout * 1000) readings
        join_tokens tokens)

  unfoldable pub fallback_response : String → Dict
  fallback_response reason =
      ("status", str "PASS")
      ∷ ("reason", str (concat ("ollama fallback: " ∷ reason ∷ [])))
      ∷ ("patch_code", str "")
      ∷ []

  -- the fields that the callers of `generate` read
  with_defaults : Json → Result Dict
  with_defaults (obj fs) = ok (
      set_default "patch_code" (str "")
        (set_default "reason" (str "") (set_default "status" (str "PASS") (fields fs))))
  with_defaults _ = fail attribute_error "object has no attribute 'setdefault'"

  plain_answer : String → Dict
  plain_answer text = ("status", str "PASS") ∷ ("reason", str text) ∷ ("patch_code", str "") ∷ []

  read_answer : String → Result Json → Result Dict
  unfolding with_defaults plain_answer
  read_answer text (ok v) = with_defaults v
  read_answer text (raised e) = if is_value_error e.kind then ok (plain_answer text) else raised e

  -- the handlers of `generate`
  generate_failed : OllamaProvider → Error → ErrorClass → Result Dict
  unfolding fallback_response
  generate_failed p e timeout_error =
      ok (fallback_response (concat ("total timeout " ∷ decimal p.total_timeout ∷ "s 초과" ∷ [])))
  generate_failed p e kind = if unreachable kind then ok (fallback_response e.message) else raised e

  handled : OllamaProvider → Result Dict → Result Dict
  unfolding generate_failed
  handled p (ok answer) = ok answer
  handled p (raised e) = generate_failed p e e.kind

  generated : OllamaProvider → Result String → Result Dict
  unfolding read_answer handled
  generated p r = handled p (r >>= λ text. read_answer text (loads text))

  after_check : String → String → Result Bool × OllamaProvider → Result Dict × OllamaProvider
  unfolding generated build_prompt http_post_streaming fallback_response
  after_check system_prompt user_prompt (ok true, p) =
      (generated p (http_post_streaming p (build_prompt system_prompt user_prompt)), p)
  after_check system_prompt user_prompt (ok false, p) =
      (ok (fallback_response "ollama not available"), p)
  after_check system_prompt user_prompt (raised e, p) = (raised e, p)

  -- the request's system prompt and user prompt
  unfoldable pub generate : String → String → OllamaProvider → Result Dict × OllamaProvider
  unfolding after_check available
  generate system_prompt user_prompt p = after_check system_prompt user_prompt (available p)

  -- a text that is no JSON; other errors than those of a value are let through
  mini_answer : Result Json → Result Json
  mini_answer (ok v) = ok v
  mini_answer (raised e) =
      if is_value_error e.kind
      then fail runtime_error (concat ("Ollama 응답 JSON 파싱 실패: " ∷ e.message ∷ []))
      else raised e

  mini_text : Result String → Result Json
  unfolding mini_answer
  mini_text (ok text) =
      if is_blank (codes text)
      then fail runtime_error "Ollama가 빈 응답을 반환했습니다 (mini 리뷰 불가)"
      else mini_answer (loads text)
  mini_text (raised e) = raised e

  after_mini_check : String → String → Result Bool × OllamaProvider → Result Json × OllamaProvider
  unfolding mini_text build_prompt http_post_streaming
  after_mini_check system_prompt user_prompt (ok true, p) =
      (mini_text (http_post_streaming p (build_prompt system_prompt user_prompt)), p)
  after_mini_check system_prompt user_prompt (ok false, p) =
      (fail runtime_error (concat ("Ollama 서버 미가용 또는 모델 '" ∷ p.model ∷ "' 미설치" ∷ [])), p)
  after_mini_check system_prompt user_prompt (raised e, p) = (raised e, p)

  unfoldable pub generate_mini : String → String → OllamaProvider → Result Json × OllamaProvider
  unfolding after_mini_check available
  generate_mini system_prompt user_prompt p =
      after_mini_check system_prompt user_prompt (available p)

-- `reset_availability`
unfoldable pub reset_availability : OllamaProvider → OllamaProvider
reset_availability p = record p { checked = none }
