-- ===== src/Services/LlmReviewGate.antt =====
-- services/llm_review_gate.py. The provider, `json.loads` and the conversion of a number's text are arguments.
pub mod Prompt
pub mod Grounds
use nitpicker_daemon.Prelude.{
  String, Bool, true, false, [], ◌∷◌, ◌==◌, ◌||◌, concat, if◌then◌else◌, ltb, strip, codes, starts,
}
use nitpicker_daemon.Python.Errors.{
  Result, ok, raised, Error, is_os_error, is_value_error, is_key_error, is_runtime_error,
  attribute_error, type_error, json_decode_error, fail,
}
use nitpicker_daemon.Python.Json.{
  Json, null, bool, num, str, arr, obj, nil, cons, Dict, fields, get, truthy, or_json, is_str,
  has_key,
}
use nitpicker_daemon.Models.{Score}

pub record Gate : Type 0 where
  -- `provider.generate` on the built prompt
  pub generate : String → Result Dict
  -- `json.loads`
  pub loads : String → Result Json
  -- `float(text)`
  pub float_text : String → Result Score
  -- `str(v)` of a value that is no text
  pub repr : Json → String

-- the dictionary that a fallback and a downgrade return
abbrev pub passed : String → Score → Dict
passed summary score =
    ("result_code", str "REVIEW_PASSED")
    ∷ ("summary", str summary)
    ∷ ("confidence_score", num score)
    ∷ ("details", arr nil)
    ∷ ("suggested_patch", null)
    ∷ []

unfoldable pub fallback_pass : String → Dict
fallback_pass reason = passed reason 5000

-- `float(v)`; the values of `false` never come here
unfoldable pub to_float : Gate → Json → Result Score
to_float g (num n) = ok n
to_float g (bool true) = ok 10000
to_float g (bool false) = ok 0
to_float g (str s) = g.float_text s
to_float g _ = fail type_error "float() argument must be a string or a real number"

-- `v not in {...}` hashes `v`, and a list or a dictionary cannot be hashed
abbrev hashable : Json → Bool
hashable (arr _) = false
hashable (obj _) = false
hashable _ = true

abbrev pub blocking : Json → Bool
blocking code = is_str "REVIEW_REJECTED" code || is_str "PATCH_PROPOSED" code

-- `isinstance(details, list) and len(details) > 0`
abbrev has_details : Json → Bool
has_details (arr (cons _ _)) = true
has_details _ = false

-- what a blocking answer must bring
abbrev pub has_grounds : Dict → Bool
has_grounds payload = has_details (get "details" payload) || truthy (get "suggested_patch" payload)

abbrev half_or_less : Score → Score
half_or_less n = if ltb 5000 n then 5000 else n

abbrev summary_text : Gate → Json → String
summary_text g (str s) = s
summary_text g v = g.repr v

advised : String → Result Score → Result Dict
advised summary (ok score) = ok (
    passed (concat ("잔소리(advisory): " ∷ (if summary == "" then "근거 없는 L3 차단 의견" else summary) ∷ []))
      (half_or_less score))
advised summary (raised e) = raised e

advisory : Gate → Dict → Result Dict
unfolding to_float advised
advisory g payload =
    advised (strip (summary_text g (or_json (get "summary" payload) (str ""))))
      (to_float g (or_json (get "confidence_score" payload) (num 5000)))

unfoldable pub normalize_response : Gate → Dict → Result Dict
unfolding advisory
normalize_response g payload =
    if hashable (get "result_code" payload)
    then (if blocking (get "result_code" payload)
        then (if has_grounds payload then ok payload else advisory g payload)
        else ok payload)
    else fail type_error "unhashable type"

unparsed : Dict
unparsed = fallback_pass "LLM 응답 파싱 불가 — L2 PASS 결과를 유지합니다"

-- `json.loads` on a text that begins with a brace gives a dictionary or raises
loaded : Gate → Result Json → Result Dict
unfolding normalize_response unparsed
loaded g (ok (obj f)) = normalize_response g (fields f)
loaded g (ok v) = fail attribute_error "get"
loaded g (raised e) = elim e.kind [ json_decode_error ↦ ok unparsed | _ ↦ raised e ]

parse_text : Gate → Json → Result Dict
unfolding loaded unparsed
parse_text g (str s) =
    if starts (codes "{") (codes (strip s)) then loaded g (g.loads (strip s)) else ok unparsed
parse_text g v = ok unparsed

unfoldable pub parse_response : Gate → Dict → Result Dict
unfolding parse_text normalize_response
parse_response g raw =
    if has_key "result_code" raw
    then normalize_response g raw
    else parse_text g (or_json (get "text" raw) (or_json (get "reason" raw) (str "")))

-- the two handlers of `review`
failed_call : Error → Result Dict
unfolding fallback_pass
failed_call e =
    if is_os_error e.kind
    then ok (fallback_pass "LLM 호출 실패 — L2 PASS 결과를 유지합니다")
    else if is_value_error e.kind || is_key_error e.kind || is_runtime_error e.kind
    then ok (fallback_pass "LLM 응답 오류 — L2 PASS 결과를 유지합니다")
    else raised e

answered : Gate → Result Dict → Result Dict
unfolding parse_response failed_call
answered g (ok raw) = parse_response g raw
answered g (raised e) = failed_call e

unfoldable pub review : Gate → String → Result Dict
unfolding answered
review g prompt = answered g (g.generate prompt)
