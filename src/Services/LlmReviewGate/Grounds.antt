-- ===== src/Services/LlmReviewGate/Grounds.antt =====
-- An answer that blocks has grounds, and a provider that fails blocks nothing.
use nitpicker_daemon.Prelude.{
  String, true, false, ◌||◌, ◌≡◌, refl, arith, strip, codes, starts, Bool-cases, inl, inr,
}
use nitpicker_daemon.Python.Errors.{
  Result, ok, raised, Error, is_os_error, is_value_error, is_key_error, is_runtime_error,
}
use nitpicker_daemon.Python.Json.{Json, num, str, obj, Dict, fields, get, or_json, has_key}
use nitpicker_daemon.Models.{Score}
use nitpicker_daemon.Services.LlmReviewGate.{
  Gate, fallback_pass, blocking, hashable, has_grounds, summary_text, to_float, advised, advisory,
  normalize_response, unparsed, loaded, parse_text, parse_response, failed_call, answered, review,
}

advised_passes :
    (summary : String) (r : Result Score) (d : Dict)
    → advised summary r ≡ ok d
    → blocking (get "result_code" d) ≡ false
unfolding advised
advised_passes summary (ok score) d h = ground arith
advised_passes summary (raised e) d h = cc

advisory_passes :
    (g : Gate) (payload d : Dict)
    → advisory g payload ≡ ok d
    → blocking (get "result_code" d) ≡ true
    → has_grounds d ≡ true
unfolding advisory
advisory_passes g payload d h b =
    let passes : blocking (get "result_code" d) ≡ false =
      advised_passes (strip (summary_text g (or_json (get "summary" payload) (str ""))))
        (to_float g (or_json (get "confidence_score" payload) (num 5000))) d h in
    cc

normalize_blocks :
    (g : Gate) (payload d : Dict)
    → normalize_response g payload ≡ ok d
    → blocking (get "result_code" d) ≡ true
    → has_grounds d ≡ true
unfolding normalize_response
normalize_blocks g payload d = elim (Bool-cases (hashable (get "result_code" payload))) [
  | inl e ↦ elim (Bool-cases (blocking (get "result_code" payload))) [
    | inl c ↦ elim (Bool-cases (has_grounds payload)) [
      | inl f ↦ rw (e, c, f) λ h b. cc
      | inr f ↦ rw (e, c, f) (advisory_passes g payload d)
    ]
    | inr c ↦ rw (e, c) λ h b. cc
  ]
  | inr e ↦ rw (e) λ h b. cc
]

unparsed_passes :
    (d : Dict) → ok unparsed ≡ ok d → blocking (get "result_code" d) ≡ true → has_grounds d ≡ true
unfolding unparsed fallback_pass
unparsed_passes d h b = ground (arith)

loaded_blocks :
    (g : Gate) (r : Result Json) (d : Dict)
    → loaded g r ≡ ok d
    → blocking (get "result_code" d) ≡ true
    → has_grounds d ≡ true
unfolding loaded
loaded_blocks g (ok (obj f)) d h b = normalize_blocks g (fields f) d h b
loaded_blocks g (ok v) d h b = cc
loaded_blocks g (raised e) d h b = ground (arith, unparsed_passes d)

parsed_blocks :
    (g : Gate) (v : Json) (d : Dict)
    → parse_text g v ≡ ok d
    → blocking (get "result_code" d) ≡ true
    → has_grounds d ≡ true
unfolding parse_text
parsed_blocks g (str s) d = elim (Bool-cases (starts (codes "{") (codes (strip s)))) [
  | inl e ↦ rw (e) (loaded_blocks g (g.loads (strip s)) d)
  | inr e ↦ rw (e) (unparsed_passes d)
]
parsed_blocks g v d = unparsed_passes d

failed_blocks :
    (e : Error) (d : Dict)
    → failed_call e ≡ ok d
    → blocking (get "result_code" d) ≡ true
    → has_grounds d ≡ true
unfolding failed_call fallback_pass
failed_blocks e d h b = ground (arith)

answered_blocks :
    (g : Gate) (r : Result Dict) (d : Dict)
    → answered g r ≡ ok d
    → blocking (get "result_code" d) ≡ true
    → has_grounds d ≡ true
unfolding answered parse_response
answered_blocks g (ok raw) d = elim (Bool-cases (has_key "result_code" raw)) [
  | inl e ↦ rw (e) (normalize_blocks g raw d)
  | inr e ↦
      rw (e) (parsed_blocks g (or_json (get "text" raw) (or_json (get "reason" raw) (str ""))) d)
]
answered_blocks g (raised e) d = failed_blocks e d

-- If the L3 review returns an answer that rejects or proposes a patch, then this answer has
-- details in a list that is not empty or a suggested patch that is not empty.
pub review_blocks_with_grounds :
    (g : Gate) (prompt : String) (d : Dict)
    → review g prompt ≡ ok d
    → blocking (get "result_code" d) ≡ true
    → has_grounds d ≡ true
unfolding review
review_blocks_with_grounds g prompt d h b = answered_blocks g (g.generate prompt) d h b

-- If the provider raises an operating system, value, key or runtime error, the L3 review returns
-- an answer with the code REVIEW_PASSED and the score one half.
pub review_unavailable_passes :
    (g : Gate) (prompt : String) (e : Error)
    → g.generate prompt ≡ raised e
    → (is_os_error e.kind
        || is_value_error e.kind
        || is_key_error e.kind
        || is_runtime_error e.kind)
      ≡ true
    → (d : Dict) × (review g prompt ≡ ok d)
      × (get "result_code" d ≡ str "REVIEW_PASSED")
      × (get "confidence_score" d ≡ num 5000)
unfolding review failed_call
review_unavailable_passes g prompt e h k = elim (Bool-cases (is_os_error e.kind)) [
  | inl o ↦ rw (h, o) (_, refl, refl, refl)
  | inr o ↦
      let rest : is_value_error e.kind || is_key_error e.kind || is_runtime_error e.kind ≡ true =
        ground arith in
      rw (h, o, rest) (_, refl, refl, refl)
]
