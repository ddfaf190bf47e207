-- ===== src/Context/History.antt =====
-- context/providers/history_provider.py, `HistoryProvider`. The log is given by what reading it
-- returns; `fixed` is the format `.1f`, and `repr` the text of a value that is no text.
use mathlib.Core.List.{reverse}
use nitpicker_daemon.Prelude.{
  ℕ, suc, ◌*◌, String, Bool, false, not, ◌&&◌, ◌||◌, Option, none, some, List, [], ◌∷◌, ◌++◌, ◌==◌,
  if◌then◌else◌, leb, ltb, codes, lower_text, occurs, splitlines, among, concat, decimal, take_text,
  text_length, length,
}
use nitpicker_daemon.Python.Errors.{Result, ok, raised, is_os_error, ◌>>=◌, fail, type_error}
use nitpicker_daemon.Python.Json.{
  Json, num, str, arr, obj, Items, nil, cons, take_items, Dict, fields, get_or, get, truthy,
  text_of,
}
use nitpicker_daemon.Models.{ReviewRequest}
use nitpicker_daemon.Context.{ContextFragment, Provider}
use nitpicker_daemon.Context.Log.{read_line, as_record, first_matches}
use nitpicker_daemon.Context.Service.{normalized}

-- `_MAX_SCAN_LINES`
abbrev max_scan_lines : ℕ
max_scan_lines = 2000

-- `lines[-_MAX_SCAN_LINES:]`, where there are more
unfoldable pub last_lines : ℕ → List String → List String
last_lines n [] = []
last_lines n (line ∷ lines) =
    let rest = last_lines n lines in if leb (length (line ∷ lines)) n then line ∷ lines else rest

abbrev result_status : Json → Bool
result_status (str s) = among s ("pass" ∷ "rejected" ∷ "degraded" ∷ "failed" ∷ [])
result_status _ = false

module _ (loads : String → Result Json) (repr : Json → String) (fixed : Json → Result String) where
  -- `str(value).lower().replace("\\", "/")`
  abbrev folded : Json → String
  folded v = normalized (lower_text (text_of repr v))

  in_payload : String → Json → Bool
  in_payload target_lower (obj fs) =
      let target : String = folded (get_or "target_file" (str "") (fields fs)) in
      not (target == "") && occurs (codes target_lower) (codes target)
  in_payload target_lower _ = false

  -- `_matches_target`, for a target that is not empty
  unfoldable pub matches_target : String → Dict → Bool
  unfolding in_payload
  matches_target target_lower entry =
      occurs (codes target_lower) (codes (folded (get_or "request_id" (str "") entry)))
      || (occurs (codes target_lower) (codes (folded (get_or "summary" (str "") entry)))
          || in_payload target_lower (get "payload" entry))

  past_record : String → Option Json → Result (Option Dict)
  unfolding matches_target
  past_record target_lower none = ok none
  past_record target_lower (some v) = if target_lower == "" then ok none else (do
    entry ← as_record v
    ok (
        if matches_target target_lower entry && result_status (get_or "status" (str "") entry)
        then some entry
        else none))

  -- the record of a line, if it is a review of the target with a result
  unfoldable pub past_review : String → String → Result (Option Dict)
  unfolding past_record
  past_review target_lower line = read_line loads line >>= λ v. past_record target_lower v

  search_in : String → ℕ → Result String → Result (List Dict)
  unfolding last_lines
  search_in target limit (ok text) =
      first_matches (past_review (normalized (lower_text target))) limit
        (reverse (last_lines max_scan_lines (splitlines text)))
  search_in target limit (raised e) = if is_os_error e.kind then ok [] else raised e

  -- `record.get("timestamp", "")[:19]`, as a text
  abbrev stamp : Json → Result String
  stamp (str s) = ok (take_text 19 s)
  stamp (arr items) = ok (repr (arr (take_items 19 items)))
  stamp _ = fail type_error "object is not subscriptable"

  abbrev size : Items → ℕ
  size nil = 0
  size (cons v items) = suc (size items)

  -- the summary, cut after 200 characters
  abbrev cut_summary : Json → Result String
  cut_summary (str s) =
      ok (if ltb 200 (text_length s) then concat (take_text 200 s ∷ "..." ∷ []) else s)
  cut_summary (arr items) =
      if ltb 200 (size items)
      then fail type_error "can only concatenate list (not \"str\") to list"
      else ok (repr (arr items))
  cut_summary (obj fs) =
      if ltb 200 (length (fields fs))
      then fail type_error "unhashable type: 'slice'"
      else ok (repr (obj fs))
  cut_summary _ = fail type_error "object has no len()"

  -- the two lines for one record, which is the `i`-th
  unfoldable pub format_entry : ℕ → Dict → Result (List String)
  format_entry i entry = do
    timestamp ← stamp (get_or "timestamp" (str "") entry)
    confidence ← fixed (get_or "confidence_score" (num 0) entry)
    truncated ← cut_summary (get_or "summary" (str "(no summary)") entry)
    let code = get_or "result_code" (str "") entry
    ok (
        concat (
          "  ["
          ∷ decimal i
          ∷ "] "
          ∷ timestamp
          ∷ " | "
          ∷ text_of repr (get_or "status" (str "?") entry)
          ∷ (if truthy code then concat (" (" ∷ text_of repr code ∷ ")" ∷ []) else "")
          ∷ " | confidence="
          ∷ confidence
          ∷ [])
        ∷ concat ("      " ∷ truncated ∷ [])
        ∷ [])

  unfoldable pub format_from : ℕ → List Dict → Result (List String)
  unfolding format_entry
  format_from i [] = ok []
  format_from i (entry ∷ entries) = do
    lines ← format_entry i entry
    rest ← format_from (suc i) entries
    ok (lines ++ rest)

  -- `_format_entries`
  unfoldable pub format_entries : List Dict → String → Result (List String)
  unfolding format_from
  format_entries found target = do
    lines ← format_from 1 found
    ok (
        concat ("Past reviews for " ∷ target ∷ " (" ∷ decimal (length found) ∷ " found):" ∷ [])
        ∷ lines)

  fragment_of : String → List Dict → Result ContextFragment
  unfolding format_entries
  fragment_of target [] = ok (record {
    tier = "tier4";
    entries = [];
    metadata = ("source", str "history") ∷ ("target_file", str target) ∷ ("matches", num 0) ∷ [];
  })
  fragment_of target (entry ∷ found) = do
    entries ← format_entries (entry ∷ found) target
    ok (record {
      tier = "tier4";
      entries = entries;
      metadata =
          ("source", str "history")
          ∷ ("target_file", str target)
          ∷ ("matches", num (length (entry ∷ found) * 10000))
          ∷ [];
    })

  history_of : ReviewRequest → ℕ → Option (Result String) → Result ContextFragment
  unfolding search_in fragment_of
  history_of request limit none = ok (record {
    tier = "tier4";
    entries = [];
    metadata = ("source", str "history") ∷ ("reason", str "no_log") ∷ [];
  })
  history_of request limit (some file) = do
    found ← search_in request.target_file limit file
    fragment_of request.target_file found

  -- `HistoryProvider.collect`, where `read` gives the log, if there is one
  unfoldable pub history_provider : {W : Type 0} → ℕ → (W → Option (Result String)) → Provider W
  unfolding history_of
  history_provider limit read request w = (history_of request limit (read w), w)
