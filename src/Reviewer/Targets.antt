-- ===== src/Reviewer/Targets.antt =====
-- mini_reviewer.py: `review_targets`, and the exit code of bin/mini_nitpicker.py. What the log and
-- the files of the latest review do is an argument.
pub mod Gate
use nitpicker_daemon.Prelude.{
  ℕ, String, Bool, true, false, not, ◌&&◌, Option, none, some, List, [], ◌∷◌, if◌then◌else◌, concat,
  any,
}
use nitpicker_daemon.Python.Errors.{Result, ok, raised, ◌>>=◌, attribute_error}
use nitpicker_daemon.Python.Json.{Json, str, Dict, get, get_or, or_json, insert, is_str, text_of}
use nitpicker_daemon.Reviewer.Settings.{MiniReviewerSettings}
use nitpicker_daemon.Reviewer.Patch.{Git, Files, apply_patch_safely}
use nitpicker_daemon.Reviewer.Generate.{Services, targets_from_args, generate_review}

-- `payload.get("result_code") != "REVIEW_PASSED"`
abbrev pub is_failure : Dict → Bool
is_failure payload = not (is_str "REVIEW_PASSED" (get "result_code" payload))

exit_code : Result (List Dict) → ℕ
exit_code (ok payloads) = if any is_failure payloads then 1 else 0
exit_code (raised e) = 2

module _ {Tree : Type 0} (s : Services) (g : Git Tree) where
  -- `_apply_patch_safely(payload.get("suggested_patch") or "")`
  apply_suggested : Json → Files Tree → Result Bool × Files Tree
  apply_suggested (str patch_text) w = apply_patch_safely g patch_text w
  apply_suggested _ w =
      (raised (record { kind = attribute_error; message = "object has no attribute 'strip'" }), w)

  patch_applied : Dict → Dict
  patch_applied payload =
      insert "summary"
        (str (concat ("[Auto-Fixed] " ∷ text_of s.repr (get_or "summary" (str "") payload) ∷ [])))
        (insert "result_code" (str "PATCH_APPLIED") payload)

  after_patch : Result Bool × Files Tree → Dict → Result Dict × Files Tree
  unfolding patch_applied
  after_patch (ok true, w) payload = (ok (patch_applied payload), w)
  after_patch (ok false, w) payload = (ok payload, w)
  after_patch (raised e, w) payload = (raised e, w)

  unfoldable pub auto_fix : MiniReviewerSettings → Dict → Files Tree → Result Dict × Files Tree
  unfolding apply_suggested after_patch
  auto_fix settings payload w =
      if is_str "PATCH_PROPOSED" (get "result_code" payload) && settings.auto_apply_patches
      then after_patch (apply_suggested (or_json (get "suggested_patch" payload) (str "")) w)
          payload
      else (ok payload, w)

  -- the review of one file, if there is one
  review_one :
      MiniReviewerSettings → Result (Option Dict) → Files Tree → Result (Option Dict) × Files Tree
  review_one settings (ok none) w = (ok none, w)
  review_one settings (ok (some payload)) w =
      let (fixed, w') = auto_fix settings payload w in (fixed >>= λ payload. ok (some payload), w')
  review_one settings (raised e) w = (raised e, w)

  -- the reviews of the files that are left, after the one of the first
  with_first :
      Result (Option Dict)
      → Result (List Dict) × Files Tree
      → Files Tree
      → Result (List Dict) × Files Tree
  with_first (ok none) rest w = rest
  with_first (ok (some payload)) (payloads, w') w = (payloads >>= λ ps. ok (payload ∷ ps), w')
  with_first (raised e) rest w = (raised e, w)

  unfoldable pub review_paths :
      MiniReviewerSettings → Bool → List String → Files Tree → Result (List Dict) × Files Tree
  unfolding review_one with_first
  review_paths settings staged [] w = (ok [], w)
  review_paths settings staged (path ∷ paths) w =
      let (first, w') = review_one settings (generate_review s path staged settings) w in
      with_first first (review_paths settings staged paths w') w'

  module _ (record_reviews : List Dict → Result (Unit {0})) where
    -- `append_review_logs` and `write_latest_review_files`, which do nothing for no payload
    recorded : Result (List Dict) × Files Tree → Result (List Dict) × Files Tree
    recorded (ok [], w) = (ok [], w)
    recorded (ok (p ∷ ps), w) = (record_reviews (p ∷ ps) >>= λ _. ok (p ∷ ps), w)
    recorded (raised e, w) = (raised e, w)

    review_found :
        MiniReviewerSettings
        → Bool
        → Result (List String)
        → Files Tree
        → Result (List Dict) × Files Tree
    unfolding recorded
    review_found settings staged (ok targets) w = recorded (review_paths settings staged targets w)
    review_found settings staged (raised e) w = (raised e, w)

    unfoldable pub review_targets :
        List String → Bool → MiniReviewerSettings → Files Tree → Result (List Dict) × Files Tree
    unfolding review_found
    review_targets paths staged settings w =
        if settings.skip
        then (ok [], w)
        else review_found settings staged (targets_from_args s paths staged) w

    -- `main`, on the settings that were loaded and the arguments of the command line
    unfoldable pub main :
        Result MiniReviewerSettings → List String → Bool → Files Tree → ℕ × Files Tree
    unfolding exit_code
    main (ok settings) paths staged w =
        let (payloads, w') = review_targets paths staged settings w in (exit_code payloads, w')
    main (raised e) paths staged w = (2, w)
