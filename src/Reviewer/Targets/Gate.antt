-- ===== src/Reviewer/Targets/Gate.antt =====
-- What the exit code zero of the single-file reviewer promises, and what an automatic fix does.
use nitpicker_daemon.Prelude.{
  String, Bool, true, false, ◌&&◌, Option, none, some, List, [], ◌∷◌, ◌≡◌, ◌⊎◌, refl, ap, sym, ◌||◌,
  ◌∙◌, arith, Bool-cases, inl, inr, if◌then◌else◌, any, All,
}
use nitpicker_daemon.Python.Errors.{Result, ok, raised, ◌>>=◌, bind-eq-ok}
use nitpicker_daemon.Python.Json.{str, Dict, get, insert, is_str, get-insert}
use nitpicker_daemon.Reviewer.Settings.{MiniReviewerSettings}
use nitpicker_daemon.Reviewer.Patch.{Git, Files}
use nitpicker_daemon.Reviewer.Generate.{Services, targets_from_args, generate_review}
use nitpicker_daemon.Reviewer.Targets.{
  patch_applied, after_patch, auto_fix, review_one, with_first, review_paths, recorded,
  review_found, review_targets, is_failure, exit_code, main,
}

module _ {Tree : Type 0} (s : Services) (g : Git Tree) where
  -- the file has no change, or its review has the code REVIEW_PASSED
  abbrev pub IsApproved : MiniReviewerSettings → Bool → String → Type 0
  IsApproved settings staged path =
      (generate_review s path staged settings ≡ ok none)
      ⊎ ((payload : Dict) × (generate_review s path staged settings ≡ ok (some payload))
          × (is_str "REVIEW_PASSED" (get "result_code" payload) ≡ true))

  patch_applied-not_passed :
      (payload : Dict)
      → is_str "REVIEW_PASSED" (get "result_code" (patch_applied s g payload)) ≡ false
  unfolding patch_applied
  patch_applied-not_passed payload = ap (is_str "REVIEW_PASSED") (
      get-insert "summary" "result_code" _ (insert "result_code" (str "PATCH_APPLIED") payload)
      ∙ get-insert "result_code" "result_code" (str "PATCH_APPLIED") payload)

  after_patch-passed :
      (r : Result Bool × Files Tree) (payload fixed : Dict)
      → (after_patch s g r payload).0 ≡ ok fixed
      → is_str "REVIEW_PASSED" (get "result_code" fixed) ≡ true
      → is_str "REVIEW_PASSED" (get "result_code" payload) ≡ true
  unfolding after_patch
  after_patch-passed (ok true, w) payload fixed h passed =
      let same : patch_applied s g payload ≡ fixed = cc h in
      cc (
        patch_applied-not_passed payload,
        ap (λ d. is_str "REVIEW_PASSED" (get "result_code" d)) same,
      )
  after_patch-passed (ok false, w) payload fixed h passed =
      let same : payload ≡ fixed = cc h in rw same passed
  after_patch-passed (raised e, w) payload fixed h passed = cc

  auto_fix-passed :
      (settings : MiniReviewerSettings) (payload fixed : Dict) (w : Files Tree)
      → (auto_fix s g settings payload w).0 ≡ ok fixed
      → is_str "REVIEW_PASSED" (get "result_code" fixed) ≡ true
      → is_str "REVIEW_PASSED" (get "result_code" payload) ≡ true
  unfolding auto_fix
  auto_fix-passed settings payload fixed w h passed =
      elim (Bool-cases
        (is_str "PATCH_PROPOSED" (get "result_code" payload) && settings.auto_apply_patches)) [
          | inl e ↦ after_patch-passed _ payload fixed (rw e at h) passed
          | inr e ↦ let same : payload ≡ fixed = cc (rw e at h) in rw same passed
        ]

  with_first-some :
      (f : Result Dict) (rest : Result (List Dict) × Files Tree) (w : Files Tree) (ps : List Dict)
      → (with_first s g (f >>= λ payload. ok (some payload)) rest w).0 ≡ ok ps
      → (fixed : Dict) × (ps' : List Dict) × (f ≡ ok fixed) × (rest.0 ≡ ok ps') × (ps ≡ fixed ∷ ps')
  unfolding with_first
  with_first-some (ok fixed) (ok ps', w') w ps h = (fixed, ps', refl, refl, cc)
  with_first-some (ok fixed) (raised e, w') w ps h = absurd (cc)
  with_first-some (raised e) rest w ps h = absurd (cc)

  -- the loop, after the answer for its first file
  first-IsApproved :
      (settings : MiniReviewerSettings) (staged : Bool) (path : String) (paths : List String)
      (r : Result (Option Dict)) (w : Files Tree) (ps : List Dict)
      → generate_review s path staged settings ≡ r
      → ((w' : Files Tree) (ps' : List Dict)
          → (review_paths s g settings staged paths w').0 ≡ ok ps'
          → any is_failure ps' ≡ false
          → All (IsApproved settings staged) paths)
      → (with_first s g
          (review_one s g settings r w).0
          (review_paths s g settings staged paths (review_one s g settings r w).1)
          (review_one s g settings r w).1).0
        ≡ ok ps
      → any is_failure ps ≡ false
      → All (IsApproved settings staged) (path ∷ paths)
  unfolding review_one with_first
  first-IsApproved settings staged path paths (ok none) w ps found later h passed =
      (inl found, later w ps h passed)
  first-IsApproved settings staged path paths (raised e) w ps found later h passed = absurd (cc)
  first-IsApproved settings staged path paths (ok (some payload)) w ps found later h passed =
      let w' : Files Tree = (auto_fix s g settings payload w).1 in
      let (fixed, ps', made, rest, all_of_them) =
        with_first-some (auto_fix s g settings payload w).0
          (review_paths s g settings staged paths w') w' ps h in
      let failures : (is_failure fixed || any is_failure ps') ≡ false =
        ap (any is_failure) (sym all_of_them) ∙ passed in
      (
        inr (payload, found, auto_fix-passed settings payload fixed w made (ground arith)),
        later w' ps' rest (ground arith),
      )

  review_paths-IsApproved :
      (settings : MiniReviewerSettings) (staged : Bool) (paths : List String) (w : Files Tree)
      (ps : List Dict)
      → (review_paths s g settings staged paths w).0 ≡ ok ps
      → any is_failure ps ≡ false
      → All (IsApproved settings staged) paths
  unfolding review_paths
  review_paths-IsApproved settings staged [] w ps h passed = tt
  review_paths-IsApproved settings staged (path ∷ paths) w ps h passed =
      first-IsApproved settings staged path paths (generate_review s path staged settings) w ps refl
        (review_paths-IsApproved settings staged paths) h passed

  module _ (record_reviews : List Dict → Result (Unit {0})) where
    recorded-same :
        (x : Result (List Dict) × Files Tree) (ps : List Dict)
        → (recorded s g record_reviews x).0 ≡ ok ps
        → x.0 ≡ ok ps
    unfolding recorded
    recorded-same (ok [], w) ps h = h
    recorded-same (ok (q ∷ qs), w) ps h =
        let (_, _, same) = bind-eq-ok (record_reviews (q ∷ qs)) (λ _. ok (q ∷ qs)) h in same
    recorded-same (raised e, w) ps h = absurd (cc)

    not_skipped :
        (skip : Bool) (x y : Result (List Dict) × Files Tree) (ps : List Dict)
        → skip ≡ false
        → (if skip then x else y).0 ≡ ok ps
        → y.0 ≡ ok ps
    not_skipped true x y ps active h = absurd (cc)
    not_skipped false x y ps active h = h

    exit_code-zero :
        (r : Result (List Dict))
        → exit_code r ≡ 0
        → (ps : List Dict) × (r ≡ ok ps) × (any is_failure ps ≡ false)
    unfolding exit_code
    exit_code-zero (ok ps) h = (ps, refl, ground arith)
    exit_code-zero (raised e) h = absurd (omega arith)

    review_targets-IsApproved :
        (settings : MiniReviewerSettings) (staged : Bool) (paths targets : List String)
        (w : Files Tree) (ps : List Dict)
        → settings.skip ≡ false
        → targets_from_args s paths staged ≡ ok targets
        → (review_targets s g record_reviews paths staged settings w).0 ≡ ok ps
        → any is_failure ps ≡ false
        → All (IsApproved settings staged) targets
    unfolding review_targets review_found
    review_targets-IsApproved settings staged paths targets w ps active found h passed =
        review_paths-IsApproved settings staged targets w ps
          (recorded-same (review_paths s g settings staged targets w) ps (
            rw found at (
              not_skipped settings.skip (ok [], w)
                (review_found s g record_reviews settings staged (targets_from_args s paths staged)
                  w)
                ps active h)))
          passed

    -- If the single-file reviewer is not skipped, its targets were found, and it exits with zero,
    -- then every target has no change or its review has the code REVIEW_PASSED as the model gave
    -- it.
    pub main_exit_zero :
        (settings : MiniReviewerSettings) (staged : Bool) (paths targets : List String)
        (w : Files Tree)
        → settings.skip ≡ false
        → targets_from_args s paths staged ≡ ok targets
        → (main s g record_reviews (ok settings) paths staged w).0 ≡ 0
        → All (IsApproved settings staged) targets
    unfolding main
    main_exit_zero settings staged paths targets w active found h =
        let (ps, made, passed) =
          exit_code-zero (review_targets s g record_reviews paths staged settings w).0 h in
        review_targets-IsApproved settings staged paths targets w ps active found made passed
