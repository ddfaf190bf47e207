-- ===== src/Services/Feedback/QuickFix/Atomic.antt =====
-- What stands in the file of code actions after `publish_quick_fix`.
use nitpicker_daemon.Prelude.{String, Option, some, List, ◌≡◌, refl, ◌⊎◌, inl, inr}
use nitpicker_daemon.Python.Errors.{Result, ok, raised, Error}
use nitpicker_daemon.Python.Json.{Json}
use nitpicker_daemon.Models.{Finding, ReviewResult}
use nitpicker_daemon.Services.PatchService.{PatchProposal}
use nitpicker_daemon.Services.Feedback.QuickFix.Complete.{IsComplete, latest_review-IsComplete}
use nitpicker_daemon.Services.Feedback.QuickFix.{
  LatestReview, FeedbackFiles, latest_review, replaced, published, publish_quick_fix,
}

module _ (repr : Json → String) where
  -- either an error and the file of before, or no error and a complete record
  abbrev pub Outcome :
      ReviewResult
      → String
      → List Finding
      → Option PatchProposal
      → FeedbackFiles
      → Result (Unit {0}) × FeedbackFiles
      → Type 0
  Outcome result target_file findings patch files x =
      ((e : Error) × (x.0 ≡ raised e) × (x.1 ≡ files))
      ⊎ ((d : LatestReview) × (x.0 ≡ ok tt)
          × (x.1 ≡ record files { json = some d })
          × IsComplete repr result target_file findings patch d)

  published-Outcome :
      (result : ReviewResult) (target_file : String) (findings : List Finding)
      (patch : Option PatchProposal) (data_ : Result LatestReview)
      (write replace : Result (Unit {0})) (files : FeedbackFiles)
      → ((d : LatestReview) → data_ ≡ ok d → IsComplete repr result target_file findings patch d)
      → Outcome result target_file findings patch files (published repr data_ write replace files)
  unfolding published replaced
  published-Outcome result target_file findings patch (raised e) write replace files complete =
      inl (e, refl, refl)
  published-Outcome result target_file findings patch (ok d) (raised e) replace files complete =
      inl (e, refl, refl)
  published-Outcome result target_file findings patch (ok d) (ok _) (raised e) files complete =
      inl (e, refl, refl)
  published-Outcome result target_file findings patch (ok d) (ok _) (ok _) files complete =
      inr (d, refl, refl, complete d refl)

  -- A quick fix either raises an error and leaves the file as it was, or raises none and the file
  -- holds the whole record of the result: its fields and the name of the file, one detail for each
  -- finding in their order, and the code actions, for each finding first the one of its suggested
  -- fix and then the one that suppresses its code, where there is a fix and where the code of a
  -- Python file is not empty, and last the one of a patch whose diff is not empty.
  pub publish_quick_fix_atomic :
      (write replace : Result (Unit {0})) (result : ReviewResult) (target_file : String)
      (findings : List Finding) (patch : Option PatchProposal) (files : FeedbackFiles)
      → Outcome result target_file findings patch files
          (publish_quick_fix repr write replace result target_file findings patch files)
  unfolding publish_quick_fix
  publish_quick_fix_atomic write replace result target_file findings patch files =
      published-Outcome result target_file findings patch
        (latest_review repr result target_file findings patch) write replace files
        (latest_review-IsComplete repr result target_file findings patch)
