-- ===== src/Services/Feedback/QuickFix/Complete.antt =====
-- The record that a quick fix writes: its fields, details and code actions.
use nitpicker_daemon.Prelude.{
  take_text, ◌&&◌, ◌==◌, ◌++◌, Bool-cases, none, concat, true, false, String, Option, some, List,
  [], ◌∷◌, ◌≡◌, refl, inl, inr,
}
use nitpicker_daemon.Python.Errors.{ok, bind-eq-ok}
use nitpicker_daemon.Python.Json.{num, str, or_json, text_of, get, truthy, Json}
use nitpicker_daemon.Models.{Finding, ReviewResult}
use nitpicker_daemon.Services.PatchService.{PatchProposal}
use nitpicker_daemon.Services.Feedback.QuickFix.{
  parse_hunk_ranges, Detail, CodeAction, LatestReview, review_of, latest_review, edit_of,
  of_findings, detail_of, line_of, code_of, first_80, ends_with, suppress_of, patch_actions, edit,
  suppress, apply_patch,
}

ok-injective : {A : Type 0} {x y : A} → ok x ≡ ok y → x ≡ y
ok-injective h = cc

module _ (repr : Json → String) where
  -- the code action for a suggested fix, if there is one
  pub data IsEdit (finding : Finding) : List CodeAction → Type 0 where
    no_fix : truthy (get "suggested_fix" finding) ≡ false → IsEdit finding []
    a_fix :
        (shown : String)
        → truthy (get "suggested_fix" finding) ≡ true
        → first_80 repr (get "suggested_fix" finding) ≡ ok shown
        → IsEdit finding (
            edit
              (concat
                ("[" ∷ text_of repr (or_json (get "code" finding) (str "")) ∷ "] " ∷ shown ∷ []))
              (or_json (get "line_number" finding) (num 10000))
              (get "suggested_fix" finding)
            ∷ [])

  -- the code action that suppresses a code, in a Python file
  pub data IsSuppression (target_file : String) (finding : Finding) : List CodeAction → Type 0 where
    none_offered :
        (ends_with ".py" target_file && truthy (or_json (get "code" finding) (str ""))) ≡ false
        → IsSuppression target_file finding []
    offered :
        (code : String)
        → code ≡ text_of repr (or_json (get "code" finding) (str ""))
        → (ends_with ".py" target_file && truthy (or_json (get "code" finding) (str ""))) ≡ true
        → IsSuppression target_file finding (
            suppress
              (concat ("Suppress " ∷ code ∷ " (# noqa: " ∷ code ∷ ")" ∷ []))
              (or_json (get "line_number" finding) (num 10000))
              (or_json (get "code" finding) (str ""))
            ∷ [])

  -- the code action of a patch, unless its diff is empty
  pub data IsPatchAction : Option PatchProposal → List CodeAction → Type 0 where
    no_patch : IsPatchAction none []
    empty_diff :
        (patch : PatchProposal) → (patch.unified_diff == "") ≡ true → IsPatchAction (some patch) []
    a_patch :
        (patch : PatchProposal)
        → (patch.unified_diff == "") ≡ false
        → IsPatchAction (some patch) (
            apply_patch
              (concat ("Apply verified patch (" ∷ take_text 8 patch.patch_hash ∷ ")" ∷ []))
              patch.patch_hash
              patch.unified_diff
              (parse_hunk_ranges patch.unified_diff)
            ∷ [])

  -- the detail of a finding, with what stands for a value that is missing or empty
  pub record IsDetail (finding : Finding) (detail : Detail) : Type 0 where
    pub its_line : detail.line_number ≡ or_json (get "line_number" finding) (num 10000)
    pub its_severity : detail.severity ≡ or_json (get "severity" finding) (str "warning")
    pub its_issue :
        detail.issue
        ≡ or_json (get "message" finding) (or_json (get "issue" finding) (str "review finding"))
    pub its_code : detail.code ≡ or_json (get "code" finding) (str "")
    pub its_agent : detail.agent ≡ or_json (get "agent_name" finding) (str "")

  -- the details and the code actions of findings, in their order
  pub data Shows (target_file : String)
      : List Finding → List Detail → List CodeAction → Type 0 where
    no_findings : Shows target_file [] [] []
    one_finding :
        {finding : Finding} {detail : Detail} {findings : List Finding} {details : List Detail}
        {edits suppressions actions : List CodeAction}
        → IsDetail finding detail
        → IsEdit finding edits
        → IsSuppression target_file finding suppressions
        → Shows target_file findings details actions
        → Shows target_file
            (finding ∷ findings)
            (detail ∷ details)
            (edits ++ (suppressions ++ actions))

  -- the whole record of a review
  pub record IsComplete (result : ReviewResult) (file : String) (findings : List Finding)
      (patch : Option PatchProposal) (d : LatestReview) : Type 0 where
    pub same_request : d.request_id ≡ result.request_id
    pub same_file : d.target_file ≡ file
    pub same_state : d.state ≡ result.state
    pub same_status : d.status ≡ result.status
    pub same_code : d.result_code ≡ or_json result.result_code (str "")
    pub same_summary : d.summary ≡ result.summary
    pub shown_actions : List CodeAction
    pub last_actions : List CodeAction
    pub all_actions : d.code_actions ≡ shown_actions ++ last_actions
    pub shown : Shows file findings d.details shown_actions
    pub last : IsPatchAction patch last_actions

  detail_of-IsDetail : (finding : Finding) → IsDetail finding (detail_of finding)
  unfolding detail_of line_of code_of
  detail_of-IsDetail finding = record {
    its_line = refl;
    its_severity = refl;
    its_issue = refl;
    its_code = refl;
    its_agent = refl;
  }

  edit_of-IsEdit :
      (finding : Finding) (edits : List CodeAction)
      → edit_of repr finding ≡ ok edits
      → IsEdit finding edits
  unfolding edit_of line_of code_of
  edit_of-IsEdit finding edits h = elim (Bool-cases (truthy (get "suggested_fix" finding))) [
    | inr e ↦
        let same : ok [] ≡ ok edits = rw (← h, e) refl in
        let empty : [] ≡ edits = ok-injective same in rw (← empty) (no_fix e)
    | inl e ↦
        let (shown, went, made) =
          bind-eq-ok (first_80 repr (get "suggested_fix" finding)) _ (rw e at h) in
        let same = ok-injective made in rw (← same) (a_fix shown e went)
  ]

  suppress_of-IsSuppression :
      (target_file : String) (finding : Finding)
      → IsSuppression target_file finding (suppress_of repr target_file finding)
  unfolding suppress_of line_of code_of
  suppress_of-IsSuppression target_file finding =
      elim (Bool-cases
        (ends_with ".py" target_file && truthy (or_json (get "code" finding) (str "")))) [
          | inl e ↦ rw e (offered _ refl e)
          | inr e ↦ rw e (none_offered e)
        ]

  patch_actions-IsPatchAction :
      (patch : Option PatchProposal) → IsPatchAction patch (patch_actions repr patch)
  unfolding patch_actions
  patch_actions-IsPatchAction none = no_patch
  patch_actions-IsPatchAction (some patch) = elim (Bool-cases (patch.unified_diff == "")) [
    | inl e ↦ rw e (empty_diff patch e)
    | inr e ↦ rw e (a_patch patch e)
  ]

  of_findings-Shows :
      (target_file : String) (findings : List Finding) (found : List Detail × List CodeAction)
      → of_findings repr target_file findings ≡ ok found
      → Shows target_file findings found.0 found.1
  unfolding of_findings
  of_findings-Shows target_file [] found h = let same = ok-injective h in rw (← same) no_findings
  of_findings-Shows target_file (f ∷ findings) found h =
      let (edits, edited, h') = bind-eq-ok (edit_of repr f) _ h in
      let (rest, went, made) = bind-eq-ok (of_findings repr target_file findings) _ h' in
      let same = ok-injective made in
      rw (← same) (
        one_finding (detail_of-IsDetail f) (edit_of-IsEdit f edits edited)
          (suppress_of-IsSuppression target_file f)
          (of_findings-Shows target_file findings rest went))

  review_of-IsComplete :
      (result : ReviewResult) (target_file : String) (findings : List Finding)
      (patch : Option PatchProposal) (found : List Detail × List CodeAction)
      → Shows target_file findings found.0 found.1
      → IsComplete result target_file findings patch (review_of repr result target_file patch found)
  unfolding review_of
  review_of-IsComplete result target_file findings patch (details, actions) shows = record {
    same_request = refl;
    same_file = refl;
    same_state = refl;
    same_status = refl;
    same_code = refl;
    same_summary = refl;
    shown_actions = actions;
    last_actions = patch_actions repr patch;
    all_actions = refl;
    shown = shows;
    last = patch_actions-IsPatchAction patch;
  }

  pub latest_review-IsComplete :
      (result : ReviewResult) (target_file : String) (findings : List Finding)
      (patch : Option PatchProposal) (d : LatestReview)
      → latest_review repr result target_file findings patch ≡ ok d
      → IsComplete result target_file findings patch d
  unfolding latest_review
  latest_review-IsComplete result target_file findings patch d h =
      let (found, went, made) = bind-eq-ok (of_findings repr target_file findings) _ h in
      let same = ok-injective made in
      rw (← same) (
        review_of-IsComplete result target_file findings patch found
          (of_findings-Shows target_file findings found went))
