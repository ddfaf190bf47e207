-- ===== src/Services/Feedback/QuickFix.antt =====
-- services/feedback_svc.py, `FileFeedbackService`: what it writes for the editor, and when. The clock,
-- the text of a score and the operations on files are arguments.
pub mod Atomic
pub mod Complete
use nitpicker_daemon.Prelude.{
  String, Bool, ◌&&◌, ◌||◌, Option, none, some, List, [], ◌∷◌, ◌++◌, ◌==◌, if◌then◌else◌, concat,
  take_text,
}
use nitpicker_daemon.Python.Errors.{Result, ok, raised, fail, type_error, ◌>>=◌}
use nitpicker_daemon.Python.Json.{Json, num, str, arr, take_items, get, or_json, truthy, text_of}
use nitpicker_daemon.Models.{
  ReviewState, queued, precheck_failed, context_ready, analyzing, consensus_reached, patch_proposed,
  verified, delivered, ResultStatus, Finding, ReviewResult, Score,
}
use nitpicker_daemon.Services.PatchService.{PatchProposal}
use nitpicker_daemon.Services.Feedback.{Hunk, parse_hunk_ranges}

pub record Detail : Type 0 where
  pub line_number : Json
  pub severity : Json
  pub issue : Json
  pub code : Json
  pub agent : Json

pub data CodeAction : Type 0 where
  -- `quickfix`: title, line and the text of the edit
  edit : String → Json → Json → CodeAction
  -- `quickfix.suppress`: title, line and code
  suppress : String → Json → Json → CodeAction
  -- `quickfix.patch`: title, hash, diff and its hunks
  apply_patch : String → String → String → List Hunk → CodeAction

pub record LatestReview : Type 0 where
  pub request_id : String
  pub target_file : String
  pub state : ReviewState
  pub status : ResultStatus
  pub result_code : Json
  pub summary : Json
  pub details : List Detail
  pub code_actions : List CodeAction

pub record FeedbackFiles : Type 0 where
  pub text : Option String
  pub json : Option LatestReview

abbrev ends_with : String → String → Bool
ends_with suffix String.[] = suffix == ""
ends_with suffix (String.◌∷◌ c s) = String.◌∷◌ c s == suffix || ends_with suffix s

-- `value[:80]`, as a text
abbrev first_80 : (Json → String) → Json → Result String
first_80 repr (str s) = ok (take_text 80 s)
first_80 repr (arr items) = ok (repr (arr (take_items 80 items)))
first_80 repr _ = fail type_error "object is not subscriptable"

line_of : Finding → Json
line_of finding = or_json (get "line_number" finding) (num 10000)

code_of : Finding → Json
code_of finding = or_json (get "code" finding) (str "")

unfoldable pub detail_of : Finding → Detail
unfolding line_of code_of
detail_of finding = record {
  line_number = line_of finding;
  severity = or_json (get "severity" finding) (str "warning");
  issue = or_json (get "message" finding) (or_json (get "issue" finding) (str "review finding"));
  code = code_of finding;
  agent = or_json (get "agent_name" finding) (str "");
}

-- `_STATUS_KR`
abbrev status_kr : ResultStatus → String
status_kr ResultStatus.pass = "통과"
status_kr ResultStatus.rejected = "거부"
status_kr ResultStatus.degraded = "저하"
status_kr ResultStatus.failed = "실패"
status_kr ResultStatus.ignored = "무시"
status_kr ResultStatus.patch = "patch"

-- the value of a state
abbrev state_value : ReviewState → String
state_value queued = "queued"
state_value precheck_failed = "precheck_failed"
state_value context_ready = "context_ready"
state_value analyzing = "analyzing"
state_value consensus_reached = "consensus_reached"
state_value patch_proposed = "patch_proposed"
state_value verified = "verified"
state_value delivered = "delivered"
state_value ReviewState.degraded = "degraded"
state_value ReviewState.failed = "failed"

module _ (repr : Json → String) where
  edit_of : Finding → Result (List CodeAction)
  unfolding line_of code_of
  edit_of finding =
      let fix : Json = get "suggested_fix" finding in
      if truthy fix
      then (first_80 repr fix >>= λ shown. ok (
          edit (concat ("[" ∷ text_of repr (code_of finding) ∷ "] " ∷ shown ∷ [])) (line_of finding)
            fix
          ∷ []))
      else ok []

  suppress_of : String → Finding → List CodeAction
  unfolding line_of code_of
  suppress_of target_file finding =
      let code : String = text_of repr (code_of finding) in
      if ends_with ".py" target_file && truthy (code_of finding)
      then (suppress (concat ("Suppress " ∷ code ∷ " (# noqa: " ∷ code ∷ ")" ∷ []))
            (line_of finding) (code_of finding)
          ∷ [])
      else []

  -- the loop over the findings: its details and its code actions
  unfoldable pub of_findings : String → List Finding → Result (List Detail × List CodeAction)
  unfolding detail_of edit_of suppress_of
  of_findings target_file [] = ok ([], [])
  of_findings target_file (finding ∷ findings) = do
    edits ← edit_of finding
    (details, actions) ← of_findings target_file findings
    ok (detail_of finding ∷ details, edits ++ (suppress_of target_file finding ++ actions))

  patch_actions : Option PatchProposal → List CodeAction
  unfolding parse_hunk_ranges
  patch_actions none = []
  patch_actions (some patch) =
      if patch.unified_diff == ""
      then []
      else (apply_patch
            (concat ("Apply verified patch (" ∷ take_text 8 patch.patch_hash ∷ ")" ∷ []))
            patch.patch_hash patch.unified_diff (parse_hunk_ranges patch.unified_diff)
          ∷ [])

  unfoldable pub review_of :
      ReviewResult → String → Option PatchProposal → List Detail × List CodeAction → LatestReview
  unfolding patch_actions
  review_of result target_file patch (details, actions) = record {
    request_id = result.request_id;
    target_file = target_file;
    state = result.state;
    status = result.status;
    result_code = or_json result.result_code (str "");
    summary = result.summary;
    details = details;
    code_actions = actions ++ patch_actions patch;
  }

  -- the data of a quick fix
  unfoldable pub latest_review :
      ReviewResult → String → List Finding → Option PatchProposal → Result LatestReview
  unfolding of_findings review_of
  latest_review result target_file findings patch = do
    found ← of_findings target_file findings
    ok (review_of result target_file patch found)

  -- the write of the temporary file, and the replacement of the file by it
  replaced :
      Result (Unit {0})
      → Result (Unit {0})
      → LatestReview
      → FeedbackFiles
      → Result (Unit {0}) × FeedbackFiles
  replaced (ok _) (ok _) data_ files = (ok tt, record files { json = some data_ })
  replaced (ok _) (raised e) data_ files = (raised e, files)
  replaced (raised e) replace data_ files = (raised e, files)

  published :
      Result LatestReview
      → Result (Unit {0})
      → Result (Unit {0})
      → FeedbackFiles
      → Result (Unit {0}) × FeedbackFiles
  unfolding replaced
  published (ok data_) write replace files = replaced write replace data_ files
  published (raised e) write replace files = (raised e, files)

  -- `publish_quick_fix`, where `write` and `replace` are what these operations return
  unfoldable pub publish_quick_fix :
      Result (Unit {0})
      → Result (Unit {0})
      → ReviewResult
      → String
      → List Finding
      → Option PatchProposal
      → FeedbackFiles
      → Result (Unit {0}) × FeedbackFiles
  unfolding published latest_review
  publish_quick_fix write replace result target_file findings patch files =
      published (latest_review result target_file findings patch) write replace files

  -- `publish_diagnostics`, with the time and the text of the score
  unfoldable pub publish_diagnostics :
      String → (Score → String) → ReviewResult → String → FeedbackFiles → FeedbackFiles
  publish_diagnostics kst_now score_text result target_file files = record files {
    text = some (
        concat (
          "리뷰 시각: "
          ∷ kst_now
          ∷ "\n대상 파일: "
          ∷ target_file
          ∷ "\n리뷰어: "
          ∷ text_of repr (or_json result.reviewer (str ""))
          ∷ "\n결과 코드: "
          ∷ text_of repr (or_json result.result_code (str ""))
          ∷ "\n요약: "
          ∷ text_of repr result.summary
          ∷ "\n신뢰도: "
          ∷ score_text result.confidence_score
          ∷ "\n상태: "
          ∷ state_value result.state
          ∷ "\n판정: "
          ∷ status_kr result.status
          ∷ "\n"
          ∷ []));
  }

-- `clear_feedback`
unfoldable pub clear_feedback : FeedbackFiles → FeedbackFiles
clear_feedback files = record { text = none; json = none }
