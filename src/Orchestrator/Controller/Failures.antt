-- ===== src/Orchestrator/Controller/Failures.antt =====
-- orchestrator/controller.py: `_classify_failure`, `_build_user_failure_summary`,
-- `_handle_duplicate_request`, and the handler of `run_once`.
pub mod Classified
use nitpicker_daemon.Prelude.{
  String, not, Option, none, some, [], ◌∷◌, ◌==◌, ◌&&◌, concat, codes, lower, occurs, if◌then◌else◌,
}
use nitpicker_daemon.Python.Errors.{Error, ErrorClass, timeout_error, connection_error}
use nitpicker_daemon.Python.Exec.{Exec, pure, gets, ◌>>=◌, ◌>>◌}
use nitpicker_daemon.Python.Json.{str}
use nitpicker_daemon.Models.{
  one, ReviewRequest, ReviewState, ReviewResult, ResultStatus, ignored, delivered,
}
use nitpicker_daemon.State.Machine.{same}
use nitpicker_daemon.Services.ArtifactPublisher.{publish_diagnostics, log_result, log_analytics}
use nitpicker_daemon.Orchestrator.Controller.{
  World, ReviewOrchestrator, published, set_state, row, record_failure_transition_best_effort,
  mark_terminal_safe, build_result, is_terminal_state_value, is_terminal,
}

pub record Failure : Type 0 where
  pub state : ReviewState
  pub status : ResultStatus
  pub result_code : String

abbrev pub degraded_with : String → Failure
degraded_with code = record {
  state = ReviewState.degraded;
  status = ResultStatus.degraded;
  result_code = code;
}

abbrev pub system_failed : Failure
system_failed = record {
  state = ReviewState.failed;
  status = ResultStatus.failed;
  result_code = "SYSTEM_FAILED";
}

abbrev pub by_message : String → Failure
by_message message =
    if occurs (codes "rate limit") (lower (codes message))
    then degraded_with "LLM_RATE_LIMITED"
    else if occurs (codes "timeout") (lower (codes message))
    then degraded_with "LLM_TIMEOUT"
    else if occurs (codes "connection") (lower (codes message))
    then degraded_with "LLM_CONNECTION_ERROR"
    else system_failed

unfoldable pub by_class : ErrorClass → String → Failure
by_class timeout_error message = degraded_with "LLM_TIMEOUT"
by_class connection_error message = degraded_with "LLM_CONNECTION_ERROR"
by_class _ message = by_message message

unfoldable pub classify_failure : Error → Failure
unfolding by_class
classify_failure e = by_class e.kind e.message

unfoldable pub build_user_failure_summary : String → String
build_user_failure_summary result_code =
    if result_code == "LLM_TIMEOUT"
    then "[TIMEOUT] Gemini API 응답이 설정된 제한 시간을 초과했습니다. 네트워크를 확인하거나 로컬 모델로 전환하세요."
    else if result_code == "LLM_CONNECTION_ERROR"
    then "[CONNECTION] Gemini API 연결에 실패했습니다. 네트워크 또는 API 설정을 확인하세요."
    else if result_code == "LLM_RATE_LIMITED"
    then "[RATE LIMIT] Gemini API 호출 한도에 도달했습니다. 잠시 후 다시 시도하거나 로컬 모델로 전환하세요."
    else "[SYSTEM] 리뷰 파이프라인 내부 오류가 발생했습니다. latest_review.json 또는 review_history.jsonl 내용을 관리자에게 전달해 주세요."

-- an f-string with `existing_state`, which may be `None`
abbrev shown : Option String → String
shown none = "None"
shown (some s) = s

-- `existing_state or "unknown"`
abbrev or_unknown : Option String → String
or_unknown none = "unknown"
or_unknown (some s) = if s == "" then "unknown" else s

unfoldable pub duplicate_summary : Option String → String
unfolding is_terminal_state_value
duplicate_summary existing_state =
    if is_terminal_state_value existing_state
    then concat (
        "동일한 코드 변경 내역에 대한 리뷰가 이미 완료되었습니다. 새로운 변경 사항을 저장해 주세요. (기존 상태: "
        ∷ shown existing_state
        ∷ ")"
        ∷ [])
    else concat (
        "동일한 코드 변경 내역에 대한 리뷰가 이미 진행 중입니다. 잠시 후 결과를 확인해 주세요. (기존 상태: "
        ∷ or_unknown existing_state
        ∷ ")"
        ∷ [])

unfoldable pub duplicate_result : ReviewRequest → Option String → ReviewResult
duplicate_result request existing_state =
    build_result request delivered ignored (str (duplicate_summary existing_state)) one
      (str "DUPLICATE_REQUEST_IGNORED")

abbrev pub failure_result : ReviewRequest → Failure → ReviewResult
failure_result request f =
    build_result request f.state f.status (str (build_user_failure_summary f.result_code)) 0
      (str f.result_code)

module _ (s : ReviewOrchestrator) (request : ReviewRequest) where
  unfoldable pub handle_duplicate_request : Option String → Exec World ReviewResult
  handle_duplicate_request existing_state = do
    published (
        log_analytics s.publisher
          (record (row request.request_id "duplicate_request" "ignored" "") {
            result_code = str "DUPLICATE_REQUEST_IGNORED";
            confidence = one;
          }))
    published (
        publish_diagnostics s.publisher (duplicate_result request existing_state)
          request.target_file)
    published (log_result s.publisher (duplicate_result request existing_state))
    pure (duplicate_result request existing_state)

  -- what the handler writes to the store: nothing for a request that has no row
  unfoldable pub settle : Error → Failure → World → Exec World (Unit {0})
  settle e f w =
      if w.request_persisted
      then (do
        if not (is_terminal w.current_state) && not (same w.current_state f.state)
            then (do
              record_failure_transition_best_effort request.request_id w.current_state f.state
                  (concat ("pipeline exception: " ∷ e.message ∷ [])) (str f.result_code)
              set_state f.state)
            else pure tt
        mark_terminal_safe request.request_id f.state
            (concat ("pipeline exception: " ∷ e.message ∷ [])) (str f.result_code))
      else pure tt

  unfoldable pub report_failure : Failure → Exec World ReviewResult
  report_failure f = do
    published (publish_diagnostics s.publisher (failure_result request f) request.target_file)
    published (log_result s.publisher (failure_result request f))
    pure (failure_result request f)

  -- `except Exception as error`
  unfoldable pub handle_failure : Error → Exec World ReviewResult
  handle_failure e = do
    w ← gets (λ w. w)
    settle e (classify_failure e) w
    report_failure (classify_failure e)
