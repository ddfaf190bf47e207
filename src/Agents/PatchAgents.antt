-- ===== src/Agents/PatchAgents.antt =====
-- agents/patch_agent.py and agents/verification_agent.py. The run of pytest is an argument.
use nitpicker_daemon.Prelude.{String, List, [], ◌∷◌, if◌then◌else◌, eqb, concat, strip, take_text}
use nitpicker_daemon.Python.Errors.{
  Result, ok, raised, Error, ErrorClass, timeout_expired, type_error, fail, ◌>>=◌,
}
use nitpicker_daemon.Python.Json.{Json, str, get, get_or, truthy}
use nitpicker_daemon.Python.Regex.{some_spaces, Regex, seq, line_start, alts, lit, search}
use nitpicker_daemon.Models.{
  ContextBundle, AgentDecision, AgentStatus, warn, reject, Score, Finding,
}
use nitpicker_daemon.Services.PatchService.{Process}

-- `_DIFF_HEADER_RE`
abbrev diff_header : Regex
diff_header =
    seq line_start
      (alts (seq (lit "---") some_spaces ∷ seq (lit "+++") some_spaces ∷ lit "@@" ∷ []))

abbrev finding : String → String → List Finding
finding c message = (("code", str c) ∷ ("message", str message) ∷ []) ∷ []

abbrev decision : String → AgentStatus → Score → List Finding → List String → AgentDecision
decision name status score findings actions = record {
  agent_name = name;
  status = status;
  confidence_score = score;
  findings = findings;
  suggested_actions = actions;
}

judge_patch : String → AgentDecision
judge_patch proposal =
    if search diff_header proposal
    then decision "patch" AgentStatus.pass 9000 (finding "PATCH_OK" "패치 제쥜 유효성 확인 완료") []
    else decision "patch" warn 5000 (finding "PATCH001" "패치 제쥜이 유효한 unified diff 형식이 아님")
        ("PATCH001: 패치를 unified diff(--- +++ @@) 형식으로 숙정하세요" ∷ [])

proposed : Json → Result AgentDecision
unfolding judge_patch
proposed (str proposal) = ok (judge_patch proposal)
proposed _ = fail type_error "expected string or bytes-like object"

-- `PatchAgent.run`
unfoldable pub run_patch_agent : ContextBundle → Result AgentDecision
unfolding proposed
run_patch_agent context =
    let proposal : Json = get "patch_proposal" context.metadata in
    if truthy proposal
    then proposed proposal
    else ok (decision "patch" AgentStatus.pass 10000 [] [])

judge_run : Process → AgentDecision
judge_run p =
    let output : String = strip (concat (p.stdout ∷ p.stderr ∷ [])) in
    if eqb p.returncode 0
    then decision "verification" AgentStatus.pass 9500
        (finding "VER_OK" (concat ("pytest 통과: " ∷ take_text 200 output ∷ []))) []
    else decision "verification" reject 9500
        (finding "VER002" (concat ("pytest 실패: " ∷ take_text 500 output ∷ [])))
        ("VER002: 패치 적용 후 테스트가 실패함 — 패치 재검토 필요" ∷ [])

run_failed : Error → ErrorClass → Result AgentDecision
run_failed e timeout_expired = ok (
    decision "verification" warn 3000 (finding "VER001" "pytest 실행 시간 초과")
      ("VER001: 테스트 실행 시간을 줄이거나 슬로테스트 분리 권장" ∷ []))
run_failed e _ = raised e

judged : Result Process → Result AgentDecision
unfolding judge_run run_failed
judged (ok p) = ok (judge_run p)
judged (raised e) = run_failed e e.kind

-- `Path(value)`
abbrev as_path : Json → Result String
as_path (str s) = ok s
as_path _ = fail type_error "expected str, bytes or os.PathLike object"

-- `VerificationAgent.run`; `default_root` is the root of the project, and `pytest` runs it in a folder
unfoldable pub run_verification_agent :
    String → (String → Result Process) → ContextBundle → Result AgentDecision
unfolding judged
run_verification_agent default_root pytest context =
    if truthy (get "run_verification" context.metadata)
    then (as_path (get_or "project_root" (str default_root) context.metadata) >>= λ root.
        judged (pytest root))
    else ok (decision "verification" AgentStatus.pass 10000 [] [])
