-- ===== src/Agents/ContextAgent.antt =====
-- agents/context_agent.py.
use nitpicker_daemon.Prelude.{
  ℕ, String, Bool, true, false, not, ◌&&◌, ◌||◌, Option, none, some, List, [], ◌∷◌, ◌++◌, ◌==◌,
  if◌then◌else◌, leb, ltb, join, keep, strip, length, codes, starts, among, concat, decimal, filled,
}
use nitpicker_daemon.Python.Json.{str}
use nitpicker_daemon.Python.Regex.{
  line_end, dot, plus, Regex, one, line_start, not_ahead, seqs, alts, lit, lit_any_case, spaces,
  is_word, search, matches_start,
}
use nitpicker_daemon.Models.{ReviewRequest, AgentDecision, Finding, warn}
use nitpicker_daemon.Agents.Scan.{text_lines, tail_text, is_added, decide_findings, action_of}

-- `_CHANGED_FILE_RE`, on one line
abbrev changed_file : Regex
changed_file = seqs (lit "diff --git a/" ∷ plus dot ∷ lit " b/" ∷ plus dot ∷ line_end ∷ [])

-- `_NEW_PUBLIC_DEF_RE`
abbrev new_public_def : Regex
new_public_def = seqs (
    line_start
    ∷ lit "+"
    ∷ not_ahead (lit "+")
    ∷ spaces
    ∷ alts (lit "def " ∷ lit "class " ∷ [])
    ∷ one (λ c. (leb b'A' c && leb c b'Z') || (leb b'a' c && leb c b'z'))
    ∷ [])

-- `_TEST_PATTERN_RE`
abbrev test_pattern : Regex
test_pattern = alts (
    lit_any_case "def test_"
    ∷ lit_any_case "class Test"
    ∷ lit_any_case "pytest"
    ∷ lit_any_case "unittest"
    ∷ [])

abbrev markers : List String
markers = "FIXME" ∷ "HACK" ∷ "TODO" ∷ "XXX" ∷ []

abbrev word_next : List ℕ → Bool
word_next [] = false
word_next (c ∷ cs) = is_word c

abbrev word_before : Option ℕ → Bool
word_before none = false
word_before (some c) = is_word c

abbrev skip_codes : List ℕ → List ℕ → List ℕ
skip_codes [] cs = cs
skip_codes (p ∷ ps) [] = []
skip_codes (p ∷ ps) (c ∷ cs) = skip_codes ps cs

-- a marker at the start of a text, as a word of its own
abbrev marker_in : List String → List ℕ → Option String
marker_in [] cs = none
marker_in (m ∷ ms) cs =
    if starts (codes m) cs && not (word_next (skip_codes (codes m) cs))
    then some m
    else marker_in ms cs

-- `_TODO_RE` takes as much of a line as it can, so its group is the last marker of the line.
unfoldable pub last_marker : Option ℕ → List ℕ → Option String
last_marker before [] = none
last_marker before (c ∷ cs) = elim (last_marker (some c) cs) [
  | some m ↦ some m
  | none ↦ if word_before before then none else marker_in markers (c ∷ cs)
]

-- `_TODO_RE.findall(diff)`
unfoldable pub todo_markers : List String → List String
unfolding last_marker
todo_markers [] = []
todo_markers (line ∷ lines) = elim (last_marker none (codes (tail_text line))) [
  | some m ↦ m ∷ todo_markers lines
  | none ↦ todo_markers lines
]

abbrev finding : String → String → Finding
finding c message = ("code", str c) ∷ ("message", str message) ∷ []

abbrev when : Bool → Finding → List Finding
when true f = f ∷ []
when false f = []

abbrev pub added_line_count : String → ℕ
added_line_count diff = length (keep is_added (text_lines diff))

abbrev pub changed_files : String → ℕ
changed_files diff = length (keep (matches_start changed_file) (text_lines diff))

-- the five checks, in their order
unfoldable pub context_findings : String → List Finding
unfolding todo_markers
context_findings diff =
    let added : ℕ = added_line_count diff in
    let files : ℕ = changed_files diff in
    let todos : List String = todo_markers (keep is_added (text_lines diff)) in
    when (ltb 400 added) (
      finding "CTX001"
        (concat ("추가된 줄 수가 " ∷ decimal added ∷ "줄로 기준(400)을 초과. 더 작은 단위 PR로 분할 권장" ∷ [])))
    ++ (when (ltb 8 files) (
          finding "CTX002" (
            concat ("변경 파일 수 " ∷ decimal files ∷ "개 — 단일 PR의 책임 범위 초과(8개 기준). 관심사별 PR 분리 권장" ∷ [])))
        ++ (when (search new_public_def diff && (not (search test_pattern diff) && leb 2 files))
              (finding "CTX003" "새로운 함수/클래스 추가 감지 — 대응하는 테스트 코드가 보이지 않음")
            ++ (when (filled todos) (
                  finding "CTX004" (
                    concat (
                      "미완성 마커 포함: "
                      ∷ join ", " (keep (λ m. among m todos) markers)
                      ∷ " — 릴리스 전 해결 또는 이슈 등록 필요"
                      ∷ [])))
                ++ when (strip diff == "") (finding "CTX005" "diff 내용이 비어 있음 — 리뷰 대상이 없습니다"))))

-- `ContextAgent.run`
unfoldable pub run : ReviewRequest → AgentDecision
unfolding context_findings decide_findings
run request =
    decide_findings "context" warn 8000 9000 action_of (context_findings request.diff_text)
