-- ===== src/Agents/Architecture.antt =====
-- agents/architecture.py. The lines that are scanned have no line break in them.
pub mod Nesting
use Prim.Native.Char.{code}
use nitpicker_daemon.Prelude.{
  ℕ, ◌+◌, ◌*◌, ◌/◌, String, Bool, true, false, not, ◌&&◌, ◌||◌, List, [], ◌∷◌, ◌++◌, ◌==◌,
  if◌then◌else◌, eqb, leb, ltb, codes, occurs, any, filled, among, keep, splitlines, starts_with,
  strip_left,
}
use nitpicker_daemon.Python.Json.{str}
use nitpicker_daemon.Python.Regex.{
  Regex, one, seq, alt, star, line_start, line_end, word_boundary, not_ahead, opt, plus, seqs, alts,
  lit, among_chars, except_chars, spaces, dot, matches_start, is_digit,
}
use nitpicker_daemon.Models.{ReviewRequest, AgentDecision, Finding, warn}
use nitpicker_daemon.Agents.Scan.{
  Rule, added_block, tail_text, is_added, scan_rules, decide_findings, action_of,
}

abbrev is_upper : ℕ → Bool
is_upper c = leb b'A' c && leb c b'Z'

abbrev is_lower : ℕ → Bool
is_lower c = leb b'a' c && leb c b'z'

-- `_RULES`
abbrev pub architecture_rules : List Rule
architecture_rules =
    record {
      code = "ARCH003";
      message = "예외 무시 패턴 (except: pass / except Exception: pass) — Fail-Fast 규칙 위반";
      pattern = seqs (
          lit "except"
          ∷ spaces
          ∷ opt (
              alts (
                lit "Exception"
                ∷ lit "BaseException"
                ∷ seqs (lit "(" ∷ star dot ∷ lit ")" ∷ [])
                ∷ []))
          ∷ spaces
          ∷ lit ":"
          ∷ spaces
          ∷ lit "\n"
          ∷ spaces
          ∷ lit "pass"
          ∷ []);
    }
    ∷ record {
      code = "ARCH004";
      message = "빈 except 절 — 최소한 logging 또는 re-raise 필요";
      pattern =
          seqs (lit "except" ∷ spaces ∷ lit ":" ∷ spaces ∷ lit "\n" ∷ spaces ∷ lit "pass" ∷ []);
    }
    ∷ record {
      code = "ARCH005";
      message = "print()를 프로덕션 코드에서 사용 — logging 모듈 사용 권장";
      pattern = seqs (word_boundary ∷ lit "print" ∷ spaces ∷ lit "(" ∷ []);
    }
    ∷ record {
      code = "ARCH006";
      message = "전역 가변 상태 — 모듈 수준 list/dict/set 리터럴 할당은 동시성 위험";
      pattern = seqs (
          line_start
          ∷ not_ahead (seq spaces (lit "#"))
          ∷ spaces
          ∷ one (λ c. is_upper c || eqb c b'_')
          ∷ star (one (λ c. is_upper c || (is_digit c || eqb c b'_')))
          ∷ spaces
          ∷ lit ":"
          ∷ spaces
          ∷ alts (lit "list" ∷ lit "dict" ∷ lit "set" ∷ [])
          ∷ spaces
          ∷ lit "="
          ∷ spaces
          ∷ among_chars "[{"
          ∷ []);
    }
    ∷ record {
      code = "ARCH007";
      message = "__all__ 없이 공개 API 노출 — 외부 가져오기 범위를 명시하는 __all__ 정의 필요";
      pattern =
          alt
            (seqs (
              line_start
              ∷ lit "def "
              ∷ one is_lower
              ∷ plus (one (λ c. is_lower c || eqb c b'_'))
              ∷ lit "("
              ∷ []))
            (seqs (line_start ∷ lit "class " ∷ one is_upper ∷ []));
    }
    ∷ []

-- `_DIFF_HUNK_RE`, matched at the start of a line
abbrev hunk_header : Regex
hunk_header = seqs (line_start ∷ lit "@@" ∷ star dot ∷ lit "@@" ∷ [])

-- `_LOOP_HEADER_RE`
abbrev loop_header : Regex
loop_header = seqs (
    line_start
    ∷ alts (lit "for" ∷ lit "while" ∷ [])
    ∷ word_boundary
    ∷ star (except_chars "\r\n")
    ∷ lit ":"
    ∷ spaces
    ∷ opt (seq (lit "#") (star dot))
    ∷ line_end
    ∷ [])

unfoldable pub is_loop_header : String → Bool
is_loop_header stripped = matches_start loop_header stripped

-- `_IO_PRIMITIVES`
abbrev io_primitives : List String
io_primitives = "open(" ∷ "requests." ∷ "httpx." ∷ "aiohttp." ∷ "sqlite3." ∷ "cursor.execute" ∷ []

-- the column after the blanks and tabs that a line begins with, from a column on
unfoldable pub indent_from : ℕ → String → ℕ
indent_from column String.[] = column
indent_from column (String.◌∷◌ c s) =
    let after_tab = indent_from ((column / 8 + 1) * 8) s in
    let after_blank = indent_from (column + 1) s in
    if eqb (code c) b'\t' then after_tab else if eqb (code c) b' ' then after_blank else column

-- `_indent_width`
unfoldable pub indent_width : String → ℕ
unfolding indent_from
indent_width line = indent_from 0 line

-- `_LoopRuleScanner`: the innermost loop comes first
pub record Scanner : Type 0 where
  pub loop_indents : List ℕ
  pub found_codes : List String

-- the `while` loop of `scan_line`
unfoldable pub leave_loops : ℕ → List ℕ → List ℕ
leave_loops indent [] = []
leave_loops indent (top ∷ outer) =
    let rest = leave_loops indent outer in if leb indent top then rest else top ∷ outer

abbrev pub found : String → List String → List String
found c cs = if among c cs then cs else c ∷ cs

unfoldable pub has_io : String → Bool
has_io line = any (λ primitive. occurs (codes primitive) (codes line)) io_primitives

unfoldable pub is_import : String → Bool
is_import stripped = starts_with "import " stripped || starts_with "import\t" stripped

abbrev pub add_if : Bool → String → List String → List String
add_if true c cs = found c cs
add_if false c cs = cs

-- the codes that a line adds inside a loop
unfoldable pub codes_in_loop : String → String → List String → List String
unfolding has_io is_import
codes_in_loop line stripped cs =
    add_if (is_import stripped) "ARCH002" (add_if (has_io line) "ARCH001" cs)

-- a blank line or a comment
unfoldable pub is_skipped : String → Bool
is_skipped line = strip_left line == "" || starts_with "#" (strip_left line)

unfoldable pub scan_line : String → Scanner → Scanner
unfolding indent_width leave_loops codes_in_loop is_loop_header is_skipped
scan_line line scanner =
    let stripped : String = strip_left line in
    let loops : List ℕ = leave_loops (indent_width line) scanner.loop_indents in
    if is_skipped line then scanner else record {
      loop_indents = if is_loop_header stripped then indent_width line ∷ loops else loops;
      found_codes =
          if filled loops
          then codes_in_loop line stripped scanner.found_codes
          else scanner.found_codes;
    }

unfoldable pub scan_lines : List String → Scanner → Scanner
unfolding scan_line
scan_lines [] scanner = scanner
scan_lines (line ∷ lines) scanner = scan_lines lines (scan_line line scanner)

abbrev pub new_scanner : Scanner
new_scanner = record { loop_indents = []; found_codes = [] }

-- `_iter_added_hunks`: the hunks from a line on, with the lines of the hunk that was begun
unfoldable pub hunks_from : List String → Bool → List String → List (List String)
hunks_from current saw [] = if saw || filled current then current ∷ [] else []
hunks_from current saw (line ∷ lines) =
    let at_header = hunks_from [] true lines in
    let same =
      hunks_from (if is_added line then current ++ tail_text line ∷ [] else current) saw lines in
    if matches_start hunk_header line
    then (if saw then current ∷ at_header else at_header)
    else same

unfoldable pub added_hunks : String → List (List String)
unfolding hunks_from
added_hunks diff_text = hunks_from [] false (splitlines diff_text)

-- the codes that some hunk shows
unfoldable pub shows : String → List (List String) → Bool
unfolding scan_lines
shows c hunks = any (λ hunk. among c (scan_lines hunk new_scanner).found_codes) hunks

-- `_LOOP_RULE_MESSAGES`
loop_finding : String → String → List (List String) → List Finding
unfolding shows
loop_finding c message hunks =
    if shows c hunks then (("code", str c) ∷ ("message", str message) ∷ []) ∷ [] else []

-- `text.count("\n")`
abbrev newlines : String → ℕ
newlines String.[] = 0
newlines (String.◌∷◌ c s) = (if eqb (code c) b'\n' then 1 else 0) + newlines s

-- the rules that apply to a text: ARCH007 wants 20 line breaks in it
abbrev applies : String → Rule → Bool
applies added rule = not (rule.code == "ARCH007" && ltb (newlines added) 20)

unfoldable pub scan_diff : String → List Finding
unfolding added_block added_hunks loop_finding scan_rules
scan_diff diff_text =
    let hunks : List (List String) = added_hunks diff_text in
    let added : String = added_block diff_text in
    loop_finding "ARCH001" "루프 내부 I/O — 반복문 안에서 파일/네트워크 I/O 또는 DB 쿼리 금지 (Hot-path 규칙)" hunks
    ++ (loop_finding "ARCH002" "루프 내부 lazy import — import 문은 모듈 최상단에 위치해야 함" hunks
        ++ scan_rules (keep (applies added) architecture_rules) added)

-- `ArchitectureAgent.run`
unfoldable pub run : ReviewRequest → AgentDecision
unfolding scan_diff decide_findings
run request = decide_findings "architecture" warn 7500 8500 action_of (scan_diff request.diff_text)
