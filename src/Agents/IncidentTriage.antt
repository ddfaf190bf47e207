-- ===== src/Agents/IncidentTriage.antt =====
-- agents/incident_triage.py.
use nitpicker_daemon.Prelude.{List, [], ◌∷◌, ◌||◌, eqb, is_space}
use nitpicker_daemon.Python.Regex.{
  Regex, one, star, line_end, word_boundary, opt, times, at_least, seqs, alts, lit, among_chars,
  except_chars, spaces, some_spaces, some_words, anything, is_word, is_digit,
}
use nitpicker_daemon.Models.{ReviewRequest, AgentDecision, warn}
use nitpicker_daemon.Agents.Scan.{Rule, added_block, scan_rules, decide_findings, action_of}

abbrev octet : Regex
octet = times 1 2 (one is_digit)

-- `[\w./%-]`
abbrev url_char : Regex
url_char = one (λ c. is_word c || (eqb c b'.' || (eqb c b'/' || (eqb c b'%' || eqb c b'-'))))

-- `_RULES`
abbrev pub incident_rules : List Rule
incident_rules =
    record {
      code = "INC001";
      message = "예외 없이 모든 예외 캐치 — 장애 원인이 숨겨질 수 있음; 예외 종류 명시하고 로깅";
      pattern = seqs (
          lit "except"
          ∷ spaces
          ∷ lit "Exception"
          ∷ spaces
          ∷ lit ":"
          ∷ spaces
          ∷ lit "\n"
          ∷ spaces
          ∷ alts (lit "pass" ∷ lit "..." ∷ [])
          ∷ spaces
          ∷ line_end
          ∷ []);
    }
    ∷ record {
      code = "INC002";
      message = "None 반환값을 검사 없이 사용 — is None / is not None 체크 필요";
      pattern = seqs (
          lit "="
          ∷ spaces
          ∷ some_words
          ∷ lit "."
          ∷ some_words
          ∷ lit "("
          ∷ star (except_chars ")")
          ∷ lit ")"
          ∷ spaces
          ∷ lit "\n"
          ∷ spaces
          ∷ some_words
          ∷ lit "."
          ∷ some_words
          ∷ []);
    }
    ∷ record {
      code = "INC003";
      message = "'# noqa' / '# type: ignore' 로 정적 검사 억제 — 실제 문제 해결 권장";
      pattern = seqs (
          lit "#"
          ∷ spaces
          ∷ alts (lit "noqa" ∷ seqs (lit "type:" ∷ spaces ∷ lit "ignore" ∷ []) ∷ [])
          ∷ []);
    }
    ∷ record {
      code = "INC004";
      message = "logging.exception() / log.exception() 없이 예외 재발생 — 스택 트레이스 누락 위험";
      pattern = seqs (
          lit "except"
          ∷ some_spaces
          ∷ star
              (one (λ c. is_word c || (is_space c || (eqb c b',' || (eqb c b'(' || eqb c b')')))))
          ∷ lit ":"
          ∷ star anything
          ∷ lit "\n"
          ∷ spaces
          ∷ alts (lit "raise" ∷ lit "return" ∷ lit "pass" ∷ [])
          ∷ []);
    }
    ∷ record {
      code = "INC005";
      message = "NotImplemented 반환 (NotImplementedError 아님) — 비교 매직 목적으로만 사용 가능";
      pattern =
          seqs (
            word_boundary ∷ lit "return" ∷ some_spaces ∷ lit "NotImplemented" ∷ word_boundary ∷ []);
    }
    ∷ record {
      code = "INC006";
      message = "하드코딩된 IP/URL — 아이피 주소나 URL은 환경 변수/설정파일로 분리";
      pattern = seqs (
          among_chars "'\""
          ∷ alts (
              seqs (lit "http" ∷ opt (lit "s") ∷ lit "://" ∷ at_least 6 url_char ∷ [])
              ∷ seqs (octet ∷ lit "." ∷ octet ∷ lit "." ∷ octet ∷ lit "." ∷ octet ∷ [])
              ∷ [])
          ∷ among_chars "'\""
          ∷ spaces
          ∷ []);
    }
    ∷ []

-- `IncidentTriageAgent.run`
unfoldable pub run : ReviewRequest → AgentDecision
unfolding scan_rules decide_findings added_block
run request =
    decide_findings "incident_triage" warn 7500 9000 action_of
      (scan_rules incident_rules (added_block request.diff_text))
