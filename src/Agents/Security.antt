-- ===== src/Agents/Security.antt =====
-- agents/security.py.
pub mod Blocks
use nitpicker_daemon.Prelude.{List, [], ◌∷◌}
use nitpicker_daemon.Python.Regex.{
  Regex, seq, star, line_start, word_boundary, opt, at_least, seqs, alts, lit, lit_any_case,
  among_chars, except_chars, spaces, some_spaces, anything,
}
use nitpicker_daemon.Models.{ReviewRequest, AgentDecision, reject}
use nitpicker_daemon.Agents.Scan.{Rule, added_block, scan_rules, decide_findings, action_of}

abbrev quotes : Regex
quotes = among_chars "'\""

abbrev pub assert_pattern : Regex
assert_pattern = seqs (line_start ∷ lit "+" ∷ spaces ∷ lit "assert" ∷ some_spaces ∷ [])

-- `_RULES`
abbrev pub security_rules : List Rule
security_rules =
    record {
      code = "SEC001";
      message = "하드코딩된 비밀 키 의심 패턴 (secret/password/token= 할당)";
      pattern = seqs (
          alts (
            lit_any_case "secret"
            ∷ lit_any_case "password"
            ∷ lit_any_case "passwd"
            ∷ lit_any_case "api_key"
            ∷ lit_any_case "token"
            ∷ lit_any_case "auth_key"
            ∷ [])
          ∷ spaces
          ∷ lit "="
          ∷ spaces
          ∷ quotes
          ∷ at_least 4 (except_chars "'\"")
          ∷ []);
    }
    ∷ record {
      code = "SEC002";
      message = "shell=True subprocess 호출은 명령어 인젝션 위험";
      pattern = seqs (
          lit "subprocess."
          ∷ alts (lit "run" ∷ lit "Popen" ∷ lit "call" ∷ lit "check_output" ∷ [])
          ∷ lit "("
          ∷ star (except_chars ")")
          ∷ lit "shell"
          ∷ spaces
          ∷ lit "="
          ∷ spaces
          ∷ lit "True"
          ∷ []);
    }
    ∷ record {
      code = "SEC003";
      message = "eval() / exec() 사용은 임의 코드 실행 위험";
      pattern = seqs (word_boundary ∷ alts (lit "eval" ∷ lit "exec" ∷ []) ∷ spaces ∷ lit "(" ∷ []);
    }
    ∷ record {
      code = "SEC004";
      message = "assert 문은 -O 플래그로 제거되므로 보안 검사에 사용 금지";
      pattern = assert_pattern;
    }
    ∷ record {
      code = "SEC005";
      message = "pickle.loads / pickle.load 는 신뢰할 수 없는 데이터에 사용 금지";
      pattern = seqs (lit "pickle.load" ∷ opt (lit "s") ∷ spaces ∷ lit "(" ∷ []);
    }
    ∷ record {
      code = "SEC006";
      message = "yaml.load() 에 Loader 없으면 임의 코드 실행 가능 — yaml.safe_load() 사용";
      pattern = seqs (lit "yaml.load" ∷ spaces ∷ lit "(" ∷ star (except_chars ")") ∷ lit ")" ∷ []);
    }
    ∷ record {
      code = "SEC007";
      message = "random 모듈은 암호학적으로 안전하지 않음 — secrets 모듈 사용";
      pattern = seqs (
          word_boundary
          ∷ lit "random."
          ∷ alts (lit "random" ∷ lit "randint" ∷ lit "choice" ∷ lit "shuffle" ∷ [])
          ∷ spaces
          ∷ lit "("
          ∷ []);
    }
    ∷ record {
      code = "SEC008";
      message = "MD5 / SHA1 은 보안 목적으로 사용 금지";
      pattern = seqs (
          lit_any_case "hashlib."
          ∷ alts (lit_any_case "md5" ∷ lit_any_case "sha1" ∷ [])
          ∷ spaces
          ∷ lit "("
          ∷ []);
    }
    ∷ record {
      code = "SEC009";
      message = "SQL 쿼리 문자열 포매팅 — 파라미터 바인딩 사용";
      pattern = seqs (
          alts (lit_any_case "execute" ∷ lit_any_case "cursor.execute" ∷ [])
          ∷ spaces
          ∷ lit "("
          ∷ star (except_chars ")")
          ∷ alts (lit "%" ∷ lit_any_case "format" ∷ seq (lit_any_case "f") quotes ∷ [])
          ∷ star anything
          ∷ alts (
              lit_any_case "SELECT"
              ∷ lit_any_case "INSERT"
              ∷ lit_any_case "UPDATE"
              ∷ lit_any_case "DELETE"
              ∷ [])
          ∷ []);
    }
    ∷ []

-- `SecurityAgent.run`: the last three characters of a code, after `SEC`, are the code itself
unfoldable pub run : ReviewRequest → AgentDecision
unfolding scan_rules decide_findings added_block
run request =
    decide_findings "security" reject 9500 9000 action_of
      (scan_rules security_rules (added_block request.diff_text))
