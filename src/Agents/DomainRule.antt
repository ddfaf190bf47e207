-- ===== src/Agents/DomainRule.antt =====
-- agents/domain_rule.py.
use nitpicker_daemon.Prelude.{
  ℕ, String, Bool, not, ◌&&◌, ◌||◌, List, [], ◌∷◌, ◌++◌, ◌==◌, if◌then◌else◌, eqb, leb, join, keep,
  strip, starts_with,
}
use nitpicker_daemon.Python.Json.{get_or}
use nitpicker_daemon.Python.Regex.{
  Regex, one, seq, alt, star, text_start, not_ahead, not_behind, opt, plus, times, at_least, seqs,
  alts, lit, among_chars, except_chars, spaces, some_spaces, some_words, is_word, is_digit,
  matches_start,
}
use nitpicker_daemon.Models.{ReviewRequest, AgentDecision, warn}
use nitpicker_daemon.Agents.Scan.{Rule, added_lines, scan_rules, decide_findings, action_of}

abbrev quotes : Regex
quotes = among_chars "'\""

abbrev word_or_dot : ℕ → Bool
word_or_dot c = is_word c || eqb c b'.'

abbrev digit_from : ℕ → Regex
digit_from low = one (λ c. leb low c && leb c b'9')

-- `_PROFILE_RULES`
abbrev pub general_rules : List Rule
general_rules =
    record {
      code = "DOM001";
      message = "magic number 사용 — 상수에 이름 부여 권장";
      pattern = seqs (
          not_behind word_or_dot
          ∷ alt (seq (digit_from b'2') (at_least 2 (one is_digit)))
              (seq (digit_from b'1') (at_least 3 (one is_digit)))
          ∷ not_ahead (one word_or_dot)
          ∷ []);
    }
    ∷ record {
      code = "DOM002";
      message = "bare string 예외 raise — Exception 서브클래스 사용 권장";
      pattern = seqs (
          lit "raise"
          ∷ some_spaces
          ∷ alts (lit "Exception" ∷ lit "RuntimeError" ∷ lit "ValueError" ∷ [])
          ∷ spaces
          ∷ lit "("
          ∷ quotes
          ∷ times 0 80 (except_chars "'\"")
          ∷ quotes
          ∷ []);
    }
    ∷ []

abbrev pub api_rules : List Rule
api_rules =
    record {
      code = "DOM101";
      message = "HTTP 엔드포인트에 인증 미적용 의심 — 인증 데코레이터/미들웨어 확인";
      pattern = seqs (
          lit "@"
          ∷ alts (lit "app" ∷ lit "router" ∷ [])
          ∷ lit "."
          ∷ alts (lit "get" ∷ lit "post" ∷ lit "put" ∷ lit "delete" ∷ lit "patch" ∷ [])
          ∷ lit "("
          ∷ star (except_chars ")")
          ∷ lit ")"
          ∷ spaces
          ∷ lit "\ndef "
          ∷ []);
    }
    ∷ record {
      code = "DOM102";
      message = "응답에 직접 dict 반환 — Pydantic 응답 모델 또는 JSONResponse 사용 권장";
      pattern = seqs (lit "return" ∷ some_spaces ∷ lit "{" ∷ quotes ∷ some_words ∷ quotes ∷ []);
    }
    ∷ []

abbrev pub data_rules : List Rule
data_rules =
    record {
      code = "DOM201";
      message = "pandas DataFrame에 iterrows() 사용 — vectorized 연산 또는 apply() 검토";
      pattern = seqs (lit ".iterrows" ∷ spaces ∷ lit "(" ∷ []);
    }
    ∷ record {
      code = "DOM202";
      message = "학습 데이터에 random_state 미설정 — 재현성 보장을 위해 고정값 설정";
      pattern = seqs (
          alts (lit "train_test_split" ∷ lit "RandomForest" ∷ lit "GridSearchCV" ∷ [])
          ∷ lit "("
          ∷ star (except_chars ")")
          ∷ lit ")"
          ∷ []);
    }
    ∷ []

abbrev pub cli_rules : List Rule
cli_rules =
    record {
      code = "DOM301";
      message = "sys.exit() 직접 호출 — raise SystemExit(code) 사용 권장";
      pattern = seqs (lit "sys.exit" ∷ spaces ∷ lit "(" ∷ []);
    }
    ∷ []

abbrev profile_rules : List (String × List Rule)
profile_rules =
    ("general", general_rules) ∷ ("api", api_rules) ∷ ("data", data_rules) ∷ ("cli", cli_rules) ∷ []

-- `_rules_for_profile`
unfoldable pub rules_for_profile : String → List Rule
rules_for_profile profile =
    get_or "general" [] profile_rules
    ++ (if profile == "general" then [] else get_or profile [] profile_rules)

-- `_CONSTANT_ASSIGN_RE`
abbrev constant_assign : Regex
constant_assign = seqs (
    text_start
    ∷ one (λ c. (leb b'A' c && leb c b'Z') || eqb c b'_')
    ∷ star (one (λ c. (leb b'A' c && leb c b'Z') || (is_digit c || eqb c b'_')))
    ∷ spaces
    ∷ opt (seq (lit ":") (plus (except_chars "=")))
    ∷ lit "="
    ∷ spaces
    ∷ [])

-- a blank line, a comment or a docstring, and an assignment to a constant are passed over
unfoldable pub is_reviewable : String → Bool
is_reviewable line =
    let stripped : String = strip line in
    not (
      stripped == ""
      || (starts_with "#" stripped
          || (starts_with "\"\"\"" stripped
              || (starts_with "'''" stripped || matches_start constant_assign stripped))))

-- `_reviewable_added_lines`
unfoldable pub reviewable_added_lines : String → String
unfolding is_reviewable added_lines
reviewable_added_lines diff_text = join "\n" (keep is_reviewable (added_lines diff_text))

-- `request.project_profile or "general"`
abbrev pub profile_of : ReviewRequest → String
profile_of request = if request.project_profile == "" then "general" else request.project_profile

-- `DomainRuleAgent.run`
unfoldable pub run : ReviewRequest → AgentDecision
unfolding rules_for_profile scan_rules decide_findings reviewable_added_lines
run request =
    decide_findings "domain_rule" warn 7000 8500 action_of (
      scan_rules (rules_for_profile (profile_of request))
        (reviewable_added_lines request.diff_text))
