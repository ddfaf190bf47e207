-- ===== src/Agents/Performance.antt =====
-- agents/performance.py.
use nitpicker_daemon.Prelude.{List, [], ◌∷◌}
use nitpicker_daemon.Python.Regex.{
  Regex, star, word_boundary, opt, plus, seqs, alts, lit, among_chars, except_chars, spaces,
  some_spaces, words, some_words, dot, anything,
}
use nitpicker_daemon.Models.{ReviewRequest, AgentDecision, warn}
use nitpicker_daemon.Agents.Scan.{Rule, added_block, scan_rules, decide_findings, action_of}

-- `(for|while)\s+.+:[\s\S]*?\n\s+`: the head of a loop, and the start of a later line
abbrev in_loop : Regex → Regex
in_loop body = seqs (
    alts (lit "for" ∷ lit "while" ∷ [])
    ∷ some_spaces
    ∷ plus dot
    ∷ lit ":"
    ∷ star anything
    ∷ lit "\n"
    ∷ some_spaces
    ∷ body
    ∷ [])

abbrev no_bracket : Regex
no_bracket = star (except_chars "[]")

-- `_RULES`
abbrev pub performance_rules : List Rule
performance_rules =
    record {
      code = "PERF001";
      message = "루프 내 문자열 += 연산 — 리스트 누적 후 ''.join() 사용 권장 (O(n²) 불변 str 복사)";
      pattern =
          in_loop (seqs (some_words ∷ spaces ∷ lit "+=" ∷ spaces ∷ opt (among_chars "'\"") ∷ []));
    }
    ∷ record {
      code = "PERF002";
      message = "중첩 루프 내 리스트 탐색 — in list[] 는 O(n); set/dict로 교체 권장";
      pattern = in_loop (
          seqs (
            alts (lit "for" ∷ lit "while" ∷ [])
            ∷ some_spaces
            ∷ plus dot
            ∷ lit ":"
            ∷ star anything
            ∷ word_boundary
            ∷ lit "in"
            ∷ some_spaces
            ∷ words
            ∷ among_chars "Ll"
            ∷ lit "ist"
            ∷ []));
    }
    ∷ record {
      code = "PERF003";
      message = "copy.deepcopy() 과도한 사용 — 슬라이스/dataclasses.replace 등 경량 복사 고려";
      pattern = seqs (word_boundary ∷ lit "copy.deepcopy" ∷ spaces ∷ lit "(" ∷ []);
    }
    ∷ record {
      code = "PERF004";
      message = "글로벌 정규식을 루프 내부에서 re.compile — 루프 밖에서 한 번만 컴파일";
      pattern = in_loop (seqs (star dot ∷ lit "re.compile" ∷ spaces ∷ lit "(" ∷ []));
    }
    ∷ record {
      code = "PERF005";
      message = "sorted() / sort() 를 루프 안에서 반복 호출 — 루프 밖으로 이동 권장";
      pattern =
          in_loop
            (seqs (star dot ∷ word_boundary ∷ lit "sorte" ∷ opt (lit "d") ∷ spaces ∷ lit "(" ∷ []));
    }
    ∷ record {
      code = "PERF006";
      message = "루프 내 len() 반복 호출 — 변수에 캐시 후 사용";
      pattern = in_loop (
          seqs
            (star dot ∷ word_boundary ∷ lit "len" ∷ spaces ∷ lit "(" ∷ some_words ∷ lit ")" ∷ []));
    }
    ∷ record {
      code = "PERF007";
      message = "리스트 컴프리헨션 중첩 3단계 이상 — 가독성/성능 모두 저하; 분리 고려";
      pattern = seqs (
          lit "["
          ∷ no_bracket
          ∷ lit "for"
          ∷ no_bracket
          ∷ lit "for"
          ∷ no_bracket
          ∷ lit "for"
          ∷ no_bracket
          ∷ lit "]"
          ∷ []);
    }
    ∷ record {
      code = "PERF008";
      message = "time.sleep() 동기 호출 — asyncio.sleep() 또는 이벤트 기반 대기 권장";
      pattern = seqs (word_boundary ∷ lit "time.sleep" ∷ spaces ∷ lit "(" ∷ []);
    }
    ∷ []

-- `PerformanceAgent.run`
unfoldable pub run : ReviewRequest → AgentDecision
unfolding scan_rules decide_findings added_block
run request =
    decide_findings "performance" warn 7000 8500 action_of
      (scan_rules performance_rules (added_block request.diff_text))
