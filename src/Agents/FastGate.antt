-- ===== src/Agents/FastGate.antt =====
-- agents/fast_gate.py. The runs of ruff and mypy are arguments, and so is whether a path is a Python
-- file that exists. A score is in ten-thousandths.
pub mod Severity
use nitpicker_daemon.Prelude.{
  ℕ, zero, suc, String, Bool, not, ◌&&◌, ◌||◌, Option, none, some, List, [], ◌∷◌, ◌++◌, map, ◌==◌,
  if◌then◌else◌, filled, keep, concat, strip, splitlines, starts_with, or_else,
}
use nitpicker_daemon.Python.Errors.{
  Result, ok, raised, Error, ErrorClass, ◌>>=◌, fail, timeout_expired, file_not_found_error,
  json_decode_error, attribute_error, type_error,
}
use nitpicker_daemon.Python.Json.{
  Json, null, str, arr, obj, Items, nil, cons, end, field, fields, get, get_or, truthy, is_str,
  text_of,
}
use nitpicker_daemon.Models.{ReviewRequest, AgentDecision, AgentStatus, warn, reject, Finding}
use nitpicker_daemon.Services.PatchService.{Process}
use nitpicker_daemon.Agents.Scan.{text_lines}

-- `text[n:]`
abbrev drop_text : ℕ → String → String
drop_text zero s = s
drop_text (suc n) String.[] = ""
drop_text (suc n) (String.◌∷◌ c s) = drop_text n s

-- a finding of a tool
pub record ToolFinding : Type 0 where
  pub code : Json
  pub line_number : Json
  pub message : Json
  pub severity : Json

pub record Tools : Type 0 where
  -- `path.exists() and path.suffix == ".py"`
  pub is_python_file : String → Bool
  pub ruff : String → Result Process
  pub mypy : String → Result Process
  -- `json.loads`
  pub loads : String → Result Json
  -- `str` of a value that is no text
  pub repr : Json → String

-- the findings that stand for a tool that gave no answer in time
abbrev pub gate_timeout : String → String → List ToolFinding
gate_timeout message severity =
    record {
      code = str "GATE_TIMEOUT";
      line_number = null;
      message = str message;
      severity = str severity;
    }
    ∷ []

-- `item.get("location", {}).get("row")`
row_of : Json → Result Json
row_of (obj fs) = ok (get "row" (fields fs))
row_of _ = fail attribute_error "object has no attribute 'get'"

ruff_finding : Json → Result ToolFinding
unfolding row_of
ruff_finding (obj fs) = row_of (get_or "location" (obj end) (fields fs)) >>= λ row. ok (record {
  code = get_or "code" (str "RUFF") (fields fs);
  line_number = row;
  message = get_or "message" (str "") (fields fs);
  severity = get_or "severity" (str "error") (fields fs);
})
ruff_finding _ = fail attribute_error "object has no attribute 'get'"

ruff_items : Items → Result (List ToolFinding)
unfolding ruff_finding
ruff_items nil = ok []
ruff_items (cons item rest) = do f ← ruff_finding item; fs ← ruff_items rest; ok (f ∷ fs)

-- the answer of ruff, which is a list; another value raises when it is iterated or read
ruff_report : Json → Result (List ToolFinding)
unfolding ruff_items
ruff_report (arr items) = ruff_items items
ruff_report (str s) =
    if s == "" then ok [] else fail attribute_error "'str' object has no attribute 'get'"
ruff_report (obj end) = ok []
ruff_report (obj (field _ _ _)) = fail attribute_error "'str' object has no attribute 'get'"
ruff_report _ = fail type_error "object is not iterable"

-- a text that is no JSON has no findings
ruff_parsed : Result Json → Result (List ToolFinding)
unfolding ruff_report
ruff_parsed (ok v) = ruff_report v
ruff_parsed (raised e) = elim e.kind [ json_decode_error ↦ ok [] | _ ↦ raised e ]

-- the handlers of a tool's run
tool_failed : List ToolFinding → Error → ErrorClass → Result (List ToolFinding)
tool_failed late e timeout_expired = ok late
tool_failed late e file_not_found_error = ok []
tool_failed late e _ = raised e

module _ (t : Tools) where
  open t use {is_python_file, ruff, mypy, loads, repr}

  ruff_answer : Result Process → Result (List ToolFinding)
  unfolding ruff_parsed tool_failed
  ruff_answer (ok p) = if strip p.stdout == "" then ok [] else ruff_parsed (loads p.stdout)
  ruff_answer (raised e) = tool_failed (gate_timeout "ruff timed out after 5s" "warning") e e.kind

  -- `_run_ruff`
  unfoldable pub run_ruff : String → Result (List ToolFinding)
  unfolding ruff_answer
  run_ruff path = if is_python_file path then ruff_answer (ruff path) else ok []

  -- an item of mypy, unless it is a note
  mypy_finding : Json → Result (List ToolFinding)
  mypy_finding (obj fs) =
      if is_str "note" (get "severity" (fields fs))
      then ok []
      else ok (
          record {
            code = str "MYPY";
            line_number = get "line" (fields fs);
            message = get_or "message" (str "") (fields fs);
            severity = str "warn";
          }
          ∷ [])
  mypy_finding _ = fail attribute_error "object has no attribute 'get'"

  mypy_parsed : Result Json → Result (List ToolFinding)
  unfolding mypy_finding
  mypy_parsed (ok v) = mypy_finding v
  mypy_parsed (raised e) = elim e.kind [ json_decode_error ↦ ok [] | _ ↦ raised e ]

  mypy_line : String → Result (List ToolFinding)
  unfolding mypy_parsed
  mypy_line line = if strip line == "" then ok [] else mypy_parsed (loads (strip line))

  mypy_lines : List String → Result (List ToolFinding)
  unfolding mypy_line
  mypy_lines [] = ok []
  mypy_lines (line ∷ lines) = do first ← mypy_line line; rest ← mypy_lines lines; ok (first ++ rest)

  mypy_answer : Result Process → Result (List ToolFinding)
  unfolding mypy_lines tool_failed
  mypy_answer (ok p) = mypy_lines (splitlines p.stdout)
  mypy_answer (raised e) = tool_failed (gate_timeout "mypy timed out after 10s" "warn") e e.kind

  -- `_run_mypy`
  unfoldable pub run_mypy : String → Result (List ToolFinding)
  unfolding mypy_answer
  run_mypy path = if is_python_file path then mypy_answer (mypy path) else ok []

  -- `_fmt`
  abbrev fmt : ToolFinding → Finding
  fmt f =
      let loc : String =
        if truthy f.line_number
        then concat ("line " ∷ text_of repr f.line_number ∷ ": " ∷ [])
        else "" in
      ("code", f.code)
      ∷ ("message", str (concat (text_of repr f.code ∷ " " ∷ loc ∷ text_of repr f.message ∷ [])))
      ∷ []

  abbrev pub is_error : ToolFinding → Bool
  is_error f = is_str "error" f.severity

  -- the decision on the findings of the tools
  unfoldable pub judge : List ToolFinding → List ToolFinding → AgentDecision
  judge ruff_findings mypy_findings =
      let errors : List ToolFinding = keep is_error ruff_findings in
      let warns : List ToolFinding = keep (λ f. not (is_error f)) ruff_findings in
      let all_findings : List Finding =
        map fmt errors ++ (map fmt warns ++ map fmt mypy_findings) in
      if filled errors
      then record {
        agent_name = "fast_gate";
        status = reject;
        confidence_score = 9500;
        findings = all_findings;
        suggested_actions = "fix ruff errors before merging" ∷ [];
      }
      else if filled mypy_findings || filled warns
      then record {
        agent_name = "fast_gate";
        status = warn;
        confidence_score = if filled mypy_findings then 8500 else 8000;
        findings = all_findings;
        suggested_actions = "address mypy / ruff warnings" ∷ [];
      }
      else record {
        agent_name = "fast_gate";
        status = AgentStatus.pass;
        confidence_score = 9000;
        findings = [];
        suggested_actions = [];
      }

  -- `_extract_added_file_path`
  unfoldable pub extract_added_file_path : List String → Option String
  extract_added_file_path [] = none
  extract_added_file_path (line ∷ lines) =
      if starts_with "+++ b/" line && not (line == "+++ b/")
      then some (drop_text 6 line)
      else extract_added_file_path lines

  -- the file to look at: the one of the request, or the one that the diff names
  unfoldable pub file_of : ReviewRequest → String
  unfolding extract_added_file_path text_lines
  file_of request =
      if request.target_file == ""
      then or_else (extract_added_file_path (text_lines request.diff_text)) ""
      else request.target_file

  -- `FastGateAgent.run`
  unfoldable pub run : ReviewRequest → Result AgentDecision
  unfolding run_ruff run_mypy judge file_of
  run request = run_ruff (file_of request) >>= λ ruff_findings.
      run_mypy (file_of request) >>= λ mypy_findings. ok (judge ruff_findings mypy_findings)
