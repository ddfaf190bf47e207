-- ===== src/Examples/Scans.antt =====
-- The agents at concrete diffs.
use nitpicker_daemon.Prelude.{
  String, true, false, some, List, [], ◌∷◌, ◌≡◌, ◌↔◌, refl, inl, among, join, starts, strip,
  splitlines,
}
use nitpicker_daemon.Python.Errors.{ok}
use nitpicker_daemon.Python.Json.{null, str, arr, obj, cons, nil, Fields, field, end}
use nitpicker_daemon.Models.{ReviewRequest, ReviewResult, reject}
use nitpicker_daemon.Services.PatchService.{Process}
use nitpicker_daemon.Orchestrator.Controller.{Agent, ReviewOrchestrator, is_terminal}
use nitpicker_daemon.Orchestrator.Controller.Agents.{select_agents, active_agents}
use nitpicker_daemon.Orchestrator.Controller.Pipeline.{run_once}
use nitpicker_daemon.Orchestrator.Controller.Pipeline.Verdicts.{passes, verdict_decision}
use nitpicker_daemon.Orchestrator.Controller.Pipeline.Terminal.{run_once_settles}
use nitpicker_daemon.Agents.Scan.{added_block}
use nitpicker_daemon.Agents.Scan.Rules.{SomeRule}
use nitpicker_daemon.Agents.Security.{security_rules}
use nitpicker_daemon.Agents.Security
use nitpicker_daemon.Agents.Security.Blocks.{Has, rejects-SomeRule, dangerous_line_blocks}
use nitpicker_daemon.Agents.Architecture.{new_scanner, scan_lines}
use nitpicker_daemon.Agents.Architecture.Nesting.{io_in_loop, scan_lines-in_loop}
use nitpicker_daemon.Agents.FastGate.{Tools, ToolFinding, file_of, judge}
use nitpicker_daemon.Agents.FastGate
use nitpicker_daemon.Agents.FastGate.Severity.{RuffError, rejection-RuffError}
use nitpicker_daemon.State.Spooler.{conflicts, first, has_id}
use nitpicker_daemon.State.Spooler.Audit.{state_of}
use nitpicker_daemon.Orchestrator.PolicyEngine.{evaluate_request}
use nitpicker_daemon.Python.Regex.{search}
use nitpicker_daemon.Examples.Samples.{exact, request, orchestrator, world}

-- a diff that adds a call of eval
abbrev dangerous : ReviewRequest
dangerous = record request { diff_text = "+x = eval(y)\n" }

eval_rejected : (Security.run dangerous).status ≡ reject
unfolding Security.run search join starts
eval_rejected = refl

rejects-SomeRule_example :
    ((Security.run dangerous).status ≡ reject)
    ↔ SomeRule (added_block dangerous.diff_text) security_rules
rejects-SomeRule_example = rejects-SomeRule dangerous

abbrev scanning : Agent
scanning = record {
  name = some "security";
  class_name = "SecurityAgent";
  run = λ request context. ok (Security.run request);
}

abbrev scanned : ReviewOrchestrator
scanned = record orchestrator { agents = scanning ∷ [] }

selected : select_agents scanned dangerous ≡ ok (scanning ∷ [])
unfolding select_agents
selected = refl

new_request : conflicts dangerous world.store.rows ≡ false
unfolding conflicts
new_request = refl

active : Has scanning (active_agents (verdict_decision scanned dangerous) (scanning ∷ []))
unfolding active_agents evaluate_request
active = inl refl

settles :
    (result : ReviewResult) × ((run_once scanned dangerous world).0 ≡ ok result)
    × (state_of (first (has_id "r1") (run_once scanned dangerous world).1.store.rows)
        ≡ some result.state)
    × (is_terminal result.state ≡ true)
settles = run_once_settles scanned dangerous world new_request

abbrev settled : ReviewResult
settled = settles.0

dangerous_line_blocks_example : passes settled.status settled.result_code ≡ false
dangerous_line_blocks_example =
    dangerous_line_blocks exact scanned dangerous world settled scanning (scanning ∷ [])
      (λ ds. refl) selected active (λ context. refl) ((rejects-SomeRule dangerous).0 eval_rejected)
      settles.1

abbrev lines : List String
lines = "for x in xs:" ∷ "    y = open(x)" ∷ []

scan_lines-in_loop_example :
    among "ARCH001" (scan_lines lines new_scanner).found_codes ≡ io_in_loop [] lines
scan_lines-in_loop_example = scan_lines-in_loop lines

abbrev fields_of_item : Fields
fields_of_item = field "code" (str "F401") (field "message" (str "unused") end)

abbrev ran : Process
ran = record { returncode = 1; stdout = "[1]"; stderr = "" }

-- ruff reports an item without a severity
abbrev tools : Tools
tools = record {
  is_python_file = λ path. true;
  ruff = λ path. ok ran;
  mypy = λ path. ok (record ran { stdout = "" });
  loads = λ text. ok (arr (cons (obj fields_of_item) nil));
  repr = λ v. "value";
}

abbrev gate_findings : List ToolFinding
gate_findings =
    record { code = str "F401"; line_number = null; message = str "unused"; severity = str "error" }
    ∷ []

gate_run : FastGate.run tools request ≡ ok (judge tools gate_findings [])
unfolding FastGate.run strip splitlines
gate_run = refl

gate_rejects : (judge tools gate_findings []).status ≡ reject
unfolding judge
gate_rejects = refl

rejection-RuffError_example : RuffError tools (file_of tools request)
rejection-RuffError_example =
    rejection-RuffError tools request (judge tools gate_findings []) gate_run gate_rejects
