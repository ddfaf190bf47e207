-- ===== src/Cli.antt =====
-- bin/jemmin_cli.py: the exit code of a review, run directly, by the daemon, or for every staged
-- file. Paths, git, the files that are read and the daemon's answer are arguments.
pub mod Gate
use nitpicker_daemon.Prelude.{
  ℕ, ◌+◌, String, Bool, true, false, not, Option, none, some, List, [], ◌∷◌, ◌==◌, ◌&&◌, ltb, eqb,
  if◌then◌else◌, concat,
}
use nitpicker_daemon.Python.Errors.{
  Result, ok, raised, ErrorClass, key_error, attribute_error, timeout_error, connection_error,
  is_os_error, ◌>>=◌, fail,
}
use nitpicker_daemon.Python.Json.{
  Json, obj, str, Dict, fields, lookup, get, is_str, truthy, insert, text_of,
}
use nitpicker_daemon.Models.{ReviewRequest, ReviewResult}
use nitpicker_daemon.Triggers.{cli, adapt}
use nitpicker_daemon.Orchestrator.Controller.{World, ReviewOrchestrator}
use nitpicker_daemon.Orchestrator.Controller.Pipeline.{run_once}

-- `_exit_code_from_result_code`
unfoldable pub exit_code_from_result_code : Json → ℕ
exit_code_from_result_code code = if is_str "REVIEW_PASSED" code then 0 else 1

-- `_exit_code_from_result`
unfoldable pub exit_code_from_result : ReviewResult → ℕ
exit_code_from_result result = exit_code_from_result_code result.result_code

-- `_emit_result_code`: the token that is printed
unfoldable pub emit_result_code : (Json → String) → Json → String
emit_result_code repr code =
    concat ("JEMMIN_RESULT_CODE=" ∷ (if truthy code then text_of repr code else "UNKNOWN") ∷ [])

abbrev pub exit_of : Result ReviewResult → Result ℕ
exit_of (ok result) = ok (exit_code_from_result result)
exit_of (raised e) = raised e

-- the parsed command line
pub record Arguments : Type 0 where
  pub file : Option String
  pub diff : Option String
  pub diff_file : Option String
  pub diff_stdin : Bool
  pub staged : Bool
  pub no_daemon : Bool
  pub use_daemon : Bool
  pub provider : String
  pub model : Option String

-- `bool(text)`, and `text or ""`
abbrev pub given : Option String → Bool
given none = false
given (some s) = not (s == "")

abbrev pub text_or_empty : Option String → String
text_or_empty none = ""
text_or_empty (some s) = s

abbrev one_if : Bool → ℕ
one_if true = 1
one_if false = 0

-- an `OSError` of the read is reported by `parser.error`; another error goes on
abbrev read_result : Result String → Result (Option String)
read_result (ok text) = ok (some text)
read_result (raised e) = if is_os_error e.kind then ok none else raised e

-- `_resolve_diff_text`; `none` is `parser.error`, which ends the process
unfoldable pub resolve_diff_text :
    Arguments → (String → Result String) → String → Result (Option String)
resolve_diff_text args read stdin =
    if ltb 1 (one_if (given args.diff) + one_if (given args.diff_file) + one_if args.diff_stdin)
    then ok none
    else if given args.diff_file
    then read_result (read (text_or_empty args.diff_file))
    else if args.diff_stdin
    then ok (some stdin)
    else ok (some (text_or_empty args.diff))

-- `_should_try_daemon`
unfoldable pub should_try_daemon : Arguments → Bool
should_try_daemon args =
    args.use_daemon && not args.no_daemon && not (given args.model) && args.provider == "mock"

module _ (sha256 normalise : String → String) where
  unfoldable pub cli_request : String → String → ReviewRequest
  cli_request file_path diff_text = adapt sha256 cli (record {
    source = "cli";
    payload = ("target_file", normalise file_path) ∷ ("diff_text", diff_text) ∷ [];
    metadata = [];
  })

  -- the request with `metadata["reviewer"]`
  unfoldable pub labelled_request : String → String → String → ReviewRequest
  labelled_request label file_path diff_text =
      let request = cli_request file_path diff_text in
      record request { metadata = insert "reviewer" (str label) request.metadata }

  -- `_run_direct`, from the call of `run_once` on
  unfoldable pub run_direct :
      ReviewOrchestrator → String → String → String → World → Result ℕ × World
  run_direct s label file_path diff_text w =
      let (result, w') = run_once s (labelled_request label file_path diff_text) w in
      (exit_of result, w')

-- `response["response"]`, of which `.get` is called
abbrev pub body_of : Option Json → Result Dict
body_of none = fail key_error "response"
body_of (some (obj f)) = ok (fields f)
body_of (some v) = fail attribute_error "get"

abbrev pub answer_code : Result Dict → Result (Option ℕ)
answer_code (ok body) = ok (some (exit_code_from_result_code (get "result_code" body)))
answer_code (raised e) = raised e

abbrev pub unreachable : ErrorClass → Bool
unreachable timeout_error = true
unreachable connection_error = true
unreachable _ = false

-- `_run_via_daemon`, from the answer of `client.send`; `none` is the fallback to a direct run
unfoldable pub run_via_daemon : Result Dict → Result (Option ℕ)
run_via_daemon (ok response) =
    if is_str "success" (get "status" response)
    then answer_code (body_of (lookup "response" response))
    else ok (some 1)
run_via_daemon (raised e) = if unreachable e.kind then ok none else raised e

module _ (diff_of : String → String) (direct : String → String → Result ℕ) where
  -- the loop of `_run_staged`; a file without a diff is skipped
  unfoldable pub run_files : List String → Result ℕ
  run_files [] = ok 0
  run_files (f ∷ rest) =
      let others = run_files rest in
      if diff_of f == ""
      then others
      else direct f (diff_of f) >>= λ rc.
          others >>= λ exit_code. ok (if eqb rc 0 then exit_code else 1)

  -- `_run_staged`; `none` is a failure of git, and `direct` starts with an empty job store
  unfoldable pub run_staged : Option (List String) → Result ℕ
  run_staged none = ok 1
  run_staged (some files) = run_files files
