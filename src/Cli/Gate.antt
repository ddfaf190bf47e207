-- ===== src/Cli/Gate.antt =====
-- What an exit code of zero promises a commit hook.
use nitpicker_daemon.Prelude.{
  ℕ, String, Bool, true, Option, none, some, List, [], ◌∷◌, ◌≡◌, ◌==◌, ◌||◌, refl, arith, all, eqb,
  if◌then◌else◌, Bool-cases, inl, inr,
}
use nitpicker_daemon.Python.Errors.{Result, ok, raised}
use nitpicker_daemon.Python.Json.{
  Json, str, obj, Dict, Fields, fields, lookup, get, is_str, is_str-eq,
}
use nitpicker_daemon.Models.{ReviewResult}
use nitpicker_daemon.Orchestrator.Controller.{World, ReviewOrchestrator}
use nitpicker_daemon.Orchestrator.Controller.Pipeline.{run_once}
use nitpicker_daemon.Orchestrator.Controller.Pipeline.Verdicts.{passes}
use nitpicker_daemon.Orchestrator.Controller.Pipeline.Passing.{ApprovedRun, run_once-passes}
use nitpicker_daemon.Cli.{
  exit_code_from_result_code, exit_code_from_result, exit_of, labelled_request, run_direct, body_of,
  answer_code, run_via_daemon, unreachable, run_files, run_staged,
}

exit_zero :
    (r : Result ReviewResult)
    → exit_of r ≡ ok 0
    → (result : ReviewResult) × (r ≡ ok result) × (passes result.status result.result_code ≡ true)
unfolding exit_code_from_result exit_code_from_result_code
exit_zero (ok result) h = (result, refl, ground (arith, h))
exit_zero (raised e) h = let no : ⊥ = cc in absurd no

-- If a direct run of the command line exits with zero, then for the request that it made the
-- context was built, every active agent returned a decision, the consensus engine passed these
-- decisions, and the L3 gate, where there is one, answered REVIEW_PASSED or no code.
pub run_direct_exit_zero :
    (sha256 normalise : String → String) (s : ReviewOrchestrator) (label file diff : String)
    (w : World)
    → (run_direct sha256 normalise s label file diff w).0 ≡ ok 0
    → ApprovedRun s (labelled_request sha256 normalise label file diff)
unfolding run_direct
run_direct_exit_zero sha256 normalise s label file diff w h =
    let request = labelled_request sha256 normalise label file diff in
    let (result, returned, passed) = exit_zero (run_once s request w).0 h in
    run_once-passes s request w result returned passed

code_exit_zero : (code : Json) → exit_code_from_result_code code ≡ 0 → code ≡ str "REVIEW_PASSED"
unfolding exit_code_from_result_code
code_exit_zero code h = is_str-eq "REVIEW_PASSED" code (ground (arith, h))

body_exit_zero :
    (o : Option Json)
    → answer_code (body_of o) ≡ ok (some 0)
    → (body : Fields) × (o ≡ some (obj body))
      × (get "result_code" (fields body) ≡ str "REVIEW_PASSED")
body_exit_zero (some (obj f)) h =
    let zero : exit_code_from_result_code (get "result_code" (fields f)) ≡ 0 = cc in
    (f, refl, code_exit_zero (get "result_code" (fields f)) zero)
body_exit_zero (some v) h = let no : ⊥ = cc in absurd no
body_exit_zero none h = let no : ⊥ = cc in absurd no

-- If a run by the daemon exits with zero, the daemon answered, the status of its answer is
-- success, and the answer holds a response whose result code is REVIEW_PASSED.
pub run_via_daemon_exit_zero :
    (answer : Result Dict)
    → run_via_daemon answer ≡ ok (some 0)
    → (response : Dict) × (body : Fields) × (answer ≡ ok response)
      × (get "status" response ≡ str "success")
      × (lookup "response" response ≡ some (obj body))
      × (get "result_code" (fields body) ≡ str "REVIEW_PASSED")
unfolding run_via_daemon exit_code_from_result_code
run_via_daemon_exit_zero (ok response) =
    elim (Bool-cases (is_str "success" (get "status" response))) [
      | inl e ↦ rw e λ h.
          let (body, found, passed) = body_exit_zero (lookup "response" response) h in
          (response, body, refl, is_str-eq "success" (get "status" response) e, found, passed)
      | inr e ↦ rw e λ h. let no : ⊥ = ground (arith, h) in absurd no
    ]
run_via_daemon_exit_zero (raised e) = elim (Bool-cases (unreachable e.kind)) [
  | inl k ↦ rw k λ h. let no : ⊥ = cc in absurd no
  | inr k ↦ rw k λ h. let no : ⊥ = cc in absurd no
]

abbrev pub file_passes : (String → String) → (String → String → ℕ) → String → Bool
file_passes diff_of direct f = diff_of f == "" || eqb (direct f (diff_of f)) 0

-- If every direct run returns an exit code, a run of the staged files returns zero exactly if
-- every file has no diff or exits with zero, and else one.
pub run_staged_lem :
    (diff_of : String → String) (direct : String → String → ℕ) (files : List String)
    → run_staged diff_of (λ f diff. ok (direct f diff)) (some files)
      ≡ ok (if all (file_passes diff_of direct) files then 0 else 1)
unfolding run_staged run_files
run_staged_lem diff_of direct [] = refl
run_staged_lem diff_of direct (f ∷ rest) =
    let others = run_staged_lem diff_of direct rest in
    elim (Bool-cases (diff_of f == "")) [
      | inl e ↦ rw e others
      | inr e ↦
          rw (e, others)
            (elim (Bool-cases (eqb (direct f (diff_of f)) 0)) [ inl k ↦ rw k | inr k ↦ rw k ])
    ]
