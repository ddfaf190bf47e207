-- ===== src/Orchestrator/Controller/Verdict/Rollback.antt =====
-- The controller's tests of an automatic fix, together with what the service returns.
use nitpicker_daemon.Prelude.{String, true, false, ◌≡◌, ◌≢◌, Bool-cases, inl, inr}
use nitpicker_daemon.Python.Errors.{ok}
use nitpicker_daemon.Python.Json.{str}
use nitpicker_daemon.Models.{ReviewRequest}
use nitpicker_daemon.Services.AutoFix.{
  AutoFixResult, Workspace, apply_patch, rolled_back-not-applied, applied-not-rolled_back,
}
use nitpicker_daemon.Orchestrator.Controller.{ReviewOrchestrator}
use nitpicker_daemon.Orchestrator.Controller.Verdict.{Verdict, after_fix}

module _ (Tree : Type 0) (work : Workspace Tree) (s : ReviewOrchestrator) (request : ReviewRequest)
    (patch_text : String) (tree : Tree) (fix : AutoFixResult) (v : Verdict)
    (returned : (apply_patch work patch_text request.target_file tree).0 ≡ ok fix) where
  -- If the automatic fix was rolled back, the controller leaves its verdict as it was.
  pub rolled_back_unreported : fix.rolled_back ≡ true → after_fix s request fix v ≡ v
  unfolding after_fix
  rolled_back_unreported rolled =
      rw ((rolled_back-not-applied work patch_text request.target_file tree fix returned rolled).0)

  -- If the controller changes another code to PATCH_ROLLBACK after an automatic fix, then the fix
  -- was not rolled back.
  pub reported-not_rolled_back :
      v.result_code ≢ str "PATCH_ROLLBACK"
      → (after_fix s request fix v).result_code ≡ str "PATCH_ROLLBACK"
      → fix.rolled_back ≡ false
  unfolding after_fix
  reported-not_rolled_back other reported = elim (Bool-cases fix.applied) [
    | inl e ↦ applied-not-rolled_back work patch_text request.target_file tree fix returned e
    | inr e ↦ absurd (other (rw (e) at reported))
  ]
