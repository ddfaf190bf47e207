-- ===== src/Services/AutoFix.antt =====
-- services/autofix_svc.py. The working tree is a state of any type, on which `git` and the check
-- command act.
use nitpicker_daemon.Prelude.{
  String, Bool, true, false, not, Option, none, some, [], ◌∷◌, ◌==◌, ◌≡◌, arith, ◌&&◌,
  if◌then◌else◌, eqb, concat, is_blank, codes, is_some, Bool-cases, inl, inr,
}
use nitpicker_daemon.Python.Errors.{
  Result, ok, raised, Error, ErrorClass, is_os_error, timeout_expired,
}
use nitpicker_daemon.Services.PatchService.{Process}

pub record AutoFixResult : Type 0 where
  pub applied : Bool
  pub rolled_back : Bool
  pub reason : String
  pub patch_text : String
  pub verify_passed : Option Bool

-- `AutoFixResult(...)` with the defaults of the dataclass for `rolled_back` and `verify_passed`
abbrev outcome : Bool → String → String → AutoFixResult
outcome applied reason patch_text = record {
  applied = applied;
  rolled_back = false;
  reason = reason;
  patch_text = patch_text;
  verify_passed = none;
}

-- What the service uses of `git` and of the check command, over the working tree.
pub record Workspace (Tree : Type 0) : Type 0 where
  -- `git apply --check`
  pub check : String → Tree → Result Process
  -- `git apply`
  pub apply : String → Tree → Result Process × Tree
  -- the check command, if one is configured
  pub verify : Option (Tree → Result Process)
  -- `git checkout -- target_file`; what it raises is logged
  pub checkout : String → Tree → Tree
  pub auto_rollback : Bool

-- the handler of `_git_apply`
abbrev caught : ErrorClass → Bool
caught timeout_expired = true
caught k = is_os_error k

abbrev first_text : String → String → String → String
first_text a b c = if a == "" then (if b == "" then c else b) else a

module _ {Tree : Type 0} (w : Workspace Tree) where
  open w use {check, apply, verify, checkout, auto_rollback}

  abbrev failed_call : Error → Tree → Result (Bool × String) × Tree
  failed_call e t = if caught e.kind then (ok (false, e.message), t) else (raised e, t)

  after_apply : Result Process × Tree → Result (Bool × String) × Tree
  after_apply (ok p, t) =
      if eqb p.returncode 0
      then (ok (true, ""), t)
      else (ok (false, concat ("적용 실패: " ∷ first_text p.stderr p.stdout "unknown" ∷ [])), t)
  after_apply (raised e, t) = failed_call e t

  after_check : Result Process → String → Tree → Result (Bool × String) × Tree
  unfolding after_apply
  after_check (ok p) patch_text t =
      if eqb p.returncode 0
      then after_apply (apply patch_text t)
      else (ok (false, concat ("dry-run 실패: " ∷ first_text p.stderr p.stdout "unknown" ∷ [])), t)
  after_check (raised e) patch_text t = failed_call e t

  unfoldable pub git_apply : String → Tree → Result (Bool × String) × Tree
  unfolding after_check
  git_apply patch_text t = after_check (check patch_text t) patch_text t

  verified : Result Process → Result Bool
  verified (ok p) = ok (eqb p.returncode 0)
  verified (raised e) = if caught e.kind then ok false else raised e

  unfoldable pub run_verify : Tree → Result Bool
  unfolding verified
  run_verify t = elim verify [ none ↦ ok true | some run ↦ verified (run t) ]

  -- the three outcomes of a second check
  after_verify : Result Bool → String → String → Tree → Result AutoFixResult × Tree
  after_verify (ok true) patch_text target t =
      (ok (record (outcome true "패치 적용 + 재검증 통과" patch_text) { verify_passed = some true }), t)
  after_verify (ok false) patch_text target t =
      if auto_rollback && not (target == "")
      then (
        ok (record {
          applied = false;
          rolled_back = true;
          reason = "재검증 실패 → 롤백 완료";
          patch_text = patch_text;
          verify_passed = some false;
        }),
        checkout target t,
      )
      else (
        ok (record (outcome true "재검증 실패 (롤백 미설정)" patch_text) { verify_passed = some false }),
        t,
      )
  after_verify (raised e) patch_text target t = (raised e, t)

  after_git : Result (Bool × String) × Tree → String → String → Result AutoFixResult × Tree
  unfolding after_verify run_verify
  after_git (ok (true, _), t) patch_text target =
      if is_some verify
      then after_verify (run_verify t) patch_text target t
      else (ok (outcome true "패치 적용 성공 (재검증 미설정)" patch_text), t)
  after_git (ok (false, reason), t) patch_text target = (ok (outcome false reason patch_text), t)
  after_git (raised e, t) patch_text target = (raised e, t)

  unfoldable pub apply_patch : String → String → Tree → Result AutoFixResult × Tree
  unfolding git_apply after_git
  apply_patch patch_text target t =
      if is_blank (codes patch_text)
      then (ok (outcome false "빈 패치" ""), t)
      else after_git (git_apply patch_text t) patch_text target

  after_git-exclusive :
      (g : Result (Bool × String) × Tree) (patch_text target : String) (r : AutoFixResult)
      → (after_git g patch_text target).0 ≡ ok r
      → ((r.rolled_back ≡ true) → (r.applied ≡ false) × (r.verify_passed ≡ some false))
        × ((r.applied ≡ true) → r.rolled_back ≡ false)
  unfolding after_git
  after_git-exclusive g patch_text target r h =
      unfold after_verify run_verify verified in ground arith

  applied_or_rolled_back :
      (patch_text target : String) (t : Tree) (r : AutoFixResult)
      → (apply_patch patch_text target t).0 ≡ ok r
      → (r.rolled_back ≡ true → (r.applied ≡ false) × (r.verify_passed ≡ some false))
        × (r.applied ≡ true → r.rolled_back ≡ false)
  unfolding apply_patch
  applied_or_rolled_back patch_text target t r h = elim (Bool-cases (is_blank (codes patch_text))) [
    | inl e ↦ ground arith
    | inr e ↦ after_git-exclusive (git_apply patch_text t) patch_text target r (ground arith)
  ]

  -- If an automatic fix returns a result that says it was rolled back, then this result also says
  -- that it was not applied and that the check failed.
  pub rolled_back-not-applied :
      (patch_text target : String) (t : Tree) (r : AutoFixResult)
      → (apply_patch patch_text target t).0 ≡ ok r
      → r.rolled_back ≡ true
      → (r.applied ≡ false) × (r.verify_passed ≡ some false)
  rolled_back-not-applied patch_text target t r h =
      (applied_or_rolled_back patch_text target t r h).0

  pub applied-not-rolled_back :
      (patch_text target : String) (t : Tree) (r : AutoFixResult)
      → (apply_patch patch_text target t).0 ≡ ok r
      → r.applied ≡ true
      → r.rolled_back ≡ false
  applied-not-rolled_back patch_text target t r h =
      (applied_or_rolled_back patch_text target t r h).1
