-- ===== src/Reviewer/Patch/Safe.antt =====
-- A patch is applied after its dry run alone, and leaves no temporary file.
use nitpicker_daemon.Prelude.{
  String, true, false, not, List, [], ◌∷◌, ◌==◌, ◌≡◌, ◌≢◌, refl, ap, ◌∙◌, arith, eqb, codes,
  is_blank, keep, among, Bool-cases, inl, inr, eq_iff, eq_refl,
}
use nitpicker_daemon.Python.Errors.{Result, ok, raised}
use nitpicker_daemon.Services.PatchService.{Process}
use nitpicker_daemon.Reviewer.Patch.{
  Git, Files, unlink, after_apply, after_check, after_write, after_mkstemp, apply_patch_safely,
}

keep_others :
    (path : String) (temps : List String)
    → among path temps ≡ false
    → keep (λ p. not (p == path)) temps ≡ temps
keep_others path [] h = refl
keep_others path (t ∷ temps) h =
    ground (arith, keep_others path temps, eq_iff t path, eq_iff path t)

keep_self :
    (path : String) (temps : List String)
    → keep (λ p. not (p == path)) (path ∷ temps) ≡ keep (λ p. not (p == path)) temps
keep_self path temps = ground (arith, eq_refl path)

module _ {Tree : Type 0} (g : Git Tree) where
  open g use {mkstemp, write, check, apply}

  after_write-temps :
      (r : Result (Unit {0})) (patch_text : String) (w : Files Tree)
      → (after_write g r patch_text w).1.temps ≡ w.temps
  unfolding after_write after_check after_apply
  after_write-temps r patch_text w = ground arith

  after_mkstemp-temps :
      (made : Result String) (patch_text : String) (w : Files Tree)
      → ((path : String) → made ≡ ok path → (path ≢ "") × (among path w.temps ≡ false))
      → (after_mkstemp g made patch_text w).1.temps ≡ w.temps
  unfolding after_mkstemp
  after_mkstemp-temps (raised e) patch_text w fresh = refl
  after_mkstemp-temps (ok path) patch_text w fresh = elim (Bool-cases (path == "")) [
    | inl e ↦ absurd ((fresh path refl).0 ((eq_iff path "").0 e))
    | inr e ↦ rw e (
        ap (keep (λ p. not (p == path)))
          (after_write-temps (write patch_text) patch_text (record w { temps = path ∷ w.temps }))
        ∙ keep_self path w.temps
        ∙ keep_others path w.temps (fresh path refl).1)
  ]

  -- If a temporary file has a name that is not empty and is not in use, the list of temporary
  -- files is the same after a patch was applied, refused or raised an error as before.
  pub apply_patch_safely-temps :
      (patch_text : String) (w : Files Tree)
      → ((path : String) → mkstemp ≡ ok path → (path ≢ "") × (among path w.temps ≡ false))
      → (apply_patch_safely g patch_text w).1.temps ≡ w.temps
  unfolding apply_patch_safely
  apply_patch_safely-temps patch_text w fresh = elim (Bool-cases (is_blank (codes patch_text))) [
    | inl e ↦ rw e
    | inr e ↦ rw e (after_mkstemp-temps mkstemp patch_text w fresh)
  ]

  -- both runs of git exited with zero
  pub record Ran (patch_text : String) (tree after : Tree) : Type 0 where
    pub dry : Process
    pub dry_run : check patch_text tree ≡ ok dry
    pub dry_passed : dry.returncode ≡ 0
    pub real : Process
    pub real_run : apply patch_text tree ≡ (ok real, after)
    pub real_passed : real.returncode ≡ 0

  after_apply-Ran :
      (patch_text : String) (tree : Tree) (dry : Process) (x : Result Process × Tree)
      (temps : List String)
      → check patch_text tree ≡ ok dry
      → dry.returncode ≡ 0
      → apply patch_text tree ≡ x
      → (after_apply g x temps).0 ≡ ok true
      → Ran patch_text tree (after_apply g x temps).1.tree
  unfolding after_apply
  after_apply-Ran patch_text tree dry (ok p, after) temps c z a h = record {
    dry = dry;
    dry_run = c;
    dry_passed = z;
    real = p;
    real_run = a;
    real_passed = ground arith;
  }
  after_apply-Ran patch_text tree dry (raised e, after) temps c z a h = absurd (cc)

  after_check-Ran :
      (r : Result Process) (patch_text : String) (w : Files Tree)
      → check patch_text w.tree ≡ r
      → (after_check g r patch_text w).0 ≡ ok true
      → Ran patch_text w.tree (after_check g r patch_text w).1.tree
  unfolding after_check
  after_check-Ran (ok p) patch_text w c h = elim (Bool-cases (eqb p.returncode 0)) [
    | inl z ↦ rw z (
        after_apply-Ran patch_text w.tree p (apply patch_text w.tree) w.temps c (ground arith) refl
          (rw z at h))
    | inr z ↦ absurd (ground arith)
  ]
  after_check-Ran (raised e) patch_text w c h = absurd (cc)

  after_write-Ran :
      (r : Result (Unit {0})) (patch_text : String) (w : Files Tree)
      → (after_write g r patch_text w).0 ≡ ok true
      → Ran patch_text w.tree (after_write g r patch_text w).1.tree
  unfolding after_write
  after_write-Ran (ok _) patch_text w h =
      after_check-Ran (check patch_text w.tree) patch_text w refl h
  after_write-Ran (raised e) patch_text w h = absurd (cc)

  unlink-tree : (path : String) (w : Files Tree) → (unlink g path w).tree ≡ w.tree
  unlink-tree path w = ground arith

  after_mkstemp-Ran :
      (made : Result String) (patch_text : String) (w : Files Tree)
      → (after_mkstemp g made patch_text w).0 ≡ ok true
      → Ran patch_text w.tree (after_mkstemp g made patch_text w).1.tree
  unfolding after_mkstemp
  after_mkstemp-Ran (raised e) patch_text w h = absurd (cc)
  after_mkstemp-Ran (ok path) patch_text w h =
      let during : Files Tree = record w { temps = path ∷ w.temps } in
      rw (unlink-tree path (after_write g (write patch_text) patch_text during).1)
        (after_write-Ran (write patch_text) patch_text during h)

  -- If a patch is reported as applied, the dry run of git on the tree returned zero, then git
  -- applied the patch to the same tree and returned zero, and the tree is the one that git left.
  pub apply_patch_safely-Ran :
      (patch_text : String) (w : Files Tree)
      → (apply_patch_safely g patch_text w).0 ≡ ok true
      → Ran patch_text w.tree (apply_patch_safely g patch_text w).1.tree
  unfolding apply_patch_safely
  apply_patch_safely-Ran patch_text w h = elim (Bool-cases (is_blank (codes patch_text))) [
    | inl e ↦ absurd (ground arith)
    | inr e ↦ rw e (after_mkstemp-Ran mkstemp patch_text w (rw e at h))
  ]

  after_check-guards :
      (r : Result Process) (patch_text : String) (w : Files Tree)
      → ((p : Process) → r ≡ ok p → p.returncode ≢ 0)
      → (after_check g r patch_text w).1.tree ≡ w.tree
  unfolding after_check
  after_check-guards (ok p) patch_text w h = elim (Bool-cases (eqb p.returncode 0)) [
    | inl z ↦ absurd (h p refl (ground arith))
    | inr z ↦ rw z
  ]
  after_check-guards (raised e) patch_text w h = refl

  after_mkstemp-guards :
      (made : Result String) (patch_text : String) (w : Files Tree)
      → ((p : Process) → check patch_text w.tree ≡ ok p → p.returncode ≢ 0)
      → (after_mkstemp g made patch_text w).1.tree ≡ w.tree
  unfolding after_mkstemp after_write
  after_mkstemp-guards (ok path) patch_text w h =
      let during : Files Tree = record w { temps = path ∷ w.temps } in
      unlink-tree path (after_write g (write patch_text) patch_text during).1
      ∙ ground (arith, after_check-guards (check patch_text w.tree) patch_text during h)
  after_mkstemp-guards (raised e) patch_text w h = refl

  pub dry_run_guards :
      (patch_text : String) (w : Files Tree)
      → ((p : Process) → check patch_text w.tree ≡ ok p → p.returncode ≢ 0)
      → (apply_patch_safely g patch_text w).1.tree ≡ w.tree
  unfolding apply_patch_safely
  dry_run_guards patch_text w h = elim (Bool-cases (is_blank (codes patch_text))) [
    | inl e ↦ rw e
    | inr e ↦ rw e (after_mkstemp-guards mkstemp patch_text w h)
  ]
