-- ===== src/Reviewer/Patch.antt =====
-- mini_reviewer.py: `_apply_patch_safely`. The working tree is a state of any type, on which git
-- acts; the temporary files are listed. That a temporary file cannot be removed is left out.
pub mod Safe
use nitpicker_daemon.Prelude.{
  String, Bool, false, not, List, ◌∷◌, ◌==◌, if◌then◌else◌, eqb, codes, is_blank, keep,
}
use nitpicker_daemon.Python.Errors.{Result, ok, raised}
use nitpicker_daemon.Services.PatchService.{Process}

-- What the function uses of the system. git reads the patch from the temporary file.
pub record Git (Tree : Type 0) : Type 0 where
  -- `tempfile.mkstemp`
  pub mkstemp : Result String
  -- `os.fdopen` and `f.write`
  pub write : String → Result (Unit {0})
  -- `git apply --check`
  pub check : String → Tree → Result Process
  -- `git apply`
  pub apply : String → Tree → Result Process × Tree

pub record Files (Tree : Type 0) : Type 0 where
  pub tree : Tree
  pub temps : List String

module _ {Tree : Type 0} (g : Git Tree) where
  open g use {mkstemp, write, check, apply}

  -- the second run of git
  after_apply : Result Process × Tree → List String → Result Bool × Files Tree
  after_apply (ok p, tree) temps = (ok (eqb p.returncode 0), record { tree = tree; temps = temps })
  after_apply (raised e, tree) temps = (raised e, record { tree = tree; temps = temps })

  after_check : Result Process → String → Files Tree → Result Bool × Files Tree
  unfolding after_apply
  after_check (ok p) patch_text w =
      if eqb p.returncode 0 then after_apply (apply patch_text w.tree) w.temps else (ok false, w)
  after_check (raised e) patch_text w = (raised e, w)

  after_write : Result (Unit {0}) → String → Files Tree → Result Bool × Files Tree
  unfolding after_check
  after_write (ok _) patch_text w = after_check (check patch_text w.tree) patch_text w
  after_write (raised e) patch_text w = (raised e, w)

  -- `finally`: the file is removed, whatever happened
  abbrev pub unlink : String → Files Tree → Files Tree
  unlink path w = if path == "" then w else record w { temps = keep (λ p. not (p == path)) w.temps }

  abbrev pub finally : String → Result Bool × Files Tree → Result Bool × Files Tree
  finally path (r, w) = (r, unlink path w)

  after_mkstemp : Result String → String → Files Tree → Result Bool × Files Tree
  unfolding after_write
  after_mkstemp (ok path) patch_text w =
      finally path (after_write (write patch_text) patch_text (record w { temps = path ∷ w.temps }))
  after_mkstemp (raised e) patch_text w = (raised e, w)

  unfoldable pub apply_patch_safely : String → Files Tree → Result Bool × Files Tree
  unfolding after_mkstemp
  apply_patch_safely patch_text w =
      if is_blank (codes patch_text) then (ok false, w) else after_mkstemp mkstemp patch_text w
