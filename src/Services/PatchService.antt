-- ===== src/Services/PatchService.antt =====
-- services/patch_svc.py and services/verification_svc.py. The digest and the runs of `git` and `pytest` are arguments.
use Prim.Native.Char.{code}
use mathlib.Core.Option
use nitpicker_daemon.Prelude.{
  zero, suc, starts, lower, strip, codes, ◌||◌, ap, sym, ◌∙◌, Bool-cases, inl, inr, ℕ, String, Bool,
  true, false, Option, none, some, List, [], ◌∷◌, ◌==◌, ◌≡◌, ◌≢◌, refl, arith, if◌then◌else◌, eqb,
  concat, eq_iff, is_some,
}
use nitpicker_daemon.Python.Errors.{
  Result, ok, raised, Error, ErrorClass, file_not_found_error, timeout_expired,
}

pub record PatchProposal : Type 0 where
  pub patch_hash : String
  pub unified_diff : String
  pub source_file : String
  pub saved_path : Option String

-- The lazy group of `_DIFF_BLOCK_RE`: the text before the first closing fence.
or_next {ℓ} : {A : Type ℓ} → Option A → Option A → Option A
or_next (some a) o = some a
or_next none o = o

skip : ℕ → String → String
skip zero s = s
skip (suc n) String.[] = ""
skip (suc n) (String.◌∷◌ c s) = skip n s

-- a text that is a unified diff itself
bare_diff : String → Option String
bare_diff t =
    if starts (codes "---") (codes t)
      || starts (codes "+++") (codes t)
      || starts (codes "@@") (codes t)
    then some t
    else none

block_body : String → Option String
block_body String.[] = none
block_body (String.◌∷◌ c s) =
    let rest = block_body s in
    if starts (codes "```") (code c ∷ codes s)
    then some ""
    else elim rest [ none ↦ none | some t ↦ some (String.◌∷◌ c t) ]

abbrev fence : List ℕ
fence = codes "```diff"

-- `_DIFF_BLOCK_RE.search(text)`, its group without blanks at the ends. The search is
-- case-insensitive on ASCII letters.
diff_block : String → Option String
unfolding block_body or_next skip strip
diff_block String.[] = none
diff_block (String.◌∷◌ c s) =
    let rest = diff_block s in
    if starts fence (lower (code c ∷ codes s))
    then or_next (Option.map strip (block_body (skip 6 s))) rest
    else rest

-- `_extract_diff_from_text`
unfoldable pub extract_diff_from_text : String → Option String
unfolding diff_block or_next bare_diff strip
extract_diff_from_text text = or_next (diff_block text) (bare_diff (strip text))

-- what `subprocess.run` returns, as far as the services read it
pub record Process : Type 0 where
  pub returncode : ℕ
  pub stdout : String
  pub stderr : String

pub record PatchService : Type 0 where
  pub patches_dir : Option String
  pub project_root : Option String
  -- `git apply --check -`
  pub git_check : String → Result Process
  -- `hashlib.sha256(text.encode()).hexdigest()[:16]`
  pub digest : String → String

abbrev first_text : String → String → String → String
first_text a b c = if a == "" then (if b == "" then c else b) else a

-- the handlers: no `git` and no answer in time both skip the check
check_failed : ErrorClass → Error → Result (Bool × String)
check_failed file_not_found_error e = ok (true, "")
check_failed timeout_expired e = ok (true, "")
check_failed _ e = raised e

check_result : Result Process → Result (Bool × String)
unfolding check_failed
check_result (ok p) =
    if eqb p.returncode 0
    then ok (true, "")
    else ok (false, first_text p.stderr p.stdout "unknown error")
check_result (raised e) = check_failed e.kind e

unfoldable pub git_apply_check : PatchService → String → Result (Bool × String)
unfolding check_result
git_apply_check svc diff =
    if is_some svc.project_root then check_result (svc.git_check diff) else ok (true, "")

abbrev saved_in : PatchService → String → Option String
saved_in svc hash = elim svc.patches_dir [
  | none ↦ none
  | some dir ↦ some (concat (dir ∷ "/" ∷ hash ∷ ".patch" ∷ []))
]

proposal : PatchService → String → String → PatchProposal
proposal svc target diff = record {
  patch_hash = svc.digest diff;
  unified_diff = diff;
  source_file = target;
  saved_path = saved_in svc (svc.digest diff);
}

after_check :
    PatchService → String → String → Result (Bool × String) → Result (Option PatchProposal)
unfolding proposal
after_check svc target diff (ok (true, reason)) = ok (some (proposal svc target diff))
after_check svc target diff (ok (false, reason)) = ok none
after_check svc target diff (raised e) = raised e

create_from : PatchService → String → Option String → Result (Option PatchProposal)
unfolding git_apply_check after_check
create_from svc target none = ok none
create_from svc target (some diff) =
    if diff == "" then ok none else after_check svc target diff (git_apply_check svc diff)

-- the summary is a text or another value of an LLM, on which the regular expression raises
unfoldable pub create_patch : PatchService → String → String → Result (Option PatchProposal)
unfolding create_from extract_diff_from_text
create_patch svc target summary = create_from svc target (extract_diff_from_text summary)

pub record VerificationReport : Type 0 where
  pub passed : Bool
  pub returncode : Option ℕ
  pub patch_hash : String

timed_out : ErrorClass → Error → String → Result VerificationReport
timed_out timeout_expired e hash =
    ok (record { passed = false; returncode = none; patch_hash = hash })
timed_out _ e hash = raised e

-- `run` is the run of pytest; a return code of `none` is the source's -1 for a timeout
unfoldable pub verify_patch : Result Process → PatchProposal → Result VerificationReport
unfolding timed_out
verify_patch (ok p) patch = ok (record {
  passed = eqb p.returncode 0;
  returncode = some p.returncode;
  patch_hash = patch.patch_hash;
})
verify_patch (raised e) patch = timed_out e.kind e patch.patch_hash

after_check-some :
    (svc : PatchService) (target diff : String) (r : Result (Bool × String)) (patch : PatchProposal)
    → after_check svc target diff r ≡ ok (some patch)
    → (patch ≡ proposal svc target diff) × (reason : String) × (r ≡ ok (true, reason))
unfolding after_check
after_check-some svc target diff (ok (true, reason)) patch h = (cc, reason, refl)
after_check-some svc target diff (ok (false, reason)) patch h = cc
after_check-some svc target diff (raised e) patch h = cc

passed_check :
    (svc : PatchService) (diff reason : String) (p : Process)
    → is_some svc.project_root ≡ true
    → git_apply_check svc diff ≡ ok (true, reason)
    → svc.git_check diff ≡ ok p
    → p.returncode ≡ 0
unfolding git_apply_check
passed_check svc diff reason p root h ran = ground arith

create_from-checked :
    (svc : PatchService) (target : String) (o : Option String) (patch : PatchProposal) (p : Process)
    → is_some svc.project_root ≡ true
    → create_from svc target o ≡ ok (some patch)
    → svc.git_check patch.unified_diff ≡ ok p
    → (p.returncode ≡ 0)
      × (patch.unified_diff ≢ "")
      × (o ≡ some patch.unified_diff)
      × (patch.patch_hash ≡ svc.digest patch.unified_diff)
unfolding create_from proposal
create_from-checked svc target none patch p root made ran = cc
create_from-checked svc target (some diff) patch p root made ran = elim (Bool-cases (diff == "")) [
  | inl e ↦ ground arith
  | inr e ↦
      let (same_patch, reason, passed) =
        after_check-some svc target diff (git_apply_check svc diff) patch (rw e at made) in
      let same_diff : patch.unified_diff ≡ diff =
        ap (λ (q : PatchProposal). q.unified_diff) same_patch in
      (
        passed_check svc diff reason p root passed (rw same_diff at ran),
        λ blank. cc (e, (eq_iff diff "").1 (sym same_diff ∙ blank)),
        cc same_diff,
        rw same_patch,
      )
]

-- If a service with a project root makes a patch from a summary, and the run of git apply on its
-- check returned, then this run exited with zero, the diff of the patch is not empty and is the
-- one extracted from the summary, and its hash is the digest of this diff.
pub create_patch-checked :
    (svc : PatchService) (target summary : String) (patch : PatchProposal) (p : Process)
    → is_some svc.project_root ≡ true
    → create_patch svc target summary ≡ ok (some patch)
    → svc.git_check patch.unified_diff ≡ ok p
    → (p.returncode ≡ 0)
      × (patch.unified_diff ≢ "")
      × (extract_diff_from_text summary ≡ some patch.unified_diff)
      × (patch.patch_hash ≡ svc.digest patch.unified_diff)
unfolding create_patch
create_patch-checked svc target summary patch p root made ran =
    create_from-checked svc target (extract_diff_from_text summary) patch p root made ran
