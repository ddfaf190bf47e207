-- ===== src/Reviewer/Jsonc/Lines.antt =====
-- Comments are removed within their lines: a fault that the parser reports stands in the same line
-- of the file.
use Prim.Native.Char.{Char, code}
use nitpicker_daemon.Prelude.{
  ℕ, ◌+◌, String, Bool, true, false, ◌≡◌, refl, ap, ◌∙◌, if◌then◌else◌, eqb, arith, Bool-cases, inl,
  inr,
}
use nitpicker_daemon.Reviewer.Jsonc.{
  Mode, in_code, in_string, in_escape, line_comment, block_comment, drop_to_code, drop_to_line,
  drop_to_block, next_is, scan_char, keep_char, scan, strip_comments,
}

-- `text.count("\n")`
abbrev pub newlines : String → ℕ
newlines String.[] = 0
newlines (String.◌∷◌ c s) = (if eqb (code c) b'\n' then 1 else 0) + newlines s

-- the character that a mode drops is no newline
abbrev Drops : Mode → String → Type 0
Drops drop_to_code s = next_is b'\n' s ≡ false
Drops drop_to_line s = next_is b'\n' s ≡ false
Drops drop_to_block s = next_is b'\n' s ≡ false
Drops _ s = Unit

next_is_one : (j k : ℕ) (s : String) → eqb j k ≡ false → next_is j s ≡ true → next_is k s ≡ false
next_is_one j k String.[] d h = ground arith
next_is_one j k (String.◌∷◌ c s) d h = ground arith

scan_char-Drops : (m : Mode) (c : ℕ) (s : String) → Drops (scan_char m c s).1 s
unfolding scan_char
scan_char-Drops in_code c s = ground (arith, next_is_one b'/' b'\n' s, next_is_one b'*' b'\n' s)
scan_char-Drops block_comment c s = ground (arith, next_is_one b'/' b'\n' s)
scan_char-Drops _ c s = ground arith

newline_kept :
    (m : Mode) (c : Char) (s : String)
    → Drops m (String.◌∷◌ c s)
    → eqb (code c) b'\n' ≡ true
    → (scan_char m (code c) s).0 ≡ true
unfolding scan_char
newline_kept in_code c s d h = ground arith
newline_kept in_string c s d h = ground arith
newline_kept in_escape c s d h = ground arith
newline_kept line_comment c s d h = ground arith
newline_kept block_comment c s d h = ground arith
newline_kept _ c s d h = cc

newlines-keep_char :
    (kept : Bool) (c : Char) (s : String)
    → (eqb (code c) b'\n' ≡ true → kept ≡ true)
    → newlines (keep_char kept c s) ≡ (if eqb (code c) b'\n' then 1 else 0) + newlines s
newlines-keep_char true c s h = refl
newlines-keep_char false c s h = elim (Bool-cases (eqb (code c) b'\n')) [
  | inl e ↦ cc (h e)
  | inr e ↦ rw e (omega arith)
]

newlines-scan : (m : Mode) (s : String) → Drops m s → newlines (scan m s) ≡ newlines s
unfolding scan
newlines-scan m String.[] d = refl
newlines-scan m (String.◌∷◌ c s) d =
    newlines-keep_char (scan_char m (code c) s).0 c (scan (scan_char m (code c) s).1 s)
      (newline_kept m c s d)
    ∙ ap (λ (n : ℕ). (if eqb (code c) b'\n' then 1 else 0) + n)
        (newlines-scan (scan_char m (code c) s).1 s (scan_char-Drops m (code c) s))

-- A text has as many line breaks after its comments were removed as before.
pub newlines-strip_comments : (text : String) → newlines (strip_comments text) ≡ newlines text
unfolding strip_comments
newlines-strip_comments text = newlines-scan in_code text tt
