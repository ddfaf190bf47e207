-- ===== src/Reviewer/Jsonc/Again.antt =====
-- What is left after the removal of comments has no comment any more.
use Prim.Native.Char.{Char, code}
use nitpicker_daemon.Prelude.{ℕ, String, true, false, ◌≡◌, refl, ap, arith, Bool-cases, inl, inr}
use nitpicker_daemon.Reviewer.Jsonc.{
  Mode, in_code, in_string, in_escape, line_comment, block_comment, next_is, scan_char, scan,
  strip_comments,
}

-- the mode in which the output of a mode is read
abbrev outside : Mode → Mode
outside in_string = in_string
outside in_escape = in_escape
outside _ = in_code

-- A character that is kept as code starts the output.
next_is-scan :
    (k : ℕ) (s : String)
    → next_is b'/' s ≡ false
    → next_is k s ≡ false
    → next_is k (scan in_code s) ≡ false
unfolding scan scan_char
next_is-scan k String.[] h g = refl
next_is-scan k (String.◌∷◌ c s) h g = ground arith

scan-dropped :
    (m : Mode) (c : Char) (s : String)
    → (scan_char m (code c) s).0 ≡ false
    → (outside (scan_char m (code c) s).1 ≡ outside m)
unfolding scan_char
scan-dropped in_code c s h = ground arith
scan-dropped line_comment c s h = ground arith
scan-dropped block_comment c s h = ground arith
scan-dropped _ c s h = ground arith

-- what was kept is kept again, and leads to the mode in which the rest of the output is read
scan_char-again :
    (m : Mode) (c : Char) (s : String)
    → (scan_char m (code c) s).0 ≡ true
    → scan_char (outside m) (code c) (scan (scan_char m (code c) s).1 s)
      ≡ (true, outside (scan_char m (code c) s).1)
unfolding scan_char
scan_char-again in_code c s h = ground (arith, next_is-scan b'/' s, next_is-scan b'*' s)
scan_char-again in_string c s h = ground arith
scan_char-again in_escape c s h = ground arith
scan_char-again line_comment c s h = ground arith
scan_char-again block_comment c s h = ground arith
scan_char-again _ c s h = cc

scan-scan : (m : Mode) (s : String) → scan (outside m) (scan m s) ≡ scan m s
unfolding scan
scan-scan m String.[] = refl
scan-scan m (String.◌∷◌ c s) = elim (Bool-cases (scan_char m (code c) s).0) [
  | inl kept ↦ rw kept (
      rw (scan_char-again m c s kept)
        (ap (λ (t : String). String.◌∷◌ c t) (scan-scan (scan_char m (code c) s).1 s)))
  | inr dropped ↦
      rw dropped (rw (← scan-dropped m c s dropped) (scan-scan (scan_char m (code c) s).1 s))
]

pub strip_comments-again :
    (text : String) → strip_comments (strip_comments text) ≡ strip_comments text
unfolding strip_comments
strip_comments-again text = scan-scan in_code text
