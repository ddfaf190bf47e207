-- ===== src/Agents/Architecture/Nesting.antt =====
-- The scanner's stack of loops against a plain reading of the rule: a line is in a loop if the head
-- of a loop before it is indented less than every line after that head, this line included.
use nitpicker_daemon.Prelude.{
  ℕ, ◌<◌, ◌≤◌, String, Bool, true, false, ◌&&◌, ◌||◌, List, [], ◌∷◌, ◌≡◌, refl, sym, ap, ◌∙◌, arith,
  Bool-cases, inl, inr, if◌then◌else◌, leb, ltb, filled, among, strip_left,
}
use nitpicker_daemon.Agents.Architecture.{
  Scanner, new_scanner, leave_loops, indent_width, is_loop_header, is_skipped, has_io, is_import,
  add_if, codes_in_loop, scan_line, scan_lines,
}

-- the lines before, the last one first: how far each is indented, and whether it is a loop's head
abbrev pub History : Type 0
History = List (ℕ × Bool)

abbrev pub in_loop : ℕ → History → Bool
in_loop indent [] = false
in_loop indent ((i, head) ∷ before) =
    if ltb i indent then head || in_loop i before else in_loop indent before

-- whether a line in a loop reads or writes
abbrev pub io_in_loop : History → List String → Bool
io_in_loop before [] = false
io_in_loop before (line ∷ lines) =
    if is_skipped line
    then io_in_loop before lines
    else (in_loop (indent_width line) before && has_io line)
      || io_in_loop ((indent_width line, is_loop_header (strip_left line)) ∷ before) lines

-- the stack after the lines of a history
abbrev stack : History → List ℕ
stack [] = []
stack ((i, head) ∷ before) =
    if head then i ∷ leave_loops i (stack before) else leave_loops i (stack before)

leave_loops-again :
    (b i : ℕ) (s : List ℕ) → b ≤ i → leave_loops b (leave_loops i s) ≡ leave_loops b s
unfolding leave_loops
leave_loops-again b i [] le = refl
leave_loops-again b i (j ∷ s) le = elim (Bool-cases (leb i j)) [
  | inl e ↦ let also : leb b j ≡ true = ground arith in rw (e, also) (leave_loops-again b i s le)
  | inr e ↦ rw e
]

leave_loops-kept :
    (b i : ℕ) (s : List ℕ) → i < b → leave_loops b (leave_loops i s) ≡ leave_loops i s
unfolding leave_loops
leave_loops-kept b i [] lt = refl
leave_loops-kept b i (j ∷ s) lt = elim (Bool-cases (leb i j)) [
  | inl e ↦ rw e (leave_loops-kept b i s lt)
  | inr e ↦ let also : leb b j ≡ false = ground arith in rw e (rw also)
]

popped : (b i : ℕ) (s : List ℕ) → leb b i ≡ true → leave_loops b (i ∷ s) ≡ leave_loops b s
unfolding leave_loops
popped b i s h = rw h refl

or_assoc : (a b c : Bool) → ((a || b) || c) ≡ (a || (b || c))
or_assoc true b c = refl
or_assoc false b c = refl

filled-leave_loops :
    (b : ℕ) (before : History) → filled (leave_loops b (stack before)) ≡ in_loop b before
filled-leave_loops b [] = unfold leave_loops in refl
filled-leave_loops b ((i, true) ∷ before) = elim (Bool-cases (ltb i b)) [
  | inl e ↦ rw e (unfold leave_loops in ground arith)
  | inr e ↦
      let le : leb b i ≡ true = ground arith in
      rw e (
        ap filled (
          popped b i (leave_loops i (stack before)) le
          ∙ leave_loops-again b i (stack before) (ground arith))
        ∙ filled-leave_loops b before)
]
filled-leave_loops b ((i, false) ∷ before) = elim (Bool-cases (ltb i b)) [
  | inl e ↦
      rw e (
        ap filled (leave_loops-kept b i (stack before) (ground arith))
        ∙ filled-leave_loops i before)
  | inr e ↦ rw e (
      ap filled (leave_loops-again b i (stack before) (ground arith)) ∙ filled-leave_loops b before)
]

add_if-same :
    (b : Bool) (cs : List String) → among "ARCH001" (add_if b "ARCH002" cs) ≡ among "ARCH001" cs
add_if-same true cs = ground arith
add_if-same false cs = refl

add_if-io :
    (b : Bool) (cs : List String)
    → among "ARCH001" (add_if b "ARCH001" cs) ≡ (among "ARCH001" cs || b)
add_if-io true cs = ground arith
add_if-io false cs = ground arith

codes_in_loop-io :
    (line stripped : String) (cs : List String)
    → among "ARCH001" (codes_in_loop line stripped cs) ≡ (among "ARCH001" cs || has_io line)
unfolding codes_in_loop
codes_in_loop-io line stripped cs =
    add_if-same (is_import stripped) (add_if (has_io line) "ARCH001" cs)
    ∙ add_if-io (has_io line) cs

-- the scanner after the lines of a history
abbrev after : History → List String → Scanner
after before cs = record { loop_indents = stack before; found_codes = cs }

-- the codes that a line leaves
abbrev then_found : String → History → List String → List String
then_found line before cs =
    if filled (leave_loops (indent_width line) (stack before))
    then codes_in_loop line (strip_left line) cs
    else cs

scan_line-after :
    (line : String) (before : History) (cs : List String)
    → is_skipped line ≡ false
    → scan_line line (after before cs)
      ≡ after
          ((indent_width line, is_loop_header (strip_left line)) ∷ before)
          (then_found line before cs)
unfolding scan_line
scan_line-after line before cs h = rw h refl

scan_line-skipped : (line : String) (s : Scanner) → is_skipped line ≡ true → scan_line line s ≡ s
unfolding scan_line
scan_line-skipped line s h = rw h refl

then_found-io :
    (line : String) (before : History) (cs : List String)
    → among "ARCH001" (then_found line before cs)
      ≡ (among "ARCH001" cs || (in_loop (indent_width line) before && has_io line))
then_found-io line before cs = ground (
  arith,
  filled-leave_loops (indent_width line) before,
  codes_in_loop-io line (strip_left line) cs,
)

scan_lines-io :
    (lines : List String) (before : History) (cs : List String)
    → among "ARCH001" (scan_lines lines (after before cs)).found_codes
      ≡ (among "ARCH001" cs || io_in_loop before lines)
unfolding scan_lines
scan_lines-io [] before cs = ground arith
scan_lines-io (line ∷ lines) before cs = elim (Bool-cases (is_skipped line)) [
  | inl e ↦
      ap (λ (s : Scanner). among "ARCH001" (scan_lines lines s).found_codes)
        (scan_line-skipped line (after before cs) e)
      ∙ scan_lines-io lines before cs
      ∙ sym (rw e refl)
  | inr e ↦
      let now : History = (indent_width line, is_loop_header (strip_left line)) ∷ before in
      ap (λ (s : Scanner). among "ARCH001" (scan_lines lines s).found_codes)
        (scan_line-after line before cs e)
      ∙ scan_lines-io lines now (then_found line before cs)
      ∙ rw (e, then_found-io line before cs)
          (or_assoc (among "ARCH001" cs) _ (io_in_loop now lines))
]

-- The scanner of loops reports ARCH001 for the lines of a hunk exactly if one of them that is not
-- blank and no comment uses an input or output primitive and is in a loop: the head of a loop
-- before it is indented less than every such line after that head, this line included.
pub scan_lines-in_loop :
    (lines : List String)
    → among "ARCH001" (scan_lines lines new_scanner).found_codes ≡ io_in_loop [] lines
scan_lines-in_loop lines = scan_lines-io lines [] []
