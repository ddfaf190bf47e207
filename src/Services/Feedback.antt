-- ===== src/Services/Feedback.antt =====
-- services/feedback_svc.py: the ranges of a patch's hunks, and the record of diagnostics and code
-- actions that `FileFeedbackService` writes. Writing and replacing files are arguments.
pub mod Hunks
pub mod QuickFix
use nitpicker_daemon.Prelude.{
  ℕ, zero, suc, ◌+◌, ◌-◌, ◌*◌, String, Bool, ◌&&◌, ◌||◌, Option, none, some, List, [], ◌∷◌, ◌++◌,
  if◌then◌else◌, eqb, leb, codes, splitlines, starts_with,
}

-- an integer: `pos n` is n, `negsuc n` is minus n, minus one
pub data ℤ : Type 0 where
  pos negsuc : ℕ → ℤ

-- n minus one
abbrev pub pred : ℕ → ℤ
pred zero = negsuc 0
pred (suc n) = pos n

pub record Hunk : Type 0 where
  pub start_line : ℤ
  pub end_line : ℤ
  pub new_lines : List String

abbrev is_digit : ℕ → Bool
is_digit c = leb b'0' c && leb c b'9'

-- `\d*` and what is left, where `n` is the number read so far
unfoldable pub digits : ℕ → List ℕ → ℕ × List ℕ
digits n [] = (n, [])
digits n (c ∷ cs) =
    let rest = digits (n * 10 + (c - b'0')) cs in if is_digit c then rest else (n, c ∷ cs)

-- `(\d+)`
unfoldable pub number : List ℕ → Option (ℕ × List ℕ)
unfolding digits
number [] = none
number (c ∷ cs) = if is_digit c then some (digits 0 (c ∷ cs)) else none

-- a text that has to stand here
unfoldable pub expect : List ℕ → List ℕ → Option (List ℕ)
expect [] cs = some cs
expect (p ∷ ps) [] = none
expect (p ∷ ps) (c ∷ cs) = if eqb p c then expect ps cs else none

abbrev pub chain : {A B : Type 0} → Option A → (A → Option B) → Option B
chain none f = none
chain (some x) f = f x

-- the second number of a range, one if it is missing
unfoldable pub with_length : ℕ × List ℕ → Option ((ℕ × ℕ) × List ℕ)
unfolding number expect
with_length (n, cs) = elim (expect (codes ",") cs) [
  | none ↦ some ((n, 1), cs)
  | some more ↦ chain (number more) (λ (m, rest). some ((n, m), rest))
]

-- `(\d+)(?:,(\d+))?`
unfoldable pub number_pair : List ℕ → Option ((ℕ × ℕ) × List ℕ)
unfolding number with_length
number_pair cs = chain (number cs) with_length

-- `_HUNK_RE.match(line)`: start and length of the range in the old file
unfoldable pub hunk_header : String → Option (ℕ × ℕ)
unfolding number_pair expect
hunk_header line = chain (expect (codes "@@ -") (codes line)) λ old_part.
    chain (number_pair old_part) λ (old, more). chain (expect (codes " +") more) λ new_part.
      chain (number_pair new_part) λ (new, last). chain (expect (codes " @@") last) λ _. some old

abbrev pub tail_text : String → String
tail_text String.[] = ""
tail_text (String.◌∷◌ c s) = s

-- the new lines of a hunk, after a line of its body
unfoldable pub add_line : String → List String → List String
add_line line new_lines =
    if starts_with "-" line
    then new_lines
    else if starts_with "+" line || starts_with " " line
    then new_lines ++ tail_text line ∷ []
    else new_lines

abbrev pub flush : Option Hunk → List Hunk
flush none = []
flush (some h) = h ∷ []

new_hunk : ℕ × ℕ → Hunk
new_hunk (old_start, old_len) = record {
  start_line = pred old_start;
  end_line = pred (old_start + old_len);
  new_lines = [];
}

-- a line that is no header
body_line : String → Option Hunk → Option Hunk
unfolding add_line
body_line line none = none
body_line line (some h) = some (record h { new_lines = add_line line h.new_lines })

-- one line, where `loop` goes on from the hunk that is current then
unfoldable pub next_line :
    Option (ℕ × ℕ) → String → Option Hunk → (Option Hunk → List Hunk) → List Hunk
unfolding new_hunk body_line
next_line (some range) line current loop = flush current ++ loop (some (new_hunk range))
next_line none line current loop = loop (body_line line current)

-- the loop, from the current hunk
unfoldable pub hunks_from : Option Hunk → List String → List Hunk
unfolding next_line
hunks_from current [] = flush current
hunks_from current (line ∷ lines) =
    next_line (hunk_header line) line current (λ h. hunks_from h lines)

-- `_parse_hunk_ranges`
unfoldable pub parse_hunk_ranges : String → List Hunk
unfolding hunks_from splitlines
parse_hunk_ranges unified_diff = hunks_from none (splitlines unified_diff)
