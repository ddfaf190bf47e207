-- ===== src/Services/Feedback/Hunks.antt =====
-- The hunks of a patch that is given section by section.
use mathlib.Core.List.{append-nil, append_assoc}
use nitpicker_daemon.Prelude.{
  ℕ, ◌+◌, String, none, some, List, [], ◌∷◌, ◌++◌, map, ◌≡◌, refl, sym, ap, ◌∙◌, All, starts_with,
  splitlines, ◌||◌, if◌then◌else◌, starts, arith,
}
use nitpicker_daemon.Services.Feedback.{
  Hunk, pred, hunk_header, add_line, tail_text, next_line, new_hunk, body_line, hunks_from,
  parse_hunk_ranges,
}

-- a section of a patch: its header, and the range in it, with the lines up to the next header
pub record Section : Type 0 where
  pub header : String
  pub old_start : ℕ
  pub old_len : ℕ
  pub body : List String

abbrev pub IsSection : Section → Type 0
IsSection s =
    (hunk_header s.header ≡ some (s.old_start, s.old_len))
    × All (λ line. hunk_header line ≡ none) s.body

-- the lines of a body that stand in the new file, without their mark
abbrev pub new_lines_of : List String → List String
new_lines_of [] = []
new_lines_of (line ∷ lines) =
    if starts_with "+" line || starts_with " " line
    then tail_text line ∷ new_lines_of lines
    else new_lines_of lines

abbrev pub hunk_of : Section → Hunk
hunk_of s = record {
  start_line = pred s.old_start;
  end_line = pred (s.old_start + s.old_len);
  new_lines = new_lines_of s.body;
}

abbrev pub lines_of : List Section → List String
lines_of [] = []
lines_of (s ∷ sections) = s.header ∷ s.body ++ lines_of sections

add_line-new :
    (line : String) (start lines : List String)
    → add_line line start ++ new_lines_of lines ≡ start ++ new_lines_of (line ∷ lines)
unfolding add_line starts
add_line-new String.[] start lines = refl
add_line-new (String.◌∷◌ c s) start lines =
    ground (arith, append_assoc start (s ∷ []) (new_lines_of lines))

-- the body of a hunk, and then the lines of other sections
body-hunks :
    (body : List String) (h : Hunk) (rest : List String)
    → All (λ line. hunk_header line ≡ none) body
    → hunks_from (some h) (body ++ rest)
      ≡ hunks_from (some (record h { new_lines = h.new_lines ++ new_lines_of body })) rest
unfolding hunks_from next_line body_line
body-hunks [] h rest all =
    ap (λ lines. hunks_from (some (record h { new_lines = lines })) rest)
      (sym (append-nil h.new_lines))
body-hunks (line ∷ body) h rest (here, all) = rw here (
    body-hunks body (record h { new_lines = add_line line h.new_lines }) rest all
    ∙ ap (λ lines. hunks_from (some (record h { new_lines = lines })) rest)
        (add_line-new line h.new_lines body))

-- a section whose header was read
section-hunks :
    (s : Section) (sections : List Section) {hunks : List Hunk}
    → All (λ line. hunk_header line ≡ none) s.body
    → hunks_from (some (hunk_of s)) (lines_of sections) ≡ hunks
    → hunks_from (some (new_hunk (s.old_start, s.old_len))) (s.body ++ lines_of sections) ≡ hunks
unfolding new_hunk
section-hunks s sections body h =
    body-hunks s.body (new_hunk (s.old_start, s.old_len)) (lines_of sections) body ∙ h

hunks_from-sections :
    (h : Hunk) (sections : List Section)
    → All IsSection sections
    → hunks_from (some h) (lines_of sections) ≡ h ∷ map hunk_of sections
unfolding hunks_from next_line new_hunk
hunks_from-sections h [] all = refl
hunks_from-sections h (s ∷ sections) ((here, body), all) = rw here (
    ap (λ hunks. h ∷ hunks)
      (section-hunks s sections body (hunks_from-sections (hunk_of s) sections all)))

-- the lines before the first hunk, and then the sections
hunks_from-lines_of :
    (start : List String) (sections : List Section)
    → All (λ line. hunk_header line ≡ none) start
    → All IsSection sections
    → hunks_from none (start ++ lines_of sections) ≡ map hunk_of sections
unfolding hunks_from next_line new_hunk body_line
hunks_from-lines_of [] [] none_there all = refl
hunks_from-lines_of [] (s ∷ sections) none_there ((here, body), all) =
    rw here (section-hunks s sections body (hunks_from-sections (hunk_of s) sections all))
hunks_from-lines_of (line ∷ start) sections (here, none_there) all =
    rw here (hunks_from-lines_of start sections none_there all)

-- If the lines of a patch are lines that are no header of a hunk, and then sections, each a header
-- with a range and lines that are no header, the parser returns one hunk for each section, with
-- the range counted from zero and, without their mark, the lines of the section that stand in the
-- new file.
pub parse_hunk_ranges-lines_of :
    (unified_diff : String) (start : List String) (sections : List Section)
    → splitlines unified_diff ≡ start ++ lines_of sections
    → All (λ line. hunk_header line ≡ none) start
    → All IsSection sections
    → parse_hunk_ranges unified_diff ≡ map hunk_of sections
unfolding parse_hunk_ranges
parse_hunk_ranges-lines_of unified_diff start sections lines none_there all =
    ap (hunks_from none) lines ∙ hunks_from-lines_of start sections none_there all
