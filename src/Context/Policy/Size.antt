-- ===== src/Context/Policy/Size.antt =====
-- How long the rules are that `PolicyProvider` puts into a context.
use Prim.Native.Char.{Char, code}
use nitpicker_daemon.Prelude.{
  ℕ, suc, ◌+◌, ◌≤◌, String, Bool, true, false, Option, none, some, List, [], ◌∷◌, ◌==◌, ◌&&◌, ◌≡◌,
  refl, sym, ap, ◌∙◌, if◌then◌else◌, ltb, arith, concat, strip, strip_left, strip_right,
  text_length, length-concat, is_space,
}
use nitpicker_daemon.Python.Errors.{Result, ok, raised, ◌>>=◌, bind-eq-ok}
use nitpicker_daemon.Context.Policy.{
  RuleFile, max_total_size, cut_content, readable, is_rule, rule_entry, add_rule, rules_from,
  PolicyProvider, Folders, load_rules, load_rules_of, kept_rules, cached_rules,
}

length-strip_left-le : (s : String) → text_length (strip_left s) ≤ text_length s
unfolding strip_left
length-strip_left-le String.[] = omega arith
length-strip_left-le (String.◌∷◌ c s) = ground (arith, length-strip_left-le s)

length-cut-le :
    (b : Bool) (c : Char) (s : String) {n : ℕ}
    → text_length s ≤ n
    → text_length (if b then "" else String.◌∷◌ c s) ≤ suc n
length-cut-le true c s h = omega arith
length-cut-le false c s h = omega arith

length-strip_right-le : (s : String) → text_length (strip_right s) ≤ text_length s
unfolding strip_right
length-strip_right-le String.[] = omega arith
length-strip_right-le (String.◌∷◌ c s) =
    length-cut-le (is_space (code c) && strip_right s == "") c (strip_right s)
      (length-strip_right-le s)

length-strip-le : (s : String) → text_length (strip s) ≤ text_length s
unfolding strip
length-strip-le s = omega (arith, length-strip_left-le s, length-strip_right-le (strip_left s))

-- the length of the heading of a rule: `[Rule: `, its name, `]` and a line break
abbrev pub heading : RuleFile → ℕ
heading f = 9 + text_length f.name

abbrev pub headings : List RuleFile → ℕ
headings [] = 0
headings (f ∷ files) = heading f + headings files

abbrev pub headings_of : Option (List RuleFile) → ℕ
headings_of none = 0
headings_of (some files) = headings files

abbrev pub total_length : List String → ℕ
total_length [] = 0
total_length (s ∷ ss) = text_length s + total_length ss

length-concat-nil : text_length (concat []) ≡ 0
unfolding concat
length-concat-nil = refl

length-rule_entry-le :
    (f : RuleFile) (content : String)
    → text_length (rule_entry f.name content) ≤ heading f + text_length content
unfolding rule_entry
length-rule_entry-le f content =
    let tail : List String = strip content ∷ [] in
    omega (
      arith,
      length-concat "[Rule: " (f.name ∷ "]\n" ∷ tail),
      length-concat f.name ("]\n" ∷ tail),
      length-concat "]\n" tail,
      length-concat (strip content) [],
      length-concat-nil,
      length-strip-le content,
    )

-- what a loop over files keeps to, from any size that is not too large
abbrev Fits : (ℕ → Result (List String)) → ℕ → Type 0
Fits loop room =
    (total : ℕ) (entries : List String)
    → total ≤ max_total_size
    → loop total ≡ ok entries
    → total + total_length entries ≤ max_total_size + room

next_rule-Fits :
    (over : Bool) (f : RuleFile) (content : String) (loop : ℕ → Result (List String)) (room : ℕ)
    → Fits loop room
    → (total : ℕ) (entries : List String) → total ≤ max_total_size
    → ltb max_total_size (total + text_length content) ≡ over
    → (if over
        then ok []
        else (loop (total + text_length content) >>= λ rest. ok (rule_entry f.name content ∷ rest)))
      ≡ ok entries
    → total + total_length entries ≤ max_total_size + (heading f + room)
next_rule-Fits true f content loop room fits total entries small over h =
    let same : total_length [] ≡ total_length entries = cc in omega arith
next_rule-Fits false f content loop room fits total entries small over h =
    let (rest, went, made) = bind-eq-ok (loop (total + text_length content)) _ h in
    let same : total_length (rule_entry f.name content ∷ rest) ≡ total_length entries = cc in
    let fitting : total + text_length content ≤ max_total_size = ground arith in
    omega
      (arith, fits (total + text_length content) rest fitting went, length-rule_entry-le f content)

add_rule-Fits :
    (rule : Bool) (f : RuleFile) (found : Result (Option String)) (loop : ℕ → Result (List String))
    (room : ℕ)
    → Fits loop room
    → Fits (λ total. add_rule rule f found total loop) (heading f + room)
unfolding add_rule
add_rule-Fits false f found loop room fits total entries small h =
    omega (arith, fits total entries small h)
add_rule-Fits true f (raised e) loop room fits total entries small h = absurd (cc)
add_rule-Fits true f (ok none) loop room fits total entries small h =
    omega (arith, fits total entries small h)
add_rule-Fits true f (ok (some content)) loop room fits total entries small h =
    let size : ℕ = total + text_length (cut_content content) in
    next_rule-Fits (ltb max_total_size size) f (cut_content content) loop room fits total entries
      small refl h

rules_from-Fits : (files : List RuleFile) → Fits (λ total. rules_from total files) (headings files)
unfolding rules_from
rules_from-Fits [] total entries small h =
    let same : total_length [] ≡ total_length entries = cc in omega arith
rules_from-Fits (f ∷ files) total entries small h =
    add_rule-Fits (is_rule f) f (readable f.content) (λ size. rules_from size files)
      (headings files) (rules_from-Fits files) total entries small h

module _ (folders : Folders) where
  load_rules_of-total :
      (files : Option (List RuleFile)) (entries : List String)
      → load_rules_of folders files ≡ ok entries
      → total_length entries ≤ max_total_size + headings_of files
  unfolding load_rules_of
  load_rules_of-total none entries h =
      let same : total_length [] ≡ total_length entries = cc in omega arith
  load_rules_of-total (some files) entries h =
      omega (arith, rules_from-Fits files 0 entries (omega arith) h)

  kept_rules-answer :
      (answer : Result (List String)) (p : PolicyProvider) (entries : List String)
      → (kept_rules folders answer p).0 ≡ ok entries
      → answer ≡ ok entries
  unfolding kept_rules
  kept_rules-answer (ok rules) p entries h = h
  kept_rules-answer (raised e) p entries h = h

  -- If no rules are cached and the rules are loaded, the entries have together at most 32768
  -- characters and the headings of the files.
  pub load_rules-total :
      (p : PolicyProvider) (entries : List String)
      → p.rules_cache ≡ none
      → (load_rules folders p).0 ≡ ok entries
      → total_length entries ≤ max_total_size + headings_of folders.rules
  unfolding load_rules cached_rules
  load_rules-total p entries fresh h = load_rules_of-total folders.rules entries (
      kept_rules-answer (load_rules_of folders folders.rules) p entries
        (sym (ap (λ cache. (cached_rules folders cache p).0) fresh) ∙ h))
