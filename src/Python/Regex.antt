-- ===== src/Python/Regex.antt =====
-- The regular expressions that the source uses, by the ends of their matches: for a search it does
-- not matter in which order Python tries them, so greedy and lazy repetition are one.
pub mod Members
pub mod Meaning
use nitpicker_daemon.Prelude.{
  ℕ, zero, suc, ◌+◌, ◌-◌, Bool, true, false, not, ◌&&◌, ◌||◌, Option, none, some, List, [], ◌∷◌,
  ◌++◌, String, if◌then◌else◌, eqb, leb, ltb, codes, length, keep, filled, is_space,
}

pub data Regex : Type 0 where
  -- a character of a class
  one : (ℕ → Bool) → Regex
  empty : Regex
  seq : Regex → Regex → Regex
  alt : Regex → Regex → Regex
  star : Regex → Regex
  -- `^` and `$` with re.MULTILINE
  line_start : Regex
  line_end : Regex
  -- `^` without it
  text_start : Regex
  -- `\b`
  word_boundary : Regex
  -- `(?!r)`, and `(?<!c)` for a class
  not_ahead : Regex → Regex
  not_behind : (ℕ → Bool) → Regex

-- a place in a text: the character before it, and what follows
pub record Place : Type 0 where
  pub before : Option ℕ
  pub rest : List ℕ

-- `\w`; letters outside ASCII are left out
abbrev pub is_word : ℕ → Bool
is_word c =
    (leb b'a' c && leb c b'z')
    || (leb b'A' c && leb c b'Z')
    || (leb b'0' c && leb c b'9')
    || eqb c b'_'

abbrev pub before_is : (ℕ → Bool) → Place → Bool
before_is c p = elim p.before [ none ↦ false | some b ↦ c b ]

abbrev pub next_is : (ℕ → Bool) → List ℕ → Bool
next_is c [] = false
next_is c (b ∷ bs) = c b

abbrev pub is_newline : ℕ → Bool
is_newline c = eqb c b'\n'

abbrev pub here : Bool → Place → List Place
here true p = p ∷ []
here false p = []

abbrev pub step : (ℕ → Bool) → List ℕ → List Place
step c [] = []
step c (b ∷ bs) = if c b then record { before = some b; rest = bs } ∷ [] else []

abbrev pub at_line_start : Place → Bool
at_line_start p = elim p.before [ none ↦ true | some b ↦ is_newline b ]

abbrev pub at_text_start : Place → Bool
at_text_start p = elim p.before [ none ↦ true | some b ↦ false ]

abbrev pub at_line_end : Place → Bool
at_line_end p = elim p.rest [ [] ↦ true | b ∷ bs ↦ is_newline b ]

-- one side of the place is in a word, and the other is not
abbrev pub at_boundary : Place → Bool
at_boundary p = if before_is is_word p then not (next_is is_word p.rest) else next_is is_word p.rest

abbrev pub flat_map : (Place → List Place) → List Place → List Place
flat_map f [] = []
flat_map f (p ∷ ps) = f p ++ flat_map f ps

-- a round of a repetition that moves on
abbrev pub moves : Place → Place → Bool
moves p q = ltb (length q.rest) (length p.rest)

-- at most as many rounds as there are characters
unfoldable pub rounds : ℕ → (Place → List Place) → Place → List Place
rounds zero f p = p ∷ []
rounds (suc n) f p = p ∷ flat_map (rounds n f) (keep (moves p) (f p))

-- the places where a match from a place may end
unfoldable pub ends : Regex → Place → List Place
unfolding rounds
ends (one c) p = step c p.rest
ends empty p = p ∷ []
ends (seq r s) p = flat_map (ends s) (ends r p)
ends (alt r s) p = ends r p ++ ends s p
ends (star r) p = rounds (length p.rest) (ends r) p
ends line_start p = here (at_line_start p) p
ends line_end p = here (at_line_end p) p
ends text_start p = here (at_text_start p) p
ends word_boundary p = here (at_boundary p) p
ends (not_ahead r) p = here (not (filled (ends r p))) p
ends (not_behind c) p = here (not (before_is c p)) p

-- whether there is a match from the place before a text, or from a later one
unfoldable pub search_from : Regex → Option ℕ → List ℕ → Bool
unfolding ends
search_from r b [] = filled (ends r (record { before = b; rest = [] }))
search_from r b (c ∷ cs) =
    filled (ends r (record { before = b; rest = c ∷ cs })) || search_from r (some c) cs

-- `pattern.search(text)`, as a test
unfoldable pub search : Regex → String → Bool
unfolding search_from
search r text = search_from r none (codes text)

-- `pattern.match(text)`, as a test
unfoldable pub matches_start : Regex → String → Bool
unfolding ends
matches_start r text = filled (ends r (record { before = none; rest = codes text }))

-- How the patterns are written.
abbrev pub opt : Regex → Regex
opt r = alt r empty

abbrev pub plus : Regex → Regex
plus r = seq r (star r)

-- `r{n,m}`, with `m - n` the number of the rounds that may be left out
abbrev pub times : ℕ → ℕ → Regex → Regex
times zero zero r = empty
times zero (suc k) r = opt (seq r (times zero k r))
times (suc n) k r = seq r (times n k r)

-- `r{n,}`
abbrev pub at_least : ℕ → Regex → Regex
at_least zero r = star r
at_least (suc n) r = seq r (at_least n r)

abbrev pub seqs : List Regex → Regex
seqs [] = empty
seqs (r ∷ []) = r
seqs (r ∷ s ∷ rs) = seq r (seqs (s ∷ rs))

abbrev pub alts : List Regex → Regex
alts [] = not_ahead empty
alts (r ∷ []) = r
alts (r ∷ s ∷ rs) = alt r (alts (s ∷ rs))

abbrev letters : List ℕ → Regex
letters [] = empty
letters (c ∷ []) = one (eqb c)
letters (c ∷ d ∷ cs) = seq (one (eqb c)) (letters (d ∷ cs))

-- a text that stands for itself
abbrev pub lit : String → Regex
lit s = letters (codes s)

-- the same with re.IGNORECASE, for ASCII
abbrev folds : ℕ → ℕ → Bool
folds a b =
    eqb a b
    || ((leb b'a' a && leb a b'z') && eqb b (a - 32))
    || ((leb b'A' a && leb a b'Z') && eqb b (a + 32))

abbrev folded : List ℕ → Regex
folded [] = empty
folded (c ∷ []) = one (folds c)
folded (c ∷ d ∷ cs) = seq (one (folds c)) (folded (d ∷ cs))

abbrev pub lit_any_case : String → Regex
lit_any_case s = folded (codes s)

abbrev is_in : List ℕ → ℕ → Bool
is_in [] c = false
is_in (d ∷ ds) c = eqb d c || is_in ds c

-- `[abc]` and `[^abc]`
abbrev pub among_chars : String → Regex
among_chars s = one (is_in (codes s))

abbrev pub except_chars : String → Regex
except_chars s = one (λ c. not (is_in (codes s) c))

abbrev pub spaces : Regex
spaces = star (one is_space)

abbrev pub some_spaces : Regex
some_spaces = plus (one is_space)

abbrev pub words : Regex
words = star (one is_word)

abbrev pub some_words : Regex
some_words = plus (one is_word)

-- `.`, without re.DOTALL and with it
abbrev pub dot : Regex
dot = one (λ c. not (is_newline c))

abbrev pub anything : Regex
anything = one (λ c. true)

abbrev pub is_digit : ℕ → Bool
is_digit c = leb b'0' c && leb c b'9'
