-- ===== src/Python/Regex/Meaning.antt =====
-- What a match is, and that the search finds it exactly if there is one.
use nitpicker_daemon.Prelude.{
  ℕ, zero, suc, ◌≤◌, ◌<◌, Bool, true, false, not, Option, none, some, List, [], ◌∷◌, ◌≡◌, refl, sym,
  subst, arith, ◌⊎◌, inl, inr, ◌↔◌, Bool-cases, length, keep, filled, String, codes,
}
use nitpicker_daemon.Python.Regex.{
  Regex, one, empty, seq, alt, star, line_start, line_end, text_start, word_boundary, not_ahead,
  not_behind, Place, before_is, here, step, at_line_start, at_line_end, at_text_start, at_boundary,
  moves, rounds, ends, search_from, search,
}
use nitpicker_daemon.Python.Regex.Members.{
  In, In-append_left, In-append_right, In-append, In-flat_map, flat_map-In, In-keep, keep-In,
  filled-In, In-filled,
}

-- any number of rounds
pub data Rounds (R : Place → Place → Type 0) : Place → Place → Type 0 where
  done : {p : Place} → Rounds R p p
  again : {p q s : Place} → R p q → Rounds R q s → Rounds R p s

-- the pattern matches the text between two places
abbrev pub Matches : Regex → Place → Place → Type 0
Matches (one c) p q =
    (b : ℕ) × (bs : List ℕ) × (p.rest ≡ b ∷ bs)
    × (c b ≡ true)
    × (q ≡ record { before = some b; rest = bs })
Matches empty p q = q ≡ p
Matches (seq r s) p q = (m : Place) × Matches r p m × Matches s m q
Matches (alt r s) p q = Matches r p q ⊎ Matches s p q
Matches (star r) p q = Rounds (Matches r) p q
Matches line_start p q = (q ≡ p) × (at_line_start p ≡ true)
Matches line_end p q = (q ≡ p) × (at_line_end p ≡ true)
Matches text_start p q = (q ≡ p) × (at_text_start p ≡ true)
Matches word_boundary p q = (q ≡ p) × (at_boundary p ≡ true)
Matches (not_ahead r) p q = (q ≡ p) × ((m : Place) → Matches r p m → ⊥)
Matches (not_behind c) p q = (q ≡ p) × (before_is c p ≡ false)

-- a place is reached by moving on, or it is the same place
abbrev Moves : Place → Place → Type 0
Moves p q = (length q.rest < length p.rest) ⊎ (q ≡ p)

Moves-trans : (p q s : Place) → Moves p q → Moves q s → Moves p s
Moves-trans p q s (inl a) (inl b) = inl (omega arith)
Moves-trans p q s (inl a) (inr e) = inl (subst (λ x. length x.rest < length p.rest) (sym e) a)
Moves-trans p q s (inr e) h = subst (λ x. Moves x s) e h

Rounds-Moves :
    {R : Place → Place → Type 0}
    → ((p q : Place) → R p q → Moves p q)
    → {p s : Place} → Rounds R p s
    → Moves p s
Rounds-Moves each done = inr refl
Rounds-Moves each (again {p} {q} {s} h rest) =
    Moves-trans p q s (each p q h) (Rounds-Moves each rest)

Matches-Moves : (r : Regex) (p q : Place) → Matches r p q → Moves p q
Matches-Moves (one c) p q (b, bs, e, ok, to) = inl (ground arith)
Matches-Moves empty p q h = inr h
Matches-Moves (seq r s) p q (m, h, g) =
    Moves-trans p m q (Matches-Moves r p m h) (Matches-Moves s m q g)
Matches-Moves (alt r s) p q (inl h) = Matches-Moves r p q h
Matches-Moves (alt r s) p q (inr h) = Matches-Moves s p q h
Matches-Moves (star r) p q h = Rounds-Moves (Matches-Moves r) h
Matches-Moves line_start p q h = inr h.0
Matches-Moves line_end p q h = inr h.0
Matches-Moves text_start p q h = inr h.0
Matches-Moves word_boundary p q h = inr h.0
Matches-Moves (not_ahead r) p q h = inr h.0
Matches-Moves (not_behind c) p q h = inr h.0

rounds-sound :
    (n : ℕ) (f : Place → List Place) (R : Place → Place → Type 0) (p q : Place)
    → ((p q : Place) → In q (f p) → R p q)
    → In q (rounds n f p)
    → Rounds R p q
unfolding rounds
rounds-sound zero f R p q each (inl e) = subst (Rounds R p) (sym e) done
rounds-sound zero f R p q each (inr h) = absurd h
rounds-sound (suc n) f R p q each (inl e) = subst (Rounds R p) (sym e) done
rounds-sound (suc n) f R p q each (inr h) =
    let (m, i, g) = flat_map-In (rounds n f) q (keep (moves p) (f p)) h in
    again (each p m (keep-In (moves p) m (f p) i)) (rounds-sound n f R m q each g)

further :
    (f : Place → List Place) (R : Place → Place → Type 0)
    → ((p q : Place) → R p q → In q (f p))
    → (n : ℕ) (p q s : Place) → R p q
    → Moves p q
    → length p.rest ≤ n
    → ((n : ℕ) → length q.rest ≤ n → In s (rounds n f q))
    → In s (rounds n f p)
unfolding rounds
further f R each zero p q s h (inl lt) le later = absurd (omega arith)
further f R each (suc n) p q s h (inl lt) le later = inr (
    In-flat_map (rounds n f) q s (keep (moves p) (f p))
      (In-keep (moves p) q (f p) (each p q h) (ground arith)) (later n (omega arith)))
further f R each n p q s h (inr e) le later = subst (λ x. In s (rounds n f x)) e (later n (rw e le))

In-rounds : (n : ℕ) (f : Place → List Place) (p : Place) → In p (rounds n f p)
unfolding rounds
In-rounds zero f p = inl refl
In-rounds (suc n) f p = inl refl

rounds_complete :
    (f : Place → List Place) (R : Place → Place → Type 0)
    → ((p q : Place) → R p q → In q (f p))
    → ((p q : Place) → R p q → Moves p q)
    → {p s : Place} → Rounds R p s
    → (n : ℕ) → length p.rest ≤ n
    → In s (rounds n f p)
rounds_complete f R each forward (done {p}) n le = In-rounds n f p
rounds_complete f R each forward (again {p} {q} {s} h rest) n le =
    further f R each n p q s h (forward p q h) le (rounds_complete f R each forward rest)

abbrev IsFound : Regex → Type 0
IsFound r =
    ((p q : Place) → In q (ends r p) → Matches r p q)
    × ((p q : Place) → Matches r p q → In q (ends r p))

here_sound : (b : Bool) (p q : Place) → In q (here b p) → (q ≡ p) × (b ≡ true)
here_sound true p q (inl e) = (e, refl)
here_sound true p q (inr h) = absurd h
here_sound false p q h = absurd h

here_complete : (b : Bool) (p q : Place) → q ≡ p → b ≡ true → In q (here b p)
here_complete true p q e h = inl e
here_complete false p q e h = absurd (cc)

step_sound : (c : ℕ → Bool) (p q : Place) → In q (step c p.rest) → Matches (one c) p q
step_sound c p q h = go p.rest refl h
  where
    go : (bs : List ℕ) → p.rest ≡ bs → In q (step c bs) → Matches (one c) p q
    go [] e h = absurd h
    go (b ∷ bs) e h = elim (Bool-cases (c b)) [
      | inl y ↦
          let found : In q (record { before = some b; rest = bs } ∷ []) = rw y at h in
          elim found [ inl to ↦ (b, bs, e, y, to) | inr g ↦ absurd g ]
      | inr n ↦ absurd (let none_found : ⊥ = rw n at h in none_found)
    ]

step_complete : (c : ℕ → Bool) (p q : Place) → Matches (one c) p q → In q (step c p.rest)
step_complete c p q (b, bs, e, y, to) = rw e (rw y (inl to))

-- The search finds the matches, and nothing else.
ends-IsFound : (r : Regex) → IsFound r
unfolding ends
ends-IsFound (one c) = (step_sound c, step_complete c)
ends-IsFound empty = (λ p q. λ h. elim h [ inl e ↦ e | inr g ↦ absurd g ], λ p q. λ h. inl h)
ends-IsFound (seq r s) =
    let (r_sound, r_complete) = ends-IsFound r in
    let (s_sound, s_complete) = ends-IsFound s in
    (
      λ p q h.
          let (m, i, g) = flat_map-In (ends s) q (ends r p) h in (m, r_sound p m i, s_sound m q g),
      λ p q h. In-flat_map (ends s) h.0 q (ends r p) (r_complete p h.0 h.1) (s_complete h.0 q h.2),
    )
ends-IsFound (alt r s) =
    let (r_sound, r_complete) = ends-IsFound r in
    let (s_sound, s_complete) = ends-IsFound s in
    (
      λ p q h. elim (In-append q (ends r p) (ends s p) h) [
        | inl a ↦ inl (r_sound p q a)
        | inr b ↦ inr (s_sound p q b)
      ],
      λ p q h. elim h [
        | inl a ↦ In-append_left q (ends r p) (ends s p) (r_complete p q a)
        | inr b ↦ In-append_right q (ends r p) (ends s p) (s_complete p q b)
      ],
    )
ends-IsFound (star r) =
    let (sound, complete) = ends-IsFound r in
    (
      λ p q h. rounds-sound (length p.rest) (ends r) (Matches r) p q sound h,
      λ p q h.
          rounds_complete (ends r) (Matches r) complete (Matches-Moves r) h (length p.rest)
            (omega arith),
    )
ends-IsFound line_start = (λ p q h. here_sound _ p q h, λ p q h. here_complete _ p q h.0 h.1)
ends-IsFound line_end = (λ p q h. here_sound _ p q h, λ p q h. here_complete _ p q h.0 h.1)
ends-IsFound text_start = (λ p q h. here_sound _ p q h, λ p q h. here_complete _ p q h.0 h.1)
ends-IsFound word_boundary = (λ p q h. here_sound _ p q h, λ p q h. here_complete _ p q h.0 h.1)
ends-IsFound (not_ahead r) =
    let (sound, complete) = ends-IsFound r in
    (
      λ p q h.
          let (e, no_match) = here_sound (not (filled (ends r p))) p q h in
          (e, λ m g. cc (no_match, In-filled m (ends r p) (complete p m g))),
      λ p q h.
          here_complete (not (filled (ends r p))) p q h.0 (elim (Bool-cases (filled (ends r p))) [
            | inl some_match ↦
                let (m, i) = filled-In (ends r p) some_match in absurd (h.1 m (sound p m i))
            | inr none_there ↦ rw none_there
          ]),
    )
ends-IsFound (not_behind c) = (
  λ p q h. let (e, b) = here_sound (not (before_is c p)) p q h in (e, ground arith),
  λ p q h. here_complete (not (before_is c p)) p q h.0 (ground arith),
)

-- the places of a text
abbrev pub At : Option ℕ → List ℕ → Place → Type 0
At b [] p = p ≡ record { before = b; rest = [] }
At b (c ∷ cs) p = (p ≡ record { before = b; rest = c ∷ cs }) ⊎ At (some c) cs p

-- the pattern matches somewhere in a text
abbrev pub Occurs : Regex → Option ℕ → List ℕ → Type 0
Occurs r b cs = (p : Place) × (q : Place) × At b cs p × Matches r p q

filled-Matches : (r : Regex) (p : Place) → filled (ends r p) ≡ true → (q : Place) × Matches r p q
filled-Matches r p h = let (q, i) = filled-In (ends r p) h in (q, (ends-IsFound r).0 p q i)

search_from_sound :
    (r : Regex) (b : Option ℕ) (cs : List ℕ) → search_from r b cs ≡ true → Occurs r b cs
unfolding search_from
search_from_sound r b [] h =
    let (q, m) = filled-Matches r (record { before = b; rest = [] }) h in
    (record { before = b; rest = [] }, q, refl, m)
search_from_sound r b (c ∷ cs) h =
    let here_place : Place = record { before = b; rest = c ∷ cs } in
    elim (Bool-cases (filled (ends r here_place))) [
      | inl y ↦ let (q, m) = filled-Matches r here_place y in (here_place, q, inl refl, m)
      | inr n ↦
          let (p, q, a, m) = search_from_sound r (some c) cs (ground arith) in (p, q, inr a, m)
    ]

search_from_complete :
    (r : Regex) (b : Option ℕ) (cs : List ℕ) → Occurs r b cs → search_from r b cs ≡ true
unfolding search_from
search_from_complete r b [] (p, q, a, m) =
    In-filled q _ ((ends-IsFound r).1 _ q (subst (λ x. Matches r x q) a m))
search_from_complete r b (c ∷ cs) (p, q, inl a, m) =
    rw (In-filled q _ ((ends-IsFound r).1 _ q (subst (λ x. Matches r x q) a m))) refl
search_from_complete r b (c ∷ cs) (p, q, inr a, m) =
    let later = search_from_complete r (some c) cs (p, q, a, m) in ground arith

-- The search says yes exactly if the pattern matches somewhere in the text.
pub search-Occurs :
    (r : Regex) (text : String) → (search r text ≡ true) ↔ Occurs r none (codes text)
unfolding search
search-Occurs r text =
    (search_from_sound r none (codes text), search_from_complete r none (codes text))
