-- ===== src/Python/Regex/Members.antt =====
-- The members of the lists of places that the search goes through.
use nitpicker_daemon.Prelude.{
  Bool, true, List, [], ◌∷◌, ◌++◌, ◌≡◌, refl, sym, ap, ◌∙◌, subst, ◌⊎◌, inl, inr, Bool-cases, keep,
  keep_yes, keep_no, filled,
}
use nitpicker_daemon.Python.Regex.{Place, flat_map}

abbrev pub In : Place → List Place → Type 0
In q [] = ⊥
In q (p ∷ ps) = (q ≡ p) ⊎ In q ps

pub In-append_left : (q : Place) (ps qs : List Place) → In q ps → In q (ps ++ qs)
In-append_left q [] qs h = absurd h
In-append_left q (p ∷ ps) qs (inl e) = inl e
In-append_left q (p ∷ ps) qs (inr h) = inr (In-append_left q ps qs h)

pub In-append_right : (q : Place) (ps qs : List Place) → In q qs → In q (ps ++ qs)
In-append_right q [] qs h = h
In-append_right q (p ∷ ps) qs h = inr (In-append_right q ps qs h)

pub In-append : (q : Place) (ps qs : List Place) → In q (ps ++ qs) → In q ps ⊎ In q qs
In-append q [] qs h = inr h
In-append q (p ∷ ps) qs (inl e) = inl (inl e)
In-append q (p ∷ ps) qs (inr h) = elim (In-append q ps qs h) [ inl a ↦ inl (inr a) | inr b ↦ inr b ]

pub In-flat_map :
    (f : Place → List Place) (m q : Place) (ps : List Place)
    → In m ps
    → In q (f m)
    → In q (flat_map f ps)
In-flat_map f m q [] h g = absurd h
In-flat_map f m q (p ∷ ps) (inl e) g =
    In-append_left q (f p) (flat_map f ps) (subst (λ x. In q (f x)) e g)
In-flat_map f m q (p ∷ ps) (inr h) g =
    In-append_right q (f p) (flat_map f ps) (In-flat_map f m q ps h g)

pub flat_map-In :
    (f : Place → List Place) (q : Place) (ps : List Place)
    → In q (flat_map f ps)
    → (m : Place) × In m ps × In q (f m)
flat_map-In f q [] h = absurd h
flat_map-In f q (p ∷ ps) h = elim (In-append q (f p) (flat_map f ps) h) [
  | inl a ↦ (p, inl refl, a)
  | inr b ↦ let (m, i, g) = flat_map-In f q ps b in (m, inr i, g)
]

pub In-keep :
    (t : Place → Bool) (q : Place) (ps : List Place) → In q ps → t q ≡ true → In q (keep t ps)
In-keep t q [] h k = absurd h
In-keep t q (p ∷ ps) (inl e) k = subst (In q) (sym (keep_yes t p ps (ap t (sym e) ∙ k))) (inl e)
In-keep t q (p ∷ ps) (inr h) k = elim (Bool-cases (t p)) [
  | inl y ↦ subst (In q) (sym (keep_yes t p ps y)) (inr (In-keep t q ps h k))
  | inr n ↦ subst (In q) (sym (keep_no t p ps n)) (In-keep t q ps h k)
]

pub keep-In : (t : Place → Bool) (q : Place) (ps : List Place) → In q (keep t ps) → In q ps
keep-In t q [] h = absurd h
keep-In t q (p ∷ ps) h = elim (Bool-cases (t p)) [
  | inl y ↦
      let kept : In q (p ∷ keep t ps) = subst (In q) (keep_yes t p ps y) h in
      elim kept [ inl e ↦ inl e | inr g ↦ inr (keep-In t q ps g) ]
  | inr n ↦ inr (keep-In t q ps (subst (In q) (keep_no t p ps n) h))
]

pub filled-In : (ps : List Place) → filled ps ≡ true → (q : Place) × In q ps
filled-In [] h = absurd (cc)
filled-In (p ∷ ps) h = (p, inl refl)

pub In-filled : (q : Place) (ps : List Place) → In q ps → filled ps ≡ true
In-filled q [] h = absurd h
In-filled q (p ∷ ps) h = refl
