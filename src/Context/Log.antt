-- ===== src/Context/Log.antt =====
-- The scan of the review log that services/context_svc.py and context/providers/history_provider.py
-- share: the lines from the last one on, each of which may be a record that is looked for.
use nitpicker_daemon.Prelude.{
  ℕ, zero, suc, ◌-◌, String, Bool, false, Option, none, some, List, [], ◌∷◌, ◌==◌, ◌≡◌, refl, sym,
  ap, ◌∙◌, if◌then◌else◌, leb, take, All, arith, strip,
}
use nitpicker_daemon.Python.Errors.{Result, ok, raised, is_value_error, fail, attribute_error}
use nitpicker_daemon.Python.Json.{Json, obj, Dict, fields}

-- what a line of the log holds, if it can be read; only errors of the parser are caught
unfoldable pub parsed_record : Result Json → Result (Option Json)
parsed_record (ok v) = ok (some v)
parsed_record (raised e) = if is_value_error e.kind then ok none else raised e

-- `json.loads(line)` for a line that is not blank
unfoldable pub read_line : (String → Result Json) → String → Result (Option Json)
unfolding parsed_record
read_line loads line = if strip line == "" then ok none else parsed_record (loads (strip line))

-- `record.get`, which only a dictionary has
abbrev pub as_record : Json → Result Dict
as_record (obj fs) = ok (fields fs)
as_record _ = fail attribute_error "object has no attribute 'get'"

-- at least one match is taken, since the test for the limit comes after a match was added
abbrev pub at_least_one : ℕ → ℕ
at_least_one zero = 1
at_least_one (suc n) = suc n

module _ {ℓ} {A : Type ℓ} where
  cons_ok : A → Result (List A) → Result (List A)
  cons_ok x (ok xs) = ok (x ∷ xs)
  cons_ok x (raised e) = raised e

  add_match : Result (Option A) → Bool → Result (List A) → Result (List A) → Result (List A)
  unfolding cons_ok
  add_match (ok none) last rest later = later
  add_match (ok (some x)) last rest later = if last then ok (x ∷ []) else cons_ok x rest
  add_match (raised e) last rest later = raised e

  -- The loop over the lines: `left` is how many matches are still wanted, where the test for this
  -- comes after a match was added.
  unfoldable pub first_matches : (String → Result (Option A)) → ℕ → List String → Result (List A)
  unfolding add_match
  first_matches match left [] = ok []
  first_matches match left (line ∷ lines) =
      let rest = first_matches match (left - 1) lines in
      let later = first_matches match left lines in add_match (match line) (leb left 1) rest later

  -- the records of all lines, for a test that raises nothing
  abbrev pub matches : (String → Option A) → List String → List A
  matches f [] = []
  matches f (line ∷ lines) = elim (f line) [ none ↦ matches f lines | some x ↦ x ∷ matches f lines ]

  take-empty : (n : ℕ) → take {A = A} n [] ≡ []
  take-empty zero = refl
  take-empty (suc n) = refl

  add_match-take :
      (found : Option A) (left : ℕ) (xs : List A) {rest later : Result (List A)}
      → rest ≡ ok (take (at_least_one (left - 1)) xs)
      → later ≡ ok (take (at_least_one left) xs)
      → add_match (ok found) (leb left 1) rest later
        ≡ ok (take (at_least_one left) (elim found [ none ↦ xs | some x ↦ x ∷ xs ]))
  unfolding add_match cons_ok
  add_match-take none left xs h k = k
  add_match-take (some x) zero xs h k = refl
  add_match-take (some x) (suc zero) xs h k = refl
  add_match-take (some x) (suc (suc n)) xs {rest} h k =
      let more : leb (suc (suc n)) 1 ≡ false = ground arith in
      let less : suc (suc n) - 1 ≡ suc n = omega arith in
      let taken : rest ≡ ok (take (suc n) xs) = h ∙ ap (λ m. ok (take (at_least_one m) xs)) less in
      rw more (rw taken refl)

  pub first_matches-take :
      (match : String → Result (Option A)) (f : String → Option A) (left : ℕ) (lines : List String)
      → All (λ line. match line ≡ ok (f line)) lines
      → first_matches match left lines ≡ ok (take (at_least_one left) (matches f lines))
  unfolding first_matches
  first_matches-take match f left [] all = ap ok (sym (take-empty (at_least_one left)))
  first_matches-take match f left (line ∷ lines) (here, later) = rw here (
      add_match-take (f line) left (matches f lines)
        (first_matches-take match f (left - 1) lines later)
        (first_matches-take match f left lines later))
