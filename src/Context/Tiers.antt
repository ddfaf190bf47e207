-- ===== src/Context/Tiers.antt =====
-- What `CompositeContextProvider.collect` puts into a tier.
use nitpicker_daemon.Prelude.{
  String, List, [], ◌∷◌, ◌++◌, ◌≡◌, sym, subst, ◌∙◌, ◌==◌, if◌then◌else◌, arith, eq_iff,
}
use mathlib.Core.List.{append-nil, append_assoc}
use nitpicker_daemon.Python.Errors.{Result, ok, raised}
use nitpicker_daemon.Python.Json.{get_or, lookup-insert}
use nitpicker_daemon.Models.{ReviewRequest}
use nitpicker_daemon.Context.{
  ContextFragment, Tiers, Provider, add_fragment, next_fragment, collect_from, collect,
}

-- the entries of the fragments of a tier, in their order
abbrev pub entries_of : String → List ContextFragment → List String
entries_of t [] = []
entries_of t (f ∷ fs) = if f.tier == t then f.entries ++ entries_of t fs else entries_of t fs

get_or-add :
    (f : ContextFragment) (tiers : Tiers) (t : String)
    → get_or t [] (add_fragment f tiers)
      ≡ (if f.tier == t then get_or t [] tiers ++ f.entries else get_or t [] tiers)
unfolding add_fragment
get_or-add f tiers t =
    ground
      (arith, lookup-insert f.tier t (get_or f.tier [] tiers ++ f.entries) tiers, eq_iff f.tier t)

abbrev pub cons_answer : Result ContextFragment → List ContextFragment → List ContextFragment
cons_answer (ok f) fs = f ∷ fs
cons_answer (raised e) fs = []

module _ {W : Type 0} where
  -- the fragments that providers give one after the other, up to the first that raises
  abbrev pub fragments : List (Provider W) → ReviewRequest → W → List ContextFragment
  fragments [] request w = []
  fragments (p ∷ providers) request w =
      cons_answer (p request w).0 (fragments providers request (p request w).1)

  abbrev Adds : (Tiers → Result Tiers × W) → List ContextFragment → Type 0
  Adds loop fs =
      (start : Tiers) (tiers : Tiers) (t : String)
      → (loop start).0 ≡ ok tiers
      → get_or t [] tiers ≡ get_or t [] start ++ entries_of t fs

  next_fragment-Adds :
      (answer : Result ContextFragment) (loop : Tiers → Result Tiers × W)
      (fs : List ContextFragment) (w : W)
      → Adds loop fs
      → Adds
          (λ start. next_fragment answer (λ f. loop (add_fragment f start)) w)
          (cons_answer answer fs)
  unfolding next_fragment
  next_fragment-Adds (ok f) loop fs w adds start tiers t h =
      adds (add_fragment f start) tiers t h
      ∙ ground (
        arith,
        get_or-add f start t,
        append_assoc (get_or t [] start) f.entries (entries_of t fs),
      )
  next_fragment-Adds (raised e) loop fs w adds start tiers t h = absurd (cc)

  collect_from-Adds :
      (providers : List (Provider W)) (request : ReviewRequest) (w : W)
      → Adds (λ start. collect_from providers request start w) (fragments providers request w)
  unfolding collect_from
  collect_from-Adds [] request w start tiers t h =
      let same : start ≡ tiers = cc in
      subst (λ x. get_or t [] x ≡ get_or t [] start ++ []) same
        (sym (append-nil (get_or t [] start)))
  collect_from-Adds (p ∷ providers) request w start tiers t h =
      next_fragment-Adds (p request w).0
        (λ start. collect_from providers request start (p request w).1)
        (fragments providers request (p request w).1) (p request w).1
        (collect_from-Adds providers request (p request w).1) start tiers t h

  -- If all providers answer, a tier holds the entries of the fragments of this tier, in the order
  -- of the providers, each asked in the world that the one before left.
  pub collect-entries :
      (providers : List (Provider W)) (request : ReviewRequest) (w : W) {tiers : Tiers}
      → (collect providers request w).0 ≡ ok tiers
      → (t : String) → get_or t [] tiers ≡ entries_of t (fragments providers request w)
  unfolding collect
  collect-entries providers request w {tiers} h t =
      collect_from-Adds providers request w [] tiers t h
