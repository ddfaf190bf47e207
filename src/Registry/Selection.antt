-- ===== src/Registry/Selection.antt =====
-- What the registry chooses.
use nitpicker_daemon.Prelude.{
  String, false, List, [], ◌∷◌, ◌≡◌, refl, keep, Bool-cases, inl, inr, not, ap, All, ◌==◌, eq_iff,
}
use nitpicker_daemon.Python.Json.{insert}
use nitpicker_daemon.Registry.{AgentManifest, AgentRegistry, register, serves, select}

module _ (Agent : Type 0) where
  abbrev Absent : String → AgentRegistry Agent → Type 0
  Absent name = All (λ x. (x.0 == name) ≡ false)

  -- the keys of a dictionary
  abbrev pub DistinctNames : AgentRegistry Agent → Type 0
  DistinctNames [] = Unit
  DistinctNames (x ∷ rest) = Absent x.0 rest × DistinctNames rest

  abbrev pub without : String → AgentRegistry Agent → AgentRegistry Agent
  without name entries = keep (λ x. not (x.0 == name)) entries

  without-Absent :
      (name : String) (entries : AgentRegistry Agent)
      → Absent name entries
      → without name entries ≡ entries
  without-Absent name [] h = refl
  without-Absent name (x ∷ rest) h = rw (keep, h.0) (ap (λ r. x ∷ r) (without-Absent name rest h.1))

  -- In a registry whose names are distinct, to register a disabled manifest is, for every choice
  -- of agents, the same as to remove what is registered under its name.
  pub register_disabled :
      (profile intent : String) (required : List String) (m : AgentManifest) (agent : Agent)
      (entries : AgentRegistry Agent)
      → DistinctNames entries
      → m.enabled ≡ false
      → select Agent profile intent required (register Agent m agent entries)
        ≡ select Agent profile intent required (without m.name entries)
  unfolding select register insert serves
  register_disabled profile intent required m agent [] d off = rw off
  register_disabled profile intent required m agent ((j, w) ∷ rest) d off =
      elim (Bool-cases (j == m.name)) [
        | inl e ↦
            let absent : Absent m.name rest = rw (← (eq_iff j m.name).0 e) d.0 in
            rw (keep, e, off, without-Absent m.name rest absent)
        | inr e ↦ rw (keep, e, register_disabled profile intent required m agent rest d.1 off)
      ]
