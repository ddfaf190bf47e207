-- ===== src/Context.antt =====
-- context/providers/base.py: fragments of context, and the provider that puts them together. A
-- provider may change the world `W`, which holds files and the caches of providers.
pub mod Diff
pub mod History
pub mod Policy
pub mod Service
pub mod Log
pub mod Tiers
use nitpicker_daemon.Prelude.{String, List, [], ◌∷◌, ◌++◌}
use nitpicker_daemon.Python.Errors.{Result, ok, raised}
use nitpicker_daemon.Python.Json.{Dict, get_or, insert}
use nitpicker_daemon.Models.{ReviewRequest}

pub record ContextFragment : Type 0 where
  pub tier : String
  pub entries : List String
  pub metadata : Dict

abbrev pub Tiers : Type 0
Tiers = List (String × List String)

abbrev pub Provider : Type 0 → Type 0
Provider W = ReviewRequest → W → Result ContextFragment × W

-- `tiers.setdefault(fragment.tier, []).extend(fragment.entries)`
unfoldable pub add_fragment : ContextFragment → Tiers → Tiers
add_fragment f tiers = insert f.tier (get_or f.tier [] tiers ++ f.entries) tiers

module _ {W : Type 0} where
  -- a provider's answer, and what the loop does with a fragment
  unfoldable pub next_fragment :
      Result ContextFragment → (ContextFragment → Result Tiers × W) → W → Result Tiers × W
  next_fragment (ok f) rest w = rest f
  next_fragment (raised e) rest w = (raised e, w)

  -- the loop over the providers that are left
  unfoldable pub collect_from : List (Provider W) → ReviewRequest → Tiers → W → Result Tiers × W
  unfolding add_fragment next_fragment
  collect_from [] request tiers w = (ok tiers, w)
  collect_from (p ∷ providers) request tiers w =
      let (answer, w') = p request w in
      next_fragment answer (λ f. collect_from providers request (add_fragment f tiers) w') w'

  -- `CompositeContextProvider.collect`
  unfoldable pub collect : List (Provider W) → ReviewRequest → W → Result Tiers × W
  unfolding collect_from
  collect providers request w = collect_from providers request [] w
