-- ===== src/Context/Service.antt =====
-- services/context_svc.py, `StaticContextService`. The digest is an argument; the log of reviews is
-- given by what reading it returns.
pub mod Refinement
pub mod Stale
pub mod Similar
use Prim.Native.Char.{code}
use Prim.Native.String
use nitpicker_daemon.Prelude.{
  ℕ, ◌+◌, String, Bool, true, false, not, ◌||◌, Option, none, some, List, [], ◌∷◌, ◌++◌, ◌==◌,
  if◌then◌else◌, eqb, leb, codes, concat, join, length, is_space, starts_with, keep,
}
use nitpicker_daemon.Python.Errors.{Result, ok, raised}
use nitpicker_daemon.Python.Json.{str, lookup, insert, has_key}
use nitpicker_daemon.Models.{ReviewRequest, ContextBundle}
use nitpicker_daemon.Context.{Tiers, Provider, collect}

abbrev pub Cache : Type 0
Cache = List (String × ContextBundle)

pub record ContextService (W : Type 0) : Type 0 where
  pub providers : List (Provider W)
  pub cache : Cache
  pub cache_enabled : Bool

-- `tiers.setdefault(tier_name, [])`
abbrev with_slot : String → Tiers → Tiers
with_slot t tiers = if has_key t tiers then tiers else tiers ++ (t, []) ∷ []

abbrev with_slots : Tiers → Tiers
with_slots tiers =
    with_slot "tier4" (with_slot "tier3" (with_slot "tier2" (with_slot "tier1" tiers)))

-- the entries of all tiers, in their order
abbrev all_entries : Tiers → List String
all_entries [] = []
all_entries ((t, entries) ∷ tiers) = entries ++ all_entries tiers

-- `len(text.split())`, where the flag says that a word is being read
unfoldable pub count_words : Bool → List ℕ → ℕ
count_words in_word [] = 0
count_words in_word (c ∷ cs) =
    if is_space c
    then count_words false cs
    else if in_word
    then count_words true cs
    else 1 + count_words true cs

-- `text.replace("\\", "/")`
unfoldable pub normalized : String → String
normalized String.[] = ""
normalized (String.◌∷◌ c s) =
    if eqb (code c) b'\\' then concat ("/" ∷ normalized s ∷ []) else String.◌∷◌ c (normalized s)

-- whether a key of the cache is a path, or stands below it
unfoldable pub is_under : String → String → Bool
unfolding normalized
is_under file_path key =
    normalized key == normalized file_path
    || starts_with (concat (normalized file_path ∷ "/" ∷ [])) (normalized key)

-- the bundle of what the providers gave
unfoldable pub bundle_of : (String → String) → ReviewRequest → Tiers → ContextBundle
unfolding count_words
bundle_of sha256 request tiers =
    let all_content : String = join "\n" (all_entries (with_slots tiers)) in
    let words : ℕ = count_words false (codes all_content) in
    record {
      request_id = request.request_id;
      context_hash = sha256 all_content;
      token_estimate = if leb 1 words then words else 1;
      tiers = with_slots tiers;
      metadata = ("source", str "composite") ∷ [];
    }

module _ {W : Type 0} where
  -- `self._cache[cache_key] = bundle`, if the cache is enabled
  unfoldable pub remember : String → ContextBundle → ContextService W → ContextService W
  remember key bundle s = record s {
    cache = if s.cache_enabled then insert key bundle s.cache else s.cache;
  }

  -- `register_provider`
  unfoldable pub register_provider : Provider W → ContextService W → ContextService W
  register_provider p s = record s { providers = s.providers ++ p ∷ [] }

  module _ (sha256 : String → String) where
    after_collect :
        ReviewRequest
        → ContextService W
        → Result Tiers × W
        → Result ContextBundle × ContextService W × W
    unfolding bundle_of remember
    after_collect request s (ok tiers, w) =
        let bundle : ContextBundle = bundle_of sha256 request tiers in
        (ok bundle, remember request.target_file bundle s, w)
    after_collect request s (raised e, w) = (raised e, s, w)

    from_cache :
        Option ContextBundle
        → ReviewRequest
        → ContextService W
        → W
        → Result ContextBundle × ContextService W × W
    unfolding after_collect
    from_cache (some cached) request s w = (ok cached, s, w)
    from_cache none request s w = after_collect request s (collect s.providers request w)

    unfoldable pub build_context :
        ReviewRequest → ContextService W → W → Result ContextBundle × ContextService W × W
    unfolding from_cache
    build_context request s w =
        from_cache (if s.cache_enabled then lookup request.target_file s.cache else none) request s
          w

  unfoldable pub invalidate_for_path : String → ContextService W → ℕ × ContextService W
  unfolding is_under
  invalidate_for_path file_path s = (
    length (keep (λ x. is_under file_path x.0) s.cache),
    record s { cache = keep (λ x. not (is_under file_path x.0)) s.cache },
  )

  unfoldable pub invalidate_all : ContextService W → ℕ × ContextService W
  invalidate_all s = (length s.cache, record s { cache = [] })

  -- `cache_size`
  unfoldable pub cache_size : ContextService W → ℕ
  cache_size s = length s.cache
