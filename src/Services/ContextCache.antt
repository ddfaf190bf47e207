-- ===== src/Services/ContextCache.antt =====
-- services/cache_mgr.py, `ContextCacheManager`. The clock and the provider's answer are arguments of
-- a call; what the provider is asked to delete is recorded, and errors of that are dropped.
pub mod Bound
pub mod Calls
pub mod Again
use nitpicker_daemon.Prelude.{
  ℕ, ◌+◌, String, Bool, true, false, Option, none, some, List, [], ◌∷◌, ◌++◌, ◌==◌, if◌then◌else◌,
  ltb, leb, length, keep, map, not,
}
use nitpicker_daemon.Python.Errors.{Result, ok, raised}
use nitpicker_daemon.Python.Json.{lookup, insert}

pub record CacheEntry : Type 0 where
  pub cache_id : String
  pub context_hash : String
  pub provider_name : String
  pub expires_at : ℕ

pub record CacheManager : Type 0 where
  pub ttl : ℕ
  pub max_entries : ℕ
  pub provider_name : String
  pub store : List (String × CacheEntry)
  pub hits : ℕ
  pub misses : ℕ
  pub evictions : ℕ
  -- the calls of `delete_context_cache`
  pub deleted : List String

-- `dict.pop(key)`
unfoldable pub remove : String → List (String × CacheEntry) → List (String × CacheEntry)
remove key [] = []
remove key ((k, entry) ∷ rest) =
    let others = remove key rest in if k == key then others else (k, entry) ∷ others

-- `_delete_safe`, and the count that goes with it
unfoldable pub evict : CacheEntry → CacheManager → CacheManager
evict entry m = record m { evictions = m.evictions + 1; deleted = m.deleted ++ entry.cache_id ∷ [] }

unfoldable pub evict_all : List CacheEntry → CacheManager → CacheManager
evict_all [] m = m
evict_all (entry ∷ rest) m = evict_all rest (evict entry m)

-- `min(store, key=…)`: the first of the entries that expire first
unfoldable pub oldest : String × CacheEntry → List (String × CacheEntry) → String × CacheEntry
oldest best [] = best
oldest best (x ∷ rest) =
    if ltb x.1.expires_at best.1.expires_at then oldest x rest else oldest best rest

evict_from : List (String × CacheEntry) → CacheManager → CacheManager
unfolding evict
evict_from [] m = m
evict_from (x ∷ rest) m =
    evict (oldest x rest).1 (record m { store = remove (oldest x rest).0 m.store })

unfoldable pub evict_oldest : CacheManager → CacheManager
unfolding evict_from
evict_oldest m = evict_from m.store m

-- the first locked block of a call that does not hit
evict_expired : Option CacheEntry → CacheManager → CacheManager
unfolding evict
evict_expired none m = m
evict_expired (some entry) m = evict entry m

make_room : CacheManager → CacheManager
unfolding evict_oldest
make_room m = if leb m.max_entries (length m.store) then evict_oldest m else m

unfoldable pub miss : Option CacheEntry → CacheManager → CacheManager
unfolding evict_expired make_room
miss entry m =
    let ready = make_room (evict_expired entry m) in record ready { misses = ready.misses + 1 }

-- the second locked block
unfoldable pub keep_entry : String → ℕ → String → CacheManager → CacheManager
keep_entry key now cache_id m = record m {
  store =
      insert key
        (record {
          cache_id = cache_id;
          context_hash = key;
          provider_name = m.provider_name;
          expires_at = now + m.ttl;
        })
        m.store;
}

created : String → ℕ → Result String → CacheManager → Result String × CacheManager
unfolding keep_entry
created key later (ok cache_id) m = (ok cache_id, keep_entry key later cache_id m)
created key later (raised e) m = (raised e, m)

fetched :
    String → ℕ → ℕ → Result String → Option CacheEntry → CacheManager → Result String × CacheManager
unfolding created miss
fetched key now later answer none m = created key later answer (miss none m)
fetched key now later answer (some entry) m =
    if ltb now entry.expires_at
    then (ok entry.cache_id, record m { hits = m.hits + 1 })
    else created key later answer (miss (some entry) m)

-- `get_or_create`, from the hash of the context; the clock is read again after the provider's answer
unfoldable pub get_or_create :
    String → ℕ → ℕ → Result String → CacheManager → Result String × CacheManager
unfolding fetched
get_or_create key now later answer m = fetched key now later answer (lookup key m.store) m

invalidated : String → Option CacheEntry → CacheManager → Bool × CacheManager
unfolding evict
invalidated key none m = (false, m)
invalidated key (some entry) m = (true, evict entry (record m { store = remove key m.store }))

unfoldable pub invalidate : String → CacheManager → Bool × CacheManager
unfolding invalidated
invalidate key m = invalidated key (lookup key m.store) m

abbrev expired : ℕ → String × CacheEntry → Bool
expired now x = leb x.1.expires_at now

unfoldable pub cleanup_expired : ℕ → CacheManager → ℕ × CacheManager
unfolding evict_all
cleanup_expired now m =
    let gone = keep (expired now) m.store in
    (
      length gone,
      evict_all (map (λ x. x.1) gone)
          (record m { store = keep (λ x. not (expired now x)) m.store }),
    )

unfoldable pub clear_all : CacheManager → ℕ × CacheManager
unfolding evict_all
clear_all m = (length m.store, evict_all (map (λ x. x.1) m.store) (record m { store = [] }))
