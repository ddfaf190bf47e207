-- ===== src/Services/ContextCache/Calls.antt =====
-- The limit and the counts over any sequence of calls.
use nitpicker_daemon.Prelude.{
  ℕ, ◌≤◌, ◌<◌, String, Option, none, some, List, [], ◌∷◌, ◌≡◌, refl, arith, leb, length, keep, map,
  not, length-keep-le,
}
use nitpicker_daemon.Python.Errors.{Result}
use nitpicker_daemon.Python.Json.{lookup}
use nitpicker_daemon.Services.ContextCache.{
  CacheEntry, CacheManager, evict, evict_all, get_or_create, invalidate, invalidated,
  cleanup_expired, clear_all,
}
use nitpicker_daemon.Services.ContextCache.Bound.{
  Fits, length-remove-le, counted-evict, Fits-evict_all, Fits-get_or_create,
}

-- the calls of a manager, with what the clock and the provider answer
pub data Call : Type 0 where
  fetch : String → ℕ → ℕ → Result String → Call
  drop_key : String → Call
  cleanup : ℕ → Call
  clear : Call

unfoldable pub call : Call → CacheManager → CacheManager
call (fetch key now later answer) m = (get_or_create key now later answer m).1
call (drop_key key) m = (invalidate key m).1
call (cleanup now) m = (cleanup_expired now m).1
call clear m = (clear_all m).1

unfoldable pub calls : List Call → CacheManager → CacheManager
calls [] m = m
calls (c ∷ rest) m = calls rest (call c m)

limit-evict_all :
    (entries : List CacheEntry) (m : CacheManager)
    → (evict_all entries m).max_entries ≡ m.max_entries
unfolding evict_all evict
limit-evict_all [] m = refl
limit-evict_all (e ∷ rest) m = limit-evict_all rest (evict e m)

Fits-invalidated :
    (key : String) (o : Option CacheEntry) (m : CacheManager)
    → Fits m
    → Fits (invalidated key o m).1 × ((invalidated key o m).1.max_entries ≡ m.max_entries)
unfolding invalidated evict
Fits-invalidated key none m h = (h, refl)
Fits-invalidated key (some e) m h = (
  record {
    small = omega (arith, h.small, length-remove-le key m.store);
    counted = counted-evict e m h.counted;
  },
  refl,
)

abbrev entries_of : List (String × CacheEntry) → List CacheEntry
entries_of s = map (λ x. x.1) s

Fits-swept :
    (gone : List CacheEntry) (left : List (String × CacheEntry)) (m : CacheManager)
    → Fits m
    → length left ≤ length m.store
    → Fits (evict_all gone (record m { store = left }))
      × ((evict_all gone (record m { store = left })).max_entries ≡ m.max_entries)
Fits-swept gone left m h less = (
  Fits-evict_all gone (record m { store = left })
      (record { small = omega (arith, h.small, less); counted = h.counted }),
  limit-evict_all gone (record m { store = left }),
)

Fits-call :
    (c : Call) (m : CacheManager)
    → 0 < m.max_entries
    → Fits m
    → Fits (call c m) × ((call c m).max_entries ≡ m.max_entries)
unfolding call invalidate cleanup_expired clear_all
Fits-call (fetch key now later answer) m pos h = Fits-get_or_create key now later answer m pos h
Fits-call (drop_key key) m pos h = Fits-invalidated key (lookup key m.store) m h
Fits-call (cleanup now) m pos h =
    Fits-swept (entries_of (keep (λ x. leb x.1.expires_at now) m.store))
      (keep (λ x. not (leb x.1.expires_at now)) m.store) m h
      (length-keep-le (λ x. not (leb x.1.expires_at now)) m.store)
Fits-call clear m pos h = Fits-swept (entries_of m.store) [] m h (omega arith)

-- If a cache manager has room for at least one entry, its store is within its limit, and its
-- evictions are as many as the deletions it asked for, then both still hold after any sequence of
-- calls, whatever the clock and the provider answer.
pub calls-Fits :
    (cs : List Call) (m : CacheManager) → 0 < m.max_entries → Fits m → Fits (calls cs m)
unfolding calls
calls-Fits [] m pos h = h
calls-Fits (c ∷ rest) m pos h =
    let (fits, same) = Fits-call c m pos h in calls-Fits rest (call c m) (rw same pos) fits
