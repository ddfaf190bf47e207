-- ===== src/Services/ContextCache/Again.antt =====
-- What the cache returns again.
use nitpicker_daemon.Prelude.{
  ℕ, ◌+◌, ◌<◌, String, true, none, List, [], ◌∷◌, ◌≡◌, refl, arith, ltb, leb, length, eq_refl,
  Bool-cases, inl, inr,
}
use nitpicker_daemon.Python.Errors.{Result, ok}
use nitpicker_daemon.Python.Json.{lookup, lookup-insert}
use nitpicker_daemon.Services.ContextCache.{
  CacheEntry, CacheManager, evict, evict_from, evict_oldest, evict_expired, make_room, miss,
  keep_entry, created, fetched, get_or_create,
}

ttl-evict_from : (s : List (String × CacheEntry)) (m : CacheManager) → (evict_from s m).ttl ≡ m.ttl
unfolding evict_from evict
ttl-evict_from [] m = refl
ttl-evict_from (x ∷ rest) m = refl

ttl-miss : (m : CacheManager) → (miss none m).ttl ≡ m.ttl
unfolding miss evict_expired make_room evict_oldest
ttl-miss m = elim (Bool-cases (leb m.max_entries (length m.store))) [
  | inl e ↦ rw e (ttl-evict_from m.store m)
  | inr e ↦ rw e
]

found_again :
    (key : String) (later again : ℕ) (id : String) (answer : Result String) (m : CacheManager)
    → again < later + m.ttl
    → ((get_or_create key again again answer (keep_entry key later id m)).0 ≡ ok id)
      × ((get_or_create key again again answer (keep_entry key later id m)).1.store
          ≡ (keep_entry key later id m).store)
unfolding get_or_create fetched keep_entry
found_again key later again id answer m soon =
    let fresh : ltb again (later + m.ttl) ≡ true = ground (arith, soon) in
    rw (lookup-insert, eq_refl key, fresh) (refl, refl)

-- If a context has no entry and the provider makes one, the call returns it, and a second call
-- before it expires returns the same one without a change of the store, whatever the provider
-- would answer.
pub get_or_create_twice :
    (key : String) (now later again : ℕ) (id : String) (answer : Result String) (m : CacheManager)
    → lookup key m.store ≡ none
    → again < later + m.ttl
    → let stored = (get_or_create key now later (ok id) m).1 in
      ((get_or_create key now later (ok id) m).0 ≡ ok id)
      × ((get_or_create key again again answer stored).0 ≡ ok id)
      × ((get_or_create key again again answer stored).1.store ≡ stored.store)
unfolding get_or_create fetched created
get_or_create_twice key now later again id answer m absent soon =
    let (found, same) =
      found_again key later again id answer (miss none m) (rw (ttl-miss m) soon) in
    rw absent (refl, found, same)
