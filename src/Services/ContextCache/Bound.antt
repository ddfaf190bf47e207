-- ===== src/Services/ContextCache/Bound.antt =====
-- The size of the cache, the count of its evictions, and what it returns again.
use nitpicker_daemon.Prelude.{
  ℕ, ◌+◌, ◌≤◌, ◌<◌, String, true, Option, none, some, List, [], ◌∷◌, ◌≡◌, refl, arith, ltb, leb,
  length, eq_iff, eq_refl, Bool-cases, inl, inr, length-append, ◌∙◌, ap,
}
use nitpicker_daemon.Python.Errors.{Result, ok, raised}
use nitpicker_daemon.Python.Json.{lookup, insert, has_key}
use nitpicker_daemon.Services.ContextCache.{
  CacheEntry, CacheManager, remove, evict, evict_all, oldest, evict_from, evict_oldest,
  evict_expired, make_room, miss, keep_entry, created, fetched, get_or_create,
}

pub length-remove-le :
    (key : String) (s : List (String × CacheEntry)) → length (remove key s) ≤ length s
unfolding remove
length-remove-le key [] = omega arith
length-remove-le key (x ∷ rest) = ground (arith, length-remove-le key rest)

-- a key that is there goes
length-remove :
    (key : String) (s : List (String × CacheEntry))
    → has_key key s ≡ true
    → length (remove key s) < length s
unfolding remove
length-remove key [] h = ground arith
length-remove key (x ∷ rest) h =
    ground
      (arith, length-remove key rest, length-remove-le key rest, eq_iff x.0 key, eq_iff key x.0)

length-insert-le :
    (key : String) (v : CacheEntry) (s : List (String × CacheEntry))
    → length (insert key v s) ≤ length s + 1
unfolding insert
length-insert-le key v [] = omega arith
length-insert-le key v (x ∷ rest) = ground (arith, length-insert-le key v rest)

length-insert :
    (key : String) (v : CacheEntry) (s : List (String × CacheEntry))
    → has_key key s ≡ true
    → length (insert key v s) ≡ length s
unfolding insert
length-insert key v [] h = ground arith
length-insert key v (x ∷ rest) h = ground (arith, length-insert key v rest)

has_key-oldest :
    (x : String × CacheEntry) (s : List (String × CacheEntry))
    → has_key (oldest x s).0 (x ∷ s) ≡ true
unfolding oldest
has_key-oldest x [] = ground (arith, eq_refl x.0)
has_key-oldest x (y ∷ rest) = ground (arith, has_key-oldest x rest, has_key-oldest y rest)

-- what the manager promises between two calls
pub record Fits (m : CacheManager) : Type 0 where
  pub small : length m.store ≤ m.max_entries
  pub counted : m.evictions ≡ length m.deleted

-- a manager with room for an entry
record Roomy (max : ℕ) (m : CacheManager) : Type 0 where
  limit : m.max_entries ≡ max
  room : length m.store < max
  counted : m.evictions ≡ length m.deleted

pub counted-evict :
    (entry : CacheEntry) (m : CacheManager)
    → m.evictions ≡ length m.deleted
    → (evict entry m).evictions ≡ length (evict entry m).deleted
unfolding evict
counted-evict entry m h = omega (arith, h, length-append m.deleted (entry.cache_id ∷ []))

pub Fits-evict : (entry : CacheEntry) (m : CacheManager) → Fits m → Fits (evict entry m)
unfolding evict
Fits-evict entry m h = record { small = h.small; counted = counted-evict entry m h.counted }

pub Fits-evict_all :
    (entries : List CacheEntry) (m : CacheManager) → Fits m → Fits (evict_all entries m)
unfolding evict_all
Fits-evict_all [] m h = h
Fits-evict_all (e ∷ rest) m h = Fits-evict_all rest (evict e m) (Fits-evict e m h)

Fits-evict_expired :
    (o : Option CacheEntry) (m : CacheManager)
    → Fits m
    → Fits (evict_expired o m) × ((evict_expired o m).max_entries ≡ m.max_entries)
unfolding evict_expired evict
Fits-evict_expired none m h = (h, refl)
Fits-evict_expired (some e) m h = (Fits-evict e m h, refl)

-- a store at its limit, which is positive, loses an entry
Roomy-evict_from :
    (s : List (String × CacheEntry)) (m : CacheManager)
    → m.store ≡ s
    → 0 < m.max_entries
    → m.max_entries ≤ length s
    → Fits m
    → Roomy m.max_entries (evict_from s m)
unfolding evict_from evict
Roomy-evict_from [] m e pos full h = let no : ⊥ = omega (arith, pos, full) in absurd no
Roomy-evict_from (x ∷ rest) m e pos full h = record {
  limit = refl;
  room =
      let gone = length-remove (oldest x rest).0 (x ∷ rest) (has_key-oldest x rest) in
      let size : length m.store ≡ length (x ∷ rest) = ap length e in
      rw e (omega (arith, gone, h.small, size));
  counted = counted-evict (oldest x rest).1 m h.counted;
}

Roomy-make_room :
    (m : CacheManager) → 0 < m.max_entries → Fits m → Roomy m.max_entries (make_room m)
unfolding make_room evict_oldest
Roomy-make_room m pos h = elim (Bool-cases (leb m.max_entries (length m.store))) [
  | inl e ↦ rw e (Roomy-evict_from m.store m refl pos (ground (arith, e)) h)
  | inr e ↦ rw e (record { limit = refl; room = ground (arith, e); counted = h.counted })
]

Roomy-miss :
    (o : Option CacheEntry) (m : CacheManager)
    → 0 < m.max_entries
    → Fits m
    → Roomy m.max_entries (miss o m)
unfolding miss
Roomy-miss o m pos h =
    let (fits, same) = Fits-evict_expired o m h in
    let r = Roomy-make_room (evict_expired o m) (rw same pos) fits in
    record { limit = r.limit ∙ same; room = omega (arith, r.room, same); counted = r.counted }

Fits-created :
    (key : String) (later : ℕ) (answer : Result String) (max : ℕ) (m : CacheManager)
    → Roomy max m
    → Fits (created key later answer m).1 × ((created key later answer m).1.max_entries ≡ max)
unfolding created keep_entry
Fits-created key later (ok id) max m r = (
  record {
    small = omega (arith, length-insert-le key _ m.store, r.room, r.limit);
    counted = r.counted;
  },
  r.limit,
)
Fits-created key later (raised e) max m r =
    (record { small = omega (arith, r.room, r.limit); counted = r.counted }, r.limit)

Fits-fetched :
    (key : String) (now later : ℕ) (answer : Result String) (o : Option CacheEntry)
    (m : CacheManager)
    → 0 < m.max_entries
    → Fits m
    → Fits (fetched key now later answer o m).1
      × ((fetched key now later answer o m).1.max_entries ≡ m.max_entries)
unfolding fetched
Fits-fetched key now later answer none m pos h =
    Fits-created key later answer m.max_entries (miss none m) (Roomy-miss none m pos h)
Fits-fetched key now later answer (some e) m pos h = elim (Bool-cases (ltb now e.expires_at)) [
  | inl t ↦ rw t (record { small = h.small; counted = h.counted }, refl)
  | inr t ↦
      rw t (
        Fits-created key later answer m.max_entries (miss (some e) m) (Roomy-miss (some e) m pos h))
]

pub Fits-get_or_create :
    (key : String) (now later : ℕ) (answer : Result String) (m : CacheManager)
    → 0 < m.max_entries
    → Fits m
    → Fits (get_or_create key now later answer m).1
      × ((get_or_create key now later answer m).1.max_entries ≡ m.max_entries)
unfolding get_or_create
Fits-get_or_create key now later answer m = Fits-fetched key now later answer (lookup key m.store) m
