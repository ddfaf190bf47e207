-- ===== src/State/Spooler/Keys.antt =====
-- The primary key and the unique index: no identifier and no idempotency key occurs twice.
use nitpicker_daemon.Prelude.{
  String, Bool, true, false, Option, none, some, List, [], ◌∷◌, ◌++◌, ◌≡◌, ◌≢◌, refl, any, All,
  if◌then◌else◌, eq_iff, arith, sym, Bool-cases, inl, inr,
}
use nitpicker_daemon.Models.{ReviewState, ReviewRequest}
use nitpicker_daemon.State.Spooler.{
  Row, first, has_id, has_key, update, conflicts, JobStore, create_request, transition_state,
  mark_terminal, matches, ignored_event, append_event,
}
use nitpicker_daemon.State.Machine.{can_transition}
use nitpicker_daemon.Python.Json.{Json}

-- what the code of `update` does to one row
request_kept :
    (b : Bool) (r : Row) (st : ReviewState)
    → (if b then record r { state = st } else r).request ≡ r.request
request_kept true r st = refl
request_kept false r st = refl

module _ (column : ReviewRequest → String) where
  abbrev pub Absent : String → List Row → Type 0
  Absent k = All (λ x. column x.request ≢ k)

  abbrev pub Distinct : List Row → Type 0
  Distinct [] = Unit
  Distinct (r ∷ rs) = Absent (column r.request) rs × Distinct rs

  Absent-snoc :
      (k : String) (rs : List Row) (r : Row)
      → Absent k rs
      → column r.request ≢ k
      → Absent k (rs ++ r ∷ [])
  Absent-snoc k [] r h n = (n, tt)
  Absent-snoc k (x ∷ xs) r h n = (h.0, Absent-snoc k xs r h.1 n)

  -- a row whose value occurs nowhere may be added at the end
  Distinct-snoc :
      (rs : List Row) (r : Row)
      → Distinct rs
      → Absent (column r.request) rs
      → Distinct (rs ++ r ∷ [])
  Distinct-snoc [] r d h = (tt, tt)
  Distinct-snoc (x ∷ xs) r d h =
      (Absent-snoc (column x.request) xs r d.0 (λ e. h.0 (sym e)), Distinct-snoc xs r d.1 h.1)

  Absent-update :
      (p : Row → Bool) (st : ReviewState) (k : String) (rs : List Row)
      → Absent k rs
      → Absent k (update p st rs)
  unfolding update
  Absent-update p st k [] h = tt
  Absent-update p st k (r ∷ rs) h = (rw (request_kept (p r) r st) h.0, Absent-update p st k rs h.1)

  -- an update of the state leaves the column alone
  Distinct-update :
      (p : Row → Bool) (st : ReviewState) (rs : List Row) → Distinct rs → Distinct (update p st rs)
  unfolding update
  Distinct-update p st [] d = tt
  Distinct-update p st (r ∷ rs) d = (
    rw (request_kept (p r) r st) (Absent-update p st (column r.request) rs d.0),
    Distinct-update p st rs d.1,
  )

Absent-id :
    (request : ReviewRequest) (rows : List Row)
    → conflicts request rows ≡ false
    → Absent (λ q. q.request_id) request.request_id rows
unfolding conflicts
Absent-id request [] h = tt
Absent-id request (r ∷ rs) h = (
  λ e. ground (arith, eq_iff r.request.request_id request.request_id),
  Absent-id request rs (ground arith),
)

Absent-key :
    (request : ReviewRequest) (rows : List Row)
    → conflicts request rows ≡ false
    → Absent (λ q. q.idempotency_key) request.idempotency_key rows
unfolding conflicts
Absent-key request [] h = tt
Absent-key request (r ∷ rs) h = (
  λ e. ground (arith, eq_iff r.request.idempotency_key request.idempotency_key),
  Absent-key request rs (ground arith),
)

pub record IsKeyed (store : JobStore) : Type 0 where
  pub ids : Distinct (λ q. q.request_id) store.rows
  pub keys : Distinct (λ q. q.idempotency_key) store.rows

IsKeyed-update :
    (p : Row → Bool) (st : ReviewState) (store t : JobStore)
    → IsKeyed store
    → t.rows ≡ update p st store.rows
    → IsKeyed t
IsKeyed-update p st store t h e = record {
  ids = rw e (Distinct-update (λ q. q.request_id) p st store.rows h.ids);
  keys = rw e (Distinct-update (λ q. q.idempotency_key) p st store.rows h.keys);
}

IsKeyed-rows : (store t : JobStore) → IsKeyed store → t.rows ≡ store.rows → IsKeyed t
IsKeyed-rows store t h e = record { ids = rw e h.ids; keys = rw e h.keys }

ignored-rows :
    (request : ReviewRequest) (o : Option Row) (store : JobStore)
    → (ignored_event request o store).rows ≡ store.rows
unfolding ignored_event append_event
ignored-rows request none store = refl
ignored-rows request (some r) store = refl

-- INSERT OR IGNORE keeps both indices
pub create-IsKeyed :
    (request : ReviewRequest) (store : JobStore)
    → IsKeyed store
    → IsKeyed (create_request request store).1
unfolding create_request
create-IsKeyed request store h = elim (Bool-cases (conflicts request store.rows)) [
  | inl c ↦ rw c (
      IsKeyed-rows store _ h
        (ignored-rows request (first (has_key request.idempotency_key) store.rows) store))
  | inr c ↦ rw c (record {
    ids = Distinct-snoc (λ q. q.request_id) store.rows _ h.ids (Absent-id request store.rows c);
    keys =
        Distinct-snoc (λ q. q.idempotency_key) store.rows _ h.keys
          (Absent-key request store.rows c);
  })
]

pub transition-IsKeyed :
    (id : String) (f t : ReviewState) (reason : String) (code : Json) (store : JobStore)
    → IsKeyed store
    → IsKeyed (transition_state id f t reason code store).1
unfolding transition_state
transition-IsKeyed id f t reason code store h = elim (Bool-cases (can_transition f t)) [
  | inr c ↦ rw c h
  | inl c ↦ elim (Bool-cases (any (matches id f) store.rows)) [
    | inr m ↦ rw (c, m) h
    | inl m ↦ rw (c, m) (IsKeyed-update (matches id f) t store _ h refl)
  ]
]

pub mark_terminal-IsKeyed :
    (id : String) (st : ReviewState) (reason : String) (code : Json) (store : JobStore)
    → IsKeyed store
    → IsKeyed (mark_terminal id st reason code store).1
unfolding mark_terminal
mark_terminal-IsKeyed id st reason code store h = elim (Bool-cases (any (has_id id) store.rows)) [
  | inr m ↦ rw m h
  | inl m ↦ rw m (IsKeyed-update (has_id id) st store _ h refl)
]
