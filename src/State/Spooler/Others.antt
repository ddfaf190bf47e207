-- ===== src/State/Spooler/Others.antt =====
-- What the methods of the job store leave of the rows of other requests.
use nitpicker_daemon.Prelude.{
  String, Bool, true, Option, none, some, List, [], ◌∷◌, ◌++◌, ◌≡◌, ◌≢◌, refl, arith, Bool-cases,
  inl, inr, eq_iff,
}
use nitpicker_daemon.Python.Json.{Json}
use nitpicker_daemon.Models.{ReviewRequest, ReviewState}
use nitpicker_daemon.State.Spooler.{
  Row, JobStore, first, has_id, has_key, matches, update, conflicts, ignored_event, create_request,
  transition_state, mark_terminal, append_event,
}

first_other :
    (id j : String) (p : Row → Bool) (st : ReviewState) (rows : List Row)
    → ((r : Row) → p r ≡ true → r.request.request_id ≡ id)
    → id ≢ j
    → first (has_id j) (update p st rows) ≡ first (has_id j) rows
unfolding update
first_other id j p st [] k ne = refl
first_other id j p st (r ∷ rs) k ne =
    ground (arith, first_other id j p st rs k ne, k r, eq_iff r.request.request_id j)

ignored-rows :
    (request : ReviewRequest) (o : Option Row) (store : JobStore)
    → (ignored_event request o store).rows ≡ store.rows
unfolding ignored_event append_event
ignored-rows request none store = refl
ignored-rows request (some r) store = refl

pub create_conflict :
    (request : ReviewRequest) (store : JobStore)
    → conflicts request store.rows ≡ true
    → (create_request request store).1.rows ≡ store.rows
unfolding create_request
create_conflict request store c =
    rw c (ignored-rows request (first (has_key request.idempotency_key) store.rows) store)

append_other :
    (r : Row) (j : String) (rows : List Row)
    → r.request.request_id ≢ j
    → first (has_id j) (rows ++ r ∷ []) ≡ first (has_id j) rows
append_other r j [] ne = ground (arith, eq_iff r.request.request_id j)
append_other r j (x ∷ xs) ne = ground (arith, append_other r j xs ne)

pub create_other :
    (request : ReviewRequest) (j : String) (store : JobStore)
    → request.request_id ≢ j
    → first (has_id j) (create_request request store).1.rows ≡ first (has_id j) store.rows
unfolding append_event create_request
create_other request j store ne = elim (Bool-cases (conflicts request store.rows)) [
  | inl c ↦ rw (create_conflict request store c)
  | inr c ↦ rw c (append_other _ j store.rows ne)
]

matches_id :
    (id : String) (f : ReviewState) (r : Row) → matches id f r ≡ true → r.request.request_id ≡ id
matches_id id f r h = ground (arith, eq_iff r.request.request_id id)

pub transition_other :
    (id j : String) (f t : ReviewState) (reason : String) (code : Json) (store : JobStore)
    → id ≢ j
    → first (has_id j) (transition_state id f t reason code store).1.rows
      ≡ first (has_id j) store.rows
unfolding transition_state append_event
transition_other id j f t reason code store ne =
    ground (arith, first_other id j (matches id f) t store.rows (matches_id id f) ne)

pub terminal_other :
    (id j : String) (t : ReviewState) (reason : String) (code : Json) (store : JobStore)
    → id ≢ j
    → first (has_id j) (mark_terminal id t reason code store).1.rows ≡ first (has_id j) store.rows
unfolding mark_terminal append_event
terminal_other id j t reason code store ne =
    ground (
      arith,
      first_other id j (has_id id) t store.rows (λ r. (eq_iff r.request.request_id id).0) ne,
    )
