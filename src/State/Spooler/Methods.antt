-- ===== src/State/Spooler/Methods.antt =====
-- What a caller of the job store sees: insertion, lookup, transitions, recovery, and the store
-- that any sequence of calls leaves.
use nitpicker_daemon.Prelude.{
  String, true, false, Option, none, some, List, [], ◌∷◌, ◌++◌, ◌==◌, ◌≡◌, ◌≢◌, refl, any,
  if◌then◌else◌, eq_iff, arith, Bool-cases, inl, inr, ◌⊎◌, eq_refl,
}
use nitpicker_daemon.Models.{ReviewState, ReviewRequest, queued}
use nitpicker_daemon.Python.Errors.{ok}
use nitpicker_daemon.Python.Json.{Json, Dict}
use nitpicker_daemon.State.Machine.{can_transition, value, same_iff}
use nitpicker_daemon.State.Spooler.{
  Row, stage, JobStore, first, has_id, has_key, matches, conflicts, append_event, ignored_event,
  create_request, transition_state, mark_terminal, empty, get_request, no_row,
}
use nitpicker_daemon.State.Spooler.Rows.{first-append, first-none_of_any, conflicts-id}
use nitpicker_daemon.State.Spooler.Keys.{IsKeyed}
use nitpicker_daemon.State.Spooler.Audit.{state_of}
use nitpicker_daemon.State.Spooler.Sound.{
  IsSound, IsSound-empty, create-IsSound, transition-IsSound, mark_terminal-IsSound, append-IsSound,
  matches-state, state-update, update-matches, any-matches,
}

-- the calls that change the tables
pub data Call : Type 0 where
  create : ReviewRequest → Call
  transition : String → ReviewState → ReviewState → String → Json → Call
  terminate : String → ReviewState → String → Json → Call
  append : String → String → String → String → Dict → Call

unfoldable pub call : Call → JobStore → JobStore
call (create request) store = (create_request request store).1
call (transition id f t reason code) store = (transition_state id f t reason code store).1
call (terminate id st reason code) store = (mark_terminal id st reason code store).1
call (append id a b c d) store = append_event id (stage a b c d) store

unfoldable pub calls : List Call → JobStore → JobStore
calls [] store = store
calls (c ∷ cs) store = calls cs (call c store)

call-IsSound : (c : Call) (store : JobStore) → IsSound store → IsSound (call c store)
unfolding call
call-IsSound (create request) store h = create-IsSound request store h
call-IsSound (transition id f t reason code) store h = transition-IsSound id f t reason code store h
call-IsSound (terminate id st reason code) store h = mark_terminal-IsSound id st reason code store h
call-IsSound (append id a b c d) store h = append-IsSound id a b c d store h

calls-IsSound_from : (cs : List Call) (store : JobStore) → IsSound store → IsSound (calls cs store)
unfolding calls
calls-IsSound_from [] store h = h
calls-IsSound_from (c ∷ cs) store h = calls-IsSound_from cs (call c store) (call-IsSound c store h)

-- After any sequence of calls of the methods of the job store from the empty store, identifiers
-- and idempotency keys are distinct, the log replays to the states of the rows, and each entry of
-- the log was legal when it was written: a request begins once and in the state queued, a change
-- of state is in the table of transitions and starts at the state it names, and every other entry
-- but that of a stage is for a known request.
pub calls-IsSound : (cs : List Call) → IsSound (calls cs empty)
calls-IsSound cs = calls-IsSound_from cs empty IsSound-empty

get-created :
    (request : ReviewRequest) (store : JobStore)
    → conflicts request store.rows ≡ false
    → get_request request.request_id (create_request request store).1 ≡ some request
unfolding get_request create_request append_event
get-created request store c = rw (
  c,
  first-append,
  first-none_of_any (has_id request.request_id) store.rows (conflicts-id request store.rows c),
  eq_refl,
)

conflicts_new :
    (request other : ReviewRequest) (rows : List Row)
    → other.idempotency_key ≡ request.idempotency_key
    → conflicts other (rows ++ record { request = request; state = queued } ∷ []) ≡ true
unfolding conflicts
conflicts_new request other [] e =
    ground (arith, eq_iff request.idempotency_key other.idempotency_key)
conflicts_new request other (r ∷ rs) e = ground (arith, conflicts_new request other rs e)

first_key_new :
    (request other : ReviewRequest) (rows : List Row)
    → other.idempotency_key ≡ request.idempotency_key
    → conflicts request rows ≡ false
    → first
        (has_key other.idempotency_key)
        (rows ++ record { request = request; state = queued } ∷ [])
      ≡ some (record { request = request; state = queued })
unfolding conflicts
first_key_new request other [] e c =
    ground (arith, eq_iff request.idempotency_key other.idempotency_key)
first_key_new request other (r ∷ rs) e c = ground (
  arith,
  first_key_new request other rs e,
  eq_iff r.request.idempotency_key request.idempotency_key,
  eq_iff r.request.idempotency_key other.idempotency_key,
)

-- After a request that conflicts with nothing was created, a request with the same idempotency key
-- is reported as a duplicate in the state queued and changes no row, and the first request can be
-- read back as it was given.
pub create-twice :
    (request other : ReviewRequest) (store : JobStore)
    → conflicts request store.rows ≡ false
    → other.idempotency_key ≡ request.idempotency_key
    → let s = (create_request request store).1 in
      ((create_request other s).0
        ≡ ok (record { created = false; duplicate = true; existing_state = some (value queued) }))
      × ((create_request other s).1.rows ≡ s.rows)
      × (get_request request.request_id s ≡ some request)
unfolding create_request append_event ignored_event
create-twice request other store c e = (
  rw (c, conflicts_new request other store.rows e, first_key_new request other store.rows e c),
  rw (c, conflicts_new request other store.rows e, first_key_new request other store.rows e c),
  get-created request store c,
)

no_row-ne-ok : (o : Option Row) → no_row o ≢ ok tt
no_row-ne-ok none = λ e. cc
no_row-ne-ok (some r) = λ e. cc

any_of_state :
    (id : String) (f : ReviewState) (rows : List Row)
    → state_of (first (has_id id) rows) ≡ some f
    → any (matches id f) rows ≡ true
any_of_state id f [] h = cc
any_of_state id f (r ∷ rs) h = ground (arith, any_of_state id f rs, (same_iff r.state f).1)

-- In a store whose identifiers and keys are distinct, either a transition succeeds, is in the
-- table of transitions, starts at the state of the row and changes the state of this row alone; or
-- it raises, changes nothing, and is not in the table or does not start at the state of the row.
pub transition-total :
    (id : String) (f t : ReviewState) (reason : String) (code : Json) (store : JobStore)
    → IsKeyed store
    → let (r, s) = transition_state id f t reason code store in
      ((r ≡ ok tt)
        × (can_transition f t ≡ true)
        × (state_of (first (has_id id) store.rows) ≡ some f)
        × ((j : String)
            → state_of (first (has_id j) s.rows)
              ≡ (if id == j then some t else state_of (first (has_id j) store.rows))))
      ⊎ ((r ≢ ok tt)
          × (s ≡ store)
          × ((can_transition f t ≡ false) ⊎ (state_of (first (has_id id) store.rows) ≢ some f)))
unfolding transition_state append_event
transition-total id f t reason code store h = elim (Bool-cases (can_transition f t)) [
  | inr c ↦ rw c (inr ((λ e. cc), refl, inl refl))
  | inl c ↦ elim (Bool-cases (any (matches id f) store.rows)) [
    | inr m ↦
        rw (c, m)
          (inr (
            no_row-ne-ok (first (has_id id) store.rows),
            refl,
            inr (λ e. cc (m, any_of_state id f store.rows e)),
          ))
    | inl m ↦
        rw (c, m)
          (inl (
            refl,
            refl,
            matches-state id f store.rows h.ids m,
            λ j.
                rw (update-matches id f t store.rows h.ids m)
                  (state-update id j t store.rows (any-matches id f store.rows m)),
          ))
  ]
]
