-- ===== src/State/Spooler/Sound.antt =====
-- Every method of the job store keeps the two indices and the audit trail.
use nitpicker_daemon.Prelude.{
  String, true, false, Option, none, some, List, [], ◌∷◌, ◌==◌, ◌≡◌, ◌≢◌, refl, any, ap,
  if◌then◌else◌, eq_iff, arith, Bool-cases, inl, inr, eq_refl,
}
use nitpicker_daemon.Models.{ReviewState, ReviewRequest, queued}
use nitpicker_daemon.Python.Json.{Json, Dict}
use nitpicker_daemon.State.Machine.{can_transition, value, same_iff}
use nitpicker_daemon.State.Spooler.{
  Row, review_request, duplicate_ignored, state_changed, terminal, stage, JobStore, first, has_id,
  has_key, matches, update, conflicts, append_event, ignored_event, create_request,
  transition_state, mark_terminal, empty,
}
use nitpicker_daemon.State.Spooler.Rows.{
  first-append, first-none_of_any, any-is_some-first, first-update, conflicts-id,
}
use nitpicker_daemon.State.Spooler.Keys.{
  Absent, Distinct, IsKeyed, create-IsKeyed, transition-IsKeyed, mark_terminal-IsKeyed,
}
use nitpicker_daemon.State.Spooler.Audit.{
  IsAudited, IsAudited-empty, IsAudited-snoc, state_of, next,
}

abbrev IdsDistinct : List Row → Type 0
IdsDistinct = Distinct (λ q. q.request_id)

update-Absent :
    (id : String) (f t : ReviewState) (rows : List Row)
    → Absent (λ q. q.request_id) id rows
    → update (matches id f) t rows ≡ update (has_id id) t rows
unfolding update
update-Absent id f t [] h = refl
update-Absent id f t (r ∷ rs) h =
    ground (arith, update-Absent id f t rs, eq_iff r.request.request_id id)

any-Absent :
    (id : String) (f : ReviewState) (rows : List Row)
    → Absent (λ q. q.request_id) id rows
    → any (matches id f) rows ≡ false
any-Absent id f [] h = refl
any-Absent id f (r ∷ rs) h = ground (arith, any-Absent id f rs, eq_iff r.request.request_id id)

-- Where identifiers are distinct, the row that an UPDATE with a state matches is the row of the
-- identifier.
pub update-matches :
    (id : String) (f t : ReviewState) (rows : List Row)
    → IdsDistinct rows
    → any (matches id f) rows ≡ true
    → update (matches id f) t rows ≡ update (has_id id) t rows
unfolding update
update-matches id f t [] d h = refl
update-matches id f t (r ∷ rs) d h = elim (Bool-cases (r.request.request_id == id)) [
  | inl e ↦
      let absent : Absent (λ q. q.request_id) id rs =
        rw (← (eq_iff r.request.request_id id).0 e) d.0 in
      ground (arith, update-Absent id f t rs absent, any-Absent id f rs absent)
  | inr e ↦ ground (arith, update-matches id f t rs d.1)
]

pub matches-state :
    (id : String) (f : ReviewState) (rows : List Row)
    → IdsDistinct rows
    → any (matches id f) rows ≡ true
    → state_of (first (has_id id) rows) ≡ some f
matches-state id f [] d h = cc
matches-state id f (r ∷ rs) d h = elim (Bool-cases (r.request.request_id == id)) [
  | inl e ↦
      let absent : Absent (λ q. q.request_id) id rs =
        rw (← (eq_iff r.request.request_id id).0 e) d.0 in
      ground (arith, any-Absent id f rs absent, same_iff r.state f)
  | inr e ↦ ground (arith, matches-state id f rs d.1)
]

pub state-update :
    (id j : String) (t : ReviewState) (rows : List Row)
    → any (has_id id) rows ≡ true
    → state_of (first (has_id j) (update (has_id id) t rows))
      ≡ (if id == j then some t else state_of (first (has_id j) rows))
state-update id j t rows h =
    ground (arith, first-update id j t rows, any-is_some-first (has_id id) rows, eq_iff id j)

pub any-matches :
    (id : String) (f : ReviewState) (rows : List Row)
    → any (matches id f) rows ≡ true
    → any (has_id id) rows ≡ true
any-matches id f [] h = h
any-matches id f (r ∷ rs) h = ground (arith, any-matches id f rs)

state-ne-none :
    (id : String) (rows : List Row)
    → any (has_id id) rows ≡ true
    → state_of (first (has_id id) rows) ≢ none
state-ne-none id rows h = ground (arith, any-is_some-first (has_id id) rows)

any_of_first_key :
    (key : String) (rows : List Row) (r : Row)
    → first (has_key key) rows ≡ some r
    → any (has_id r.request.request_id) rows ≡ true
any_of_first_key key [] r h = cc
any_of_first_key key (x ∷ xs) r h = ground (
  arith,
  any_of_first_key key xs r,
  eq_refl r.request.request_id,
  eq_iff x.request.request_id r.request.request_id,
)

-- what the job store promises between two calls
pub record IsSound (store : JobStore) : Type 0 where
  pub keyed : IsKeyed store
  pub audited : IsAudited store

pub IsSound-empty : IsSound empty
IsSound-empty = record { keyed = record { ids = tt; keys = tt }; audited = IsAudited-empty }

IsAudited-transition :
    (id : String) (f t : ReviewState) (reason : String) (code : Json) (store : JobStore)
    → IsSound store
    → IsAudited (transition_state id f t reason code store).1
unfolding transition_state append_event
IsAudited-transition id f t reason code store h = elim (Bool-cases (can_transition f t)) [
  | inr c ↦ rw c h.audited
  | inl c ↦ elim (Bool-cases (any (matches id f) store.rows)) [
    | inr m ↦ rw (c, m) h.audited
    | inl m ↦
        rw (c, m)
          (IsAudited-snoc store _ h.audited id (state_changed f t reason code) refl
            (matches-state id f store.rows h.keyed.ids m, c)
            (λ j.
              rw (update-matches id f t store.rows h.keyed.ids m)
                (state-update id j t store.rows (any-matches id f store.rows m))))
  ]
]

IsAudited-mark_terminal :
    (id : String) (st : ReviewState) (reason : String) (code : Json) (store : JobStore)
    → IsSound store
    → IsAudited (mark_terminal id st reason code store).1
unfolding mark_terminal append_event
IsAudited-mark_terminal id st reason code store h = elim (Bool-cases (any (has_id id) store.rows)) [
  | inr m ↦ rw m h.audited
  | inl m ↦ rw m (
      IsAudited-snoc store _ h.audited id (terminal st reason code) refl
        (state-ne-none id store.rows m) (λ j. state-update id j st store.rows m))
]

-- an entry that changes no state
same_rows :
    (id j : String) (o : Option ReviewState) (a b c : String)
    → o ≡ (if id == j then next o (duplicate_ignored a b c) else o)
same_rows id j o a b c = ground arith

IsAudited-ignored :
    (request : ReviewRequest) (store : JobStore) (o : Option Row)
    → first (has_key request.idempotency_key) store.rows ≡ o
    → IsAudited store
    → IsAudited (ignored_event request o store)
unfolding ignored_event append_event
IsAudited-ignored request store none e h = h
IsAudited-ignored request store (some r) e h =
    IsAudited-snoc store _ h r.request.request_id
      (duplicate_ignored request.request_id request.idempotency_key (value r.state)) refl
      (state-ne-none r.request.request_id store.rows
        (any_of_first_key request.idempotency_key store.rows r e))
      (λ j. same_rows r.request.request_id j _ "" "" "")

IsAudited-create :
    (request : ReviewRequest) (store : JobStore)
    → IsSound store
    → IsAudited (create_request request store).1
unfolding create_request append_event
IsAudited-create request store h = elim (Bool-cases (conflicts request store.rows)) [
  | inl c ↦ rw c (
      IsAudited-ignored request store (first (has_key request.idempotency_key) store.rows) refl
        h.audited)
  | inr c ↦
      let absent =
        first-none_of_any (has_id request.request_id) store.rows
          (conflicts-id request store.rows c) in
      rw c (
        IsAudited-snoc store _ h.audited request.request_id (review_request queued) refl
          (ap state_of absent, refl)
          (λ j. ground (
            arith,
            first-append (has_id j) store.rows (record { request = request; state = queued } ∷ []),
            absent,
            eq_iff request.request_id j,
          )))
]

pub create-IsSound :
    (request : ReviewRequest) (store : JobStore)
    → IsSound store
    → IsSound (create_request request store).1
create-IsSound request store h = record {
  keyed = create-IsKeyed request store h.keyed;
  audited = IsAudited-create request store h;
}

pub transition-IsSound :
    (id : String) (f t : ReviewState) (reason : String) (code : Json) (store : JobStore)
    → IsSound store
    → IsSound (transition_state id f t reason code store).1
transition-IsSound id f t reason code store h = record {
  keyed = transition-IsKeyed id f t reason code store h.keyed;
  audited = IsAudited-transition id f t reason code store h;
}

pub mark_terminal-IsSound :
    (id : String) (st : ReviewState) (reason : String) (code : Json) (store : JobStore)
    → IsSound store
    → IsSound (mark_terminal id st reason code store).1
mark_terminal-IsSound id st reason code store h = record {
  keyed = mark_terminal-IsKeyed id st reason code store h.keyed;
  audited = IsAudited-mark_terminal id st reason code store h;
}

-- `append_event`, at the one type of event that it is called with
pub append-IsSound :
    (id a b c : String) (d : Dict) (store : JobStore)
    → IsSound store
    → IsSound (append_event id (stage a b c d) store)
unfolding append_event
append-IsSound id a b c d store h = record {
  keyed = record { ids = h.keyed.ids; keys = h.keyed.keys };
  audited =
      IsAudited-snoc store _ h.audited id (stage a b c d) refl tt (λ j. same_rows id j _ "" "" "");
}
