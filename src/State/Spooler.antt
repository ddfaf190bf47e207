-- ===== src/State/Spooler.antt =====
-- state/sqlite_spooler.py: the two tables of the job store, and the methods of `SQLiteJobStore`.
-- Every method is one transaction: what raises leaves the tables as they were. The time columns
-- are left out, and a column that holds JSON text holds the value itself.
pub mod Rows
pub mod Others
pub mod Keys
pub mod Audit
pub mod Sound
pub mod Methods
pub mod Recovery
use nitpicker_daemon.Prelude.{
  String, Bool, true, false, Option, none, some, List, [], ◌∷◌, ◌++◌, ◌==◌, ◌||◌, ◌&&◌,
  if◌then◌else◌, keep, any,
}
use nitpicker_daemon.Python.Errors.{Result, ok, raised, key_error, value_error}
use nitpicker_daemon.Python.Json.{Json, Dict}
use nitpicker_daemon.Python.Exec.{Exec}
use nitpicker_daemon.Models.{
  ReviewRequest, ReviewState, queued, context_ready, analyzing, patch_proposed,
}
use nitpicker_daemon.State.Machine.{value, same, can_transition}

-- a row of `review_requests`
pub record Row : Type 0 where
  pub request : ReviewRequest
  pub state : ReviewState

-- The `event_type` of a row of `review_events`, with its payload. `append_event` is called with
-- "review.stage" alone.
pub data Payload : Type 0 where
  review_request : ReviewState → Payload
  duplicate_ignored : String → String → String → Payload
  state_changed : ReviewState → ReviewState → String → Json → Payload
  terminal : ReviewState → String → Json → Payload
  stage : String → String → String → Dict → Payload

pub record Event : Type 0 where
  pub request_id : String
  pub payload : Payload

pub record JobStore : Type 0 where
  pub rows : List Row
  pub events : List Event

abbrev pub empty : JobStore
empty = record { rows = []; events = [] }

pub record JobCreationOutcome : Type 0 where
  pub created : Bool
  pub duplicate : Bool
  pub existing_state : Option String

abbrev pub first : (Row → Bool) → List Row → Option Row
first p [] = none
first p (r ∷ rs) = if p r then some r else first p rs

-- `WHERE request_id = ?`
abbrev pub has_id : String → Row → Bool
has_id id r = r.request.request_id == id

-- `WHERE idempotency_key = ?`
abbrev pub has_key : String → Row → Bool
has_key key r = r.request.idempotency_key == key

-- `UPDATE … SET state = ? WHERE …`
unfoldable pub update : (Row → Bool) → ReviewState → List Row → List Row
update p st [] = []
update p st (r ∷ rs) = (if p r then record r { state = st } else r) ∷ update p st rs

unfoldable pub append_event : String → Payload → JobStore → JobStore
append_event id payload store = record store {
  events = store.events ++ record { request_id = id; payload = payload } ∷ [];
}

-- `INSERT OR IGNORE` is ignored if the primary key or the unique index has the value.
unfoldable pub conflicts : ReviewRequest → List Row → Bool
conflicts request rows =
    any (λ r. has_id request.request_id r || has_key request.idempotency_key r) rows

unfoldable ignored_event : ReviewRequest → Option Row → JobStore → JobStore
unfolding append_event
ignored_event request none store = store
ignored_event request (some existing) store =
    append_event existing.request.request_id
      (duplicate_ignored request.request_id request.idempotency_key (value existing.state)) store

abbrev pub existing_value : Option Row → Option String
existing_value none = none
existing_value (some existing) = some (value existing.state)

unfoldable pub create_request : ReviewRequest → Exec JobStore JobCreationOutcome
unfolding conflicts ignored_event append_event
create_request request store =
    if conflicts request store.rows
    then (let existing = first (has_key request.idempotency_key) store.rows in
        (
          ok (record {
            created = false;
            duplicate = true;
            existing_state = existing_value existing;
          }),
          ignored_event request existing store,
        ))
    else (
      ok (record { created = true; duplicate = false; existing_state = some (value queued) }),
      append_event request.request_id (review_request queued)
          (record store { rows = store.rows ++ record { request = request; state = queued } ∷ [] }),
    )

abbrev request_of : Option Row → Option ReviewRequest
request_of none = none
request_of (some r) = some r.request

unfoldable pub get_request : String → JobStore → Option ReviewRequest
get_request id store = request_of (first (has_id id) store.rows)

-- the two errors of `transition_state` when its UPDATE has changed no row
abbrev no_row : Option Row → Result (Unit {0})
no_row none = raised (record { kind = key_error; message = "request_id" })
no_row (some _) = raised (record { kind = value_error; message = "current state mismatch" })

abbrev pub matches : String → ReviewState → Row → Bool
matches id from_state r = has_id id r && same r.state from_state

unfoldable pub transition_state :
    String → ReviewState → ReviewState → String → Json → Exec JobStore Unit
unfolding update append_event can_transition
transition_state id from_state to_state reason result_code store =
    if can_transition from_state to_state
    then (if any (matches id from_state) store.rows
        then (
          ok tt,
          append_event id (state_changed from_state to_state reason result_code)
              (record store { rows = update (matches id from_state) to_state store.rows }),
        )
        else (no_row (first (has_id id) store.rows), store))
    else (raised (record { kind = value_error; message = "invalid state transition" }), store)

abbrev is_recoverable : Row → Bool
is_recoverable r =
    same r.state queued
    || same r.state context_ready
    || same r.state analyzing
    || same r.state patch_proposed

-- `[get_request(id) for id in ids if get_request(id) is not None]`
loaded : JobStore → List Row → List ReviewRequest
loaded store [] = []
loaded store (r ∷ rs) =
    let rest = loaded store rs in
    elim (get_request r.request.request_id store) [ none ↦ rest | some request ↦ request ∷ rest ]

unfoldable pub list_recoverable_jobs : JobStore → List ReviewRequest
unfolding loaded get_request
list_recoverable_jobs store = loaded store (keep is_recoverable store.rows)

-- No test of the transition: the row may be in any state.
unfoldable pub mark_terminal : String → ReviewState → String → Json → Exec JobStore Unit
unfolding update append_event
mark_terminal id final_state reason result_code store =
    if any (has_id id) store.rows
    then (
      ok tt,
      append_event id (terminal final_state reason result_code)
          (record store { rows = update (has_id id) final_state store.rows }),
    )
    else (raised (record { kind = key_error; message = "request_id" }), store)
