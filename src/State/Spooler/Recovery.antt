-- ===== src/State/Spooler/Recovery.antt =====
-- `list_recoverable_jobs`: which requests a restart takes up again.
use nitpicker_daemon.Prelude.{
  String, Bool, false, Option, none, some, List, [], ◌∷◌, ◌==◌, ◌≡◌, refl, any, map, keep, All,
  eq_iff, arith, Bool-cases, inl, inr, eq_refl,
}
use nitpicker_daemon.Models.{
  ReviewState, ReviewRequest, queued, context_ready, analyzing, patch_proposed,
}
use nitpicker_daemon.State.Machine.{member}
use nitpicker_daemon.State.Spooler.{
  Row, JobStore, first, has_id, get_request, loaded, list_recoverable_jobs, is_recoverable,
}
use nitpicker_daemon.State.Spooler.Keys.{Distinct, Absent, IsKeyed}
use nitpicker_daemon.State.Spooler.Audit.{state_of}

abbrev id_of : Row → String
id_of r = r.request.request_id

found_behind :
    (r : Row) (rs xs : List Row)
    → Absent (λ q. q.request_id) (id_of r) xs
    → All (λ x. first (has_id (id_of x)) rs ≡ some x) xs
    → All (λ x. first (has_id (id_of x)) (r ∷ rs) ≡ some x) xs
found_behind r rs [] n h = tt
found_behind r rs (x ∷ xs) n h =
    (ground (arith, eq_iff (id_of r) (id_of x)), found_behind r rs xs n.1 h.1)

-- where identifiers are distinct, each row is the one that its identifier finds
found-All :
    (rows : List Row)
    → Distinct (λ q. q.request_id) rows
    → All (λ x. first (has_id (id_of x)) rows ≡ some x) rows
found-All [] d = tt
found-All (r ∷ rs) d = (rw (eq_refl (id_of r)), found_behind r rs rs d.0 (found-All rs d.1))

abbrev requests : List Row → List ReviewRequest
requests = map (λ r. r.request)

loaded_found :
    (store : JobStore) (xs : List Row)
    → All (λ x. first (has_id (id_of x)) store.rows ≡ some x) xs
    → loaded store (keep is_recoverable xs) ≡ requests (keep is_recoverable xs)
unfolding loaded get_request
loaded_found store [] h = refl
loaded_found store (x ∷ xs) h = elim (Bool-cases (is_recoverable x)) [
  | inl e ↦ rw (e, keep) (ground (arith, h.0, loaded_found store xs h.1))
  | inr e ↦ rw (e, keep) (loaded_found store xs h.1)
]

abbrev recoverable_states : List ReviewState
recoverable_states = queued ∷ context_ready ∷ analyzing ∷ patch_proposed ∷ []

abbrev pub among_recoverable : Option ReviewState → Bool
among_recoverable none = false
among_recoverable (some st) = member st recoverable_states

Absent-requests :
    (id : String) (xs : List Row)
    → Absent (λ q. q.request_id) id xs
    → any (λ q. q.request_id == id) (requests (keep is_recoverable xs)) ≡ false
Absent-requests id [] n = refl
Absent-requests id (x ∷ xs) n = elim (Bool-cases (is_recoverable x)) [
  | inl e ↦ rw (e, keep) (ground (arith, Absent-requests id xs n.1, eq_iff (id_of x) id))
  | inr e ↦ rw (e, keep) (Absent-requests id xs n.1)
]

requests_found :
    (id : String) (xs : List Row)
    → Distinct (λ q. q.request_id) xs
    → any (λ q. q.request_id == id) (requests (keep is_recoverable xs))
      ≡ among_recoverable (state_of (first (has_id id) xs))
requests_found id [] d = refl
requests_found id (x ∷ xs) d = elim (Bool-cases (id_of x == id)) [
  | inl here ↦
      let absent = Absent-requests id xs (rw (← (eq_iff (id_of x) id).0 here) d.0) in
      ground (arith, absent, eq_iff (id_of x) id)
  | inr there ↦ ground (arith, requests_found id xs d.1)
]

-- In a store whose identifiers and keys are distinct, a request is listed for recovery exactly if
-- its row is in one of the states queued, context_ready, analyzing and patch_proposed.
pub list_recoverable_complete :
    (store : JobStore) (id : String)
    → IsKeyed store
    → any (λ q. q.request_id == id) (list_recoverable_jobs store)
      ≡ among_recoverable (state_of (first (has_id id) store.rows))
unfolding list_recoverable_jobs
list_recoverable_complete store id h =
    rw (loaded_found store store.rows (found-All store.rows h.ids))
      (requests_found id store.rows h.ids)
