-- ===== src/State/Spooler/Audit.antt =====
-- The event log as an audit trail: replayed, it gives the table of requests, and each of its
-- entries was legal when it was written.
use nitpicker_daemon.Prelude.{
  String, true, Option, none, some, List, [], ◌∷◌, ◌++◌, ◌==◌, ◌≡◌, ◌≢◌, refl, if◌then◌else◌,
  eq_iff, arith, Bool-cases, inl, inr,
}
use nitpicker_daemon.Models.{ReviewState, queued}
use nitpicker_daemon.State.Machine.{can_transition}
use nitpicker_daemon.State.Spooler.{
  Row, Event, Payload, review_request, duplicate_ignored, state_changed, terminal, stage, JobStore,
  first, has_id, empty,
}

-- the state of a request after an entry of the log
abbrev pub next : Option ReviewState → Payload → Option ReviewState
next o (review_request s) = some s
next o (state_changed _ t _ _) = some t
next o (terminal s _ _) = some s
next o (duplicate_ignored _ _ _) = o
next o (stage _ _ _ _) = o

-- whether an entry is legal after a request has come to the state `o`
abbrev pub IsLegal : Option ReviewState → Payload → Type 0
IsLegal o (review_request s) = (o ≡ none) × (s ≡ queued)
IsLegal o (state_changed f t _ _) = (o ≡ some f) × (can_transition f t ≡ true)
IsLegal o (terminal _ _ _) = o ≢ none
IsLegal o (duplicate_ignored _ _ _) = o ≢ none
IsLegal o (stage _ _ _ _) = Unit

-- the entries of one request, in order
unfoldable pub trail : String → List Event → List Payload
trail id [] = []
trail id (e ∷ es) = let rest = trail id es in if e.request_id == id then e.payload ∷ rest else rest

unfoldable pub replay : Option ReviewState → List Payload → Option ReviewState
replay o [] = o
replay o (p ∷ ps) = replay (next o p) ps

abbrev pub AllLegal : Option ReviewState → List Payload → Type 0
AllLegal o [] = Unit
AllLegal o (p ∷ ps) = IsLegal o p × AllLegal (next o p) ps

abbrev pub state_of : Option Row → Option ReviewState
state_of none = none
state_of (some r) = some r.state

trail-snoc :
    (id : String) (es : List Event) (e : Event)
    → trail id (es ++ e ∷ [])
      ≡ (if e.request_id == id then trail id es ++ e.payload ∷ [] else trail id es)
unfolding trail
trail-snoc id [] e = refl
trail-snoc id (x ∷ xs) e = ground (arith, trail-snoc id xs e)

replay-snoc :
    (o : Option ReviewState) (ps : List Payload) (p : Payload)
    → replay o (ps ++ p ∷ []) ≡ next (replay o ps) p
unfolding replay
replay-snoc o [] p = refl
replay-snoc o (x ∷ xs) p = replay-snoc (next o x) xs p

AllLegal-snoc :
    (o : Option ReviewState) (ps : List Payload) (p : Payload)
    → AllLegal o ps
    → IsLegal (replay o ps) p
    → AllLegal o (ps ++ p ∷ [])
unfolding replay
AllLegal-snoc o [] p h l = (l, tt)
AllLegal-snoc o (x ∷ xs) p h l = (h.0, AllLegal-snoc (next o x) xs p h.1 l)

-- For each request, the trail replays to the state in the table, and all its entries were legal.
pub record IsAudited (store : JobStore) : Type 0 where
  pub current :
      (id : String) → replay none (trail id store.events) ≡ state_of (first (has_id id) store.rows)
  pub legal : (id : String) → AllLegal none (trail id store.events)

pub IsAudited-empty : IsAudited empty
unfolding replay trail
IsAudited-empty = record { current = λ id. refl; legal = λ id. tt }

-- One entry is added that is legal, and the table follows it.
module _ (store t : JobStore) (h : IsAudited store) (id : String) (p : Payload)
    (added : t.events ≡ store.events ++ record { request_id = id; payload = p } ∷ [])
    (is_legal : IsLegal (state_of (first (has_id id) store.rows)) p)
    (rows_follow : (j : String)
      → state_of (first (has_id j) t.rows) ≡ (
          if id == j
          then next (state_of (first (has_id j) store.rows)) p
          else state_of (first (has_id j) store.rows))) where
  current_snoc : (j : String) → replay none (trail j t.events) ≡ state_of (first (has_id j) t.rows)
  current_snoc j =
      rw (added, trail-snoc)
        (elim (Bool-cases (id == j)) [
          | inl e ↦ rw (e, replay-snoc, h.current j, rows_follow j, e)
          | inr e ↦ rw (e, h.current j, rows_follow j, e)
        ])

  legal_snoc : (j : String) → AllLegal none (trail j t.events)
  legal_snoc j =
      rw (added, trail-snoc)
        (elim (Bool-cases (id == j)) [
          | inl e ↦ rw e (
              AllLegal-snoc none (trail j store.events) p (h.legal j)
                (rw (h.current j, ← (eq_iff id j).0 e) is_legal))
          | inr e ↦ rw e (h.legal j)
        ])

  pub IsAudited-snoc : IsAudited t
  IsAudited-snoc = record { current = current_snoc; legal = legal_snoc }
