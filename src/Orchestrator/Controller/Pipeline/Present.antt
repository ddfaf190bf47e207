-- ===== src/Orchestrator/Controller/Pipeline/Present.antt =====
-- The row of a request while a run works on it, and how it is settled.
use nitpicker_daemon.Prelude.{
  String, Bool, true, Option, none, some, List, [], ◌∷◌, ◌≡◌, ◌||◌, ◌++◌, refl, any, arith, eq_refl,
}
use nitpicker_daemon.Python.Errors.{Error}
use nitpicker_daemon.Python.Exec.{try_except}
use nitpicker_daemon.Python.Exec.Triple.{Triple}
use nitpicker_daemon.Python.Json.{Json}
use nitpicker_daemon.Models.{ReviewState}
use nitpicker_daemon.State.Spooler.{
  Row, JobStore, first, has_id, matches, update, transition_state, mark_terminal, append_event,
}
use nitpicker_daemon.State.Spooler.Audit.{state_of}
use nitpicker_daemon.State.Spooler.Sound.{state-update}
use nitpicker_daemon.Services.ArtifactPublisher.{Channel, Emission, Outbox, emit_safe}
use nitpicker_daemon.Orchestrator.Controller.{World, stored, published, mark_terminal_safe}
use nitpicker_daemon.Orchestrator.Controller.Pipeline.Keeps.{Closed}

any-update :
    (id : String) (p : Row → Bool) (st : ReviewState) (rows : List Row)
    → any (has_id id) (update p st rows) ≡ any (has_id id) rows
unfolding update
any-update id p st [] = refl
any-update id p st (r ∷ rs) = ground (arith, any-update id p st rs)

pub any-append : (p : Row → Bool) (xs ys : List Row) → any p (xs ++ ys) ≡ any p xs || any p ys
any-append p [] ys = refl
any-append p (x ∷ xs) ys = ground (arith, any-append p xs ys)

pub or-true : (b : Bool) → b || true ≡ true
or-true b = ground arith

transition-rows :
    (id j : String) (f t : ReviewState) (reason : String) (code : Json) (store : JobStore)
    → any (has_id j) (transition_state id f t reason code store).1.rows ≡ any (has_id j) store.rows
unfolding transition_state append_event
transition-rows id j f t reason code store =
    ground (arith, any-update j (matches id f) t store.rows)

terminal-rows :
    (id j : String) (t : ReviewState) (reason : String) (code : Json) (store : JobStore)
    → any (has_id j) (mark_terminal id t reason code store).1.rows ≡ any (has_id j) store.rows
unfolding mark_terminal append_event
terminal-rows id j t reason code store = ground (arith, any-update j (has_id id) t store.rows)

-- the request has its row, and the run knows it
abbrev pub Present : String → World → Type 0
Present id w = (any (has_id id) w.store.rows ≡ true) × (w.request_persisted ≡ true)

pub Present-Closed : (id : String) → Closed id (Present id)
unfolding append_event
Present-Closed id = record {
  transitions =
      λ f t reason code w h. (rw (transition-rows id id f t reason code w.store) h.0, h.1);
  terminals = λ st reason code w h. (rw (terminal-rows id id st reason code w.store) h.0, h.1);
  stages = λ name phase code details w h. h;
  boxes = λ box w h. h;
  managers = λ m w h. h;
  states = λ st w h. h;
}

-- and it is in this state
abbrev pub Settled : String → ReviewState → World → Type 0
Settled id st w = Present id w × (state_of (first (has_id id) w.store.rows) ≡ some st)

module _ {E : Error → World → Type 0} where
  pub mark_terminal_settles :
      (id : String) (st : ReviewState) (reason : String) (code : Json)
      → Triple (Present id) (mark_terminal_safe id st reason code) (λ _. Settled id st) E
  unfolding mark_terminal_safe stored try_except mark_terminal append_event
  mark_terminal_settles id st reason code = record {
    at = λ w h. rw h.0 (
      (rw (any-update id (has_id id) st w.store.rows) h.0, h.1),
      rw (state-update id id st w.store.rows h.0, eq_refl id),
    );
  }

  pub emit_safe_quiet :
      {K : World → Type 0}
      → ((box : Outbox) (w : World) → K w → K (record w { outbox = box }))
      → (o : Option Channel) (e : Emission) → Triple K (published (emit_safe o e)) (λ _. K) E
  unfolding published emit_safe
  emit_safe_quiet boxes none e = record { at = λ w h. boxes _ w h }
  emit_safe_quiet boxes (some channel) e = record { at = λ w h. boxes _ w h }
