-- ===== src/Orchestrator/Controller/Pipeline/Isolated.antt =====
-- What a whole run leaves true of the job store, however it ends: the rows of the other requests.
use nitpicker_daemon.Prelude.{String, Bool, false, Option, ◌≡◌, ◌≢◌, refl, ◌∙◌}
use nitpicker_daemon.Python.Errors.{Error, Result, ok, raised}
use nitpicker_daemon.Python.Exec.Triple.{Post, Triple-gets}
use nitpicker_daemon.Models.{ReviewRequest}
use nitpicker_daemon.State.Spooler.{first, has_id, create_request, append_event}
use nitpicker_daemon.State.Spooler.Others.{create_other, transition_other, terminal_other}
use nitpicker_daemon.Orchestrator.Controller.{World, ReviewOrchestrator, stored, set_persisted}
use nitpicker_daemon.Orchestrator.Controller.Failures.{
  handle_duplicate_request, handle_failure, report_failure,
}
use nitpicker_daemon.Orchestrator.Controller.Pipeline.{
  reject_resources, reject_policy, deliver, admit, after_creation, pipeline, run_once,
}
use nitpicker_daemon.Orchestrator.Controller.Pipeline.Keeps.{
  Closed, Keeps, Keeps-bind, Keeps-pure, Keeps-if, Keeps-try, Keeps-published, Keeps-set_state,
  Keeps-transition, Keeps-mark_terminal, Keeps-settle,
}
use nitpicker_daemon.Orchestrator.Controller.Pipeline.Stages.{admit_lem}

Post-either :
    (J : World → Type 0) {A : Type 0} (r : Result A) (w : World) → Post (λ _. J) (λ _. J) r w → J w
Post-either J (ok a) w h = h
Post-either J (raised e) w h = h

either-Post :
    (J : World → Type 0) {A : Type 0} (r : Result A) (w : World) → J w → Post (λ _. J) (λ _. J) r w
either-Post J (ok a) w h = h
either-Post J (raised e) w h = h

module _ (s : ReviewOrchestrator) (request : ReviewRequest) {J : World → Type 0}
    (c : Closed request.request_id J)
    (creates : (w : World) → J w → J (record w { store = (create_request request w.store).1 }))
    (persists : (b : Bool) (w : World) → J w → J (record w { request_persisted = b })) where
  Keeps-admit : Keeps J (admit s request)
  unfolding reject_resources reject_policy deliver
  Keeps-admit =
      admit_lem s request c
        (Keeps-bind (Keeps-mark_terminal c _ _ _)
          λ _. Keeps-bind (Keeps-published c.boxes _) λ _. Keeps-pure _)
        (Keeps-bind (Keeps-transition c _ _ _ _) λ _. Keeps-bind (Keeps-set_state c _) λ _.
          Keeps-bind (Keeps-mark_terminal c _ _ _) λ _.
            Keeps-bind (Keeps-published c.boxes _)
              λ _. Keeps-bind (Keeps-published c.boxes _) λ _. Keeps-pure _)
        λ decisions v reviewed. Keeps-bind (Keeps-mark_terminal c _ _ _) λ _.
          Keeps-bind (Keeps-published c.boxes _) λ _. Keeps-bind (Keeps-published c.boxes _) λ _.
            Keeps-bind (Keeps-published c.boxes _)
              λ _. Keeps-bind (Keeps-published c.boxes _) λ _. Keeps-pure _

  Keeps-duplicate : (v : Option String) → Keeps J (handle_duplicate_request s request v)
  unfolding handle_duplicate_request
  Keeps-duplicate v = Keeps-bind (Keeps-published c.boxes _) λ _.
      Keeps-bind (Keeps-published c.boxes _)
        λ _. Keeps-bind (Keeps-published c.boxes _) λ _. Keeps-pure _

  Keeps-persisted : (b : Bool) → Keeps J (set_persisted b)
  unfolding set_persisted
  Keeps-persisted b = record { at = λ w h. persists b w h }

  Keeps-created : Keeps J (stored (create_request request))
  unfolding stored
  Keeps-created = record {
    at = λ w h.
        either-Post J (create_request request w.store).0
          (record w { store = (create_request request w.store).1 }) (creates w h);
  }

  Keeps-handle : (e : Error) → Keeps J (handle_failure s request e)
  unfolding handle_failure report_failure
  Keeps-handle e = Keeps-bind (Triple-gets {Q = λ _. J} (λ w. w) λ w h. h) λ w.
      Keeps-bind (Keeps-settle s request c e w) λ _.
        Keeps-bind (Keeps-published c.boxes _)
          λ _. Keeps-bind (Keeps-published c.boxes _) λ _. Keeps-pure _

  Keeps-run_once : Keeps J (run_once s request)
  unfolding run_once pipeline after_creation
  Keeps-run_once = Keeps-bind (Keeps-set_state c _) λ _. Keeps-bind (Keeps-persisted false) λ _.
      Keeps-try
        (Keeps-bind Keeps-created λ o.
          Keeps-if o.duplicate (Keeps-duplicate o.existing_state)
            (Keeps-bind (Keeps-persisted o.created) λ _. Keeps-admit))
        Keeps-handle

  run_once_keeps : (w : World) → J w → J (run_once s request w).1
  run_once_keeps w h =
      Post-either J (run_once s request w).0 (run_once s request w).1 (Keeps-run_once.at w h)

-- A run leaves the row of every request with another identifier as it was, however it ends.
pub run_once_isolated :
    (s : ReviewOrchestrator) (request : ReviewRequest) (w : World) (other : String)
    → request.request_id ≢ other
    → first (has_id other) (run_once s request w).1.store.rows ≡ first (has_id other) w.store.rows
unfolding append_event
run_once_isolated s request w other ne =
    run_once_keeps s request
      {J = λ v. first (has_id other) v.store.rows ≡ first (has_id other) w.store.rows}
      (record {
        transitions =
            λ f t reason code v h. transition_other _ other f t reason code v.store ne ∙ h;
        terminals = λ st reason code v h. terminal_other _ other st reason code v.store ne ∙ h;
        stages = λ name phase code details v h. h;
        boxes = λ box v h. h;
        managers = λ m v h. h;
        states = λ st v h. h;
      })
      (λ v h. create_other request other v.store ne ∙ h) (λ b v h. h) w refl
