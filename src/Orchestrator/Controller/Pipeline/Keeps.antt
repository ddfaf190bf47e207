-- ===== src/Orchestrator/Controller/Pipeline/Keeps.antt =====
-- What every stage of a run leaves true: a property of the world that survives each call on the
-- job store for this request, and each change of the other objects.
use nitpicker_daemon.Prelude.{ℕ, String, Bool, ◌≡◌, refl, if◌then◌else◌, Option-cases, inl, inr}
use nitpicker_daemon.Python.Errors.{Error, Result, ok, raised}
use nitpicker_daemon.Python.Exec.{Exec, pure, raise, lift, modify, try_except, ◌>>=◌}
use nitpicker_daemon.Python.Exec.Triple.{
  Post, Triple, Triple-pure, Triple-raise, Triple-lift, Triple-bind, Triple-try, Triple-if,
}
use nitpicker_daemon.Python.Json.{Json, Dict}
use nitpicker_daemon.Models.{ReviewRequest, ReviewState, ContextBundle}
use nitpicker_daemon.State.Spooler.{stage, append_event, transition_state, mark_terminal}
use nitpicker_daemon.Services.ArtifactPublisher.{Outbox}
use nitpicker_daemon.Orchestrator.ResourceManager.{ResourceManager}
use nitpicker_daemon.Orchestrator.Controller.{
  World, Agent, ReviewOrchestrator, stored, published, managed, set_state, transition,
  mark_terminal_safe, record_stage_event_best_effort, record_failure_transition_best_effort,
}
use nitpicker_daemon.Orchestrator.Controller.Failures.{settle, classify_failure}
use nitpicker_daemon.Orchestrator.Controller.Agents.{run_agent}
use nitpicker_daemon.Orchestrator.Controller.Pipeline.{offload, warm_cache}

pub record Closed (id : String) (J : World → Type 0) : Type 0 where
  pub transitions :
      (f t : ReviewState) (reason : String) (code : Json) (w : World)
      → J w
      → J (record w { store = (transition_state id f t reason code w.store).1 })
  pub terminals :
      (st : ReviewState) (reason : String) (code : Json) (w : World)
      → J w
      → J (record w { store = (mark_terminal id st reason code w.store).1 })
  pub stages :
      (name phase code : String) (details : Dict) (w : World)
      → J w
      → J (record w { store = append_event id (stage name phase code details) w.store })
  pub boxes : (box : Outbox) (w : World) → J w → J (record w { outbox = box })
  pub managers : (m : ResourceManager) (w : World) → J w → J (record w { resources = m })
  pub states : (st : ReviewState) (w : World) → J w → J (record w { current_state = st })

abbrev pub Keeps : (World → Type 0) → {A : Type 0} → Exec World A → Type 0
Keeps J m = Triple J m (λ _. J) (λ _. J)

either :
    {A : Type 0} (J : World → Type 0) (r : Result A) (w : World) → J w → Post (λ _. J) (λ _. J) r w
either J (ok a) w h = h
either J (raised e) w h = h

module _ {J : World → Type 0} where
  pub Keeps-bind :
      {A B : Type 0} {m : Exec World A} {f : A → Exec World B}
      → Keeps J m
      → ((a : A) → Keeps J (f a))
      → Keeps J (m >>= f)
  Keeps-bind t k = Triple-bind (λ _. J) t k

  pub Keeps-pure : {A : Type 0} (a : A) → Keeps J (pure a)
  Keeps-pure a = Triple-pure a λ w h. h

  pub Keeps-raise : {A : Type 0} (e : Error) → Keeps J (raise {A = A} e)
  Keeps-raise e = Triple-raise e λ w h. h

  pub Keeps-lift : {A : Type 0} (r : Result A) → Keeps J (lift r)
  Keeps-lift r = Triple-lift r (either J r)

  pub Keeps-if :
      {A : Type 0} (b : Bool) {m n : Exec World A}
      → Keeps J m
      → Keeps J n
      → Keeps J (if b then m else n)
  Keeps-if b t f = Triple-if b (λ _. t) (λ _. f)

  pub Keeps-try :
      {A : Type 0} {m : Exec World A} {h : Error → Exec World A}
      → Keeps J m
      → ((e : Error) → Keeps J (h e))
      → Keeps J (try_except m h)
  Keeps-try t k = Triple-try t k

  pub Keeps-published :
      ((box : Outbox) (w : World) → J w → J (record w { outbox = box }))
      → (m : Exec Outbox (Unit {0})) → Keeps J (published m)
  unfolding published
  Keeps-published boxes m = record {
    at = λ w h. either J (m w.outbox).0 (record w { outbox = (m w.outbox).1 }) (boxes _ w h);
  }

module _ {id : String} {J : World → Type 0} (c : Closed id J) where
  pub Keeps-managed : {A : Type 0} (f : ResourceManager → A × ResourceManager) → Keeps J (managed f)
  unfolding managed
  Keeps-managed f = record { at = λ w h. c.managers _ w h }

  pub Keeps-set_state : (st : ReviewState) → Keeps J (set_state st)
  unfolding set_state
  Keeps-set_state st = record { at = λ w h. c.states st w h }

  pub Keeps-transition :
      (f t : ReviewState) (reason : String) (code : Json) → Keeps J (transition id f t reason code)
  unfolding transition stored
  Keeps-transition f t reason code = record {
    at = λ w h.
        either J (transition_state id f t reason code w.store).0
          (record w { store = (transition_state id f t reason code w.store).1 })
          (c.transitions f t reason code w h);
  }

  pub Keeps-failure_transition :
      (f t : ReviewState) (reason : String) (code : Json)
      → Keeps J (record_failure_transition_best_effort id f t reason code)
  unfolding record_failure_transition_best_effort
  Keeps-failure_transition f t reason code =
      Keeps-try (Keeps-transition f t reason code) λ e. Keeps-pure tt

  pub Keeps-mark_terminal :
      (st : ReviewState) (reason : String) (code : Json)
      → Keeps J (mark_terminal_safe id st reason code)
  unfolding mark_terminal_safe stored
  Keeps-mark_terminal st reason code =
      Keeps-try
        (record {
          at = λ w h.
              either J (mark_terminal id st reason code w.store).0
                (record w { store = (mark_terminal id st reason code w.store).1 })
                (c.terminals st reason code w h);
        })
        λ e. Keeps-pure tt

  pub Keeps-stage :
      (name phase code : String) (details : Dict)
      → Keeps J (record_stage_event_best_effort id name phase code details)
  unfolding record_stage_event_best_effort stored modify
  Keeps-stage name phase code details = record { at = λ w h. c.stages name phase code details w h }

module _ (s : ReviewOrchestrator) (request : ReviewRequest) {J : World → Type 0}
    (c : Closed request.request_id J) where
  pub Keeps-offload : (context : ContextBundle) → Keeps J (offload s request context)
  unfolding offload
  Keeps-offload context = elim (Option-cases s.offload_gateway) [
    | inl e ↦ rw e (Keeps-pure tt)
    | inr (send, e) ↦ rw e (
        Keeps-if _
          (Keeps-try (Keeps-bind (Keeps-lift _) λ a. Keeps-published c.boxes _) λ e. Keeps-pure tt)
          (Keeps-pure tt))
  ]

  pub Keeps-warm_cache : (context : ContextBundle) → Keeps J (warm_cache s request context)
  unfolding warm_cache
  Keeps-warm_cache context = elim (Option-cases s.context_cache_manager) [
    | inl e ↦ rw e (Keeps-pure tt)
    | inr (get_or_create, e) ↦ rw e (
        Keeps-try
          (Keeps-if _ (Keeps-bind (Keeps-lift _) λ hit. Keeps-published c.boxes _) (Keeps-pure tt))
          λ e. Keeps-if _ (Keeps-pure tt) (Keeps-raise e))
  ]

  pub Keeps-run_agent :
      (context : ContextBundle) (ordinal total : ℕ) (a : Agent)
      → Keeps J (run_agent request context ordinal total a)
  unfolding run_agent
  Keeps-run_agent context ordinal total a = Keeps-bind (Keeps-stage c _ _ _ _) λ _.
      Keeps-bind
        (Keeps-try (Keeps-lift _) λ e. Keeps-bind (Keeps-stage c _ _ _ _) λ _. Keeps-raise e)
        λ d. Keeps-bind (Keeps-stage c _ _ _ _) λ _. Keeps-pure d

  pub Keeps-settle : (e : Error) (w : World) → Keeps J (settle s request e (classify_failure e) w)
  unfolding settle
  Keeps-settle e w =
      Keeps-if _
        (Keeps-bind
          (Keeps-if _ (Keeps-bind (Keeps-failure_transition c _ _ _ _) λ _. Keeps-set_state c _)
            (Keeps-pure tt))
          λ _. Keeps-mark_terminal c _ _ _)
        (Keeps-pure tt)

module _ {J : World → Type 0} where
  pub Fact-bind :
      {A B : Type 0} {F : A → Type 0} {R : B → World → Type 0} {m : Exec World A}
      {f : A → Exec World B}
      → Triple J m (λ a w. J w × F a) (λ _. J)
      → ((a : A) → F a → Triple J (f a) R (λ _. J))
      → Triple J (m >>= f) R (λ _. J)
  Fact-bind {F} t k =
      Triple-bind (λ a w. J w × F a) t λ a. record { at = λ w h. (k a h.1).at w h.0 }

  pub Keeps-then :
      {A B : Type 0} {R : B → World → Type 0} {m : Exec World A} {f : A → Exec World B}
      → Keeps J m
      → ((a : A) → Triple J (f a) R (λ _. J))
      → Triple J (m >>= f) R (λ _. J)
  Keeps-then t k = Triple-bind (λ _. J) t k

  pub Fact-pure :
      {A : Type 0} (F : A → Type 0) (a : A) → F a → Triple J (pure a) (λ a w. J w × F a) (λ _. J)
  Fact-pure F a f = Triple-pure a λ w h. (h, f)

  pub Fact-lift : {A : Type 0} (r : Result A) → Triple J (lift r) (λ a w. J w × (r ≡ ok a)) (λ _. J)
  Fact-lift (ok a) = Triple-lift (ok a) λ w h. (h, refl)
  Fact-lift (raised e) = Triple-lift (raised e) λ w h. h
