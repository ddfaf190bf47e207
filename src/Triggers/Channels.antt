-- ===== src/Triggers/Channels.antt =====
-- One change is one job, whatever channel it comes from.
use nitpicker_daemon.Prelude.{
  String, true, false, some, List, [], ◌∷◌, ◌≡◌, refl, ap, ◌∙◌, sym, any, Bool-cases, inl, inr, ◌⊎◌,
  concat, take_text,
}
use nitpicker_daemon.Python.Errors.{ok, raised, Error, value_error}
use nitpicker_daemon.Python.Json.{get_or}
use nitpicker_daemon.Models.{ReviewRequest, queued}
use nitpicker_daemon.State.Machine.{value}
use nitpicker_daemon.State.Spooler.{JobStore, conflicts, create_request}
use nitpicker_daemon.State.Spooler.Methods.{create-twice}
use nitpicker_daemon.Triggers.{
  TriggerEvent, TriggerAdapter, digest, build_common, supports, adapt, build_request,
}

abbrev pub target_of : TriggerEvent → String
target_of event = get_or "target_file" "" event.payload

abbrev pub diff_of : TriggerEvent → String
diff_of event = get_or "diff_text" "" event.payload

module _ (sha256 : String → String) where
  abbrev key_of : TriggerEvent → String
  key_of event =
      concat ("idemp_" ∷ take_text 16 (digest sha256 (target_of event) (diff_of event)) ∷ [])

  build_request-key :
      (adapters : List TriggerAdapter) (event : TriggerEvent) (request : ReviewRequest)
      → build_request sha256 adapters event ≡ ok request
      → request.idempotency_key ≡ key_of event
  unfolding build_request adapt build_common
  build_request-key [] event request h = let no : ⊥ = cc in absurd no
  build_request-key (a ∷ rest) event request returned =
      elim (Bool-cases (supports sha256 a event)) [
        | inl e ↦
            let made : ok (adapt sha256 a event) ≡ ok request = rw e at returned in
            let same : request ≡ adapt sha256 a event = cc in ap (λ r. r.idempotency_key) same
        | inr e ↦ build_request-key rest event request (rw e at returned)
      ]

  -- If two events on any channels have the same target file and diff, adapters make requests of
  -- both, and the first of these conflicts with nothing in the job store, then the second is
  -- reported as a duplicate in the state queued after the first was created, and changes no row.
  pub change_is_one_job :
      (adapters others : List TriggerAdapter) (event again : TriggerEvent)
      (request other : ReviewRequest) (store : JobStore)
      → build_request sha256 adapters event ≡ ok request
      → build_request sha256 others again ≡ ok other
      → target_of event ≡ target_of again
      → diff_of event ≡ diff_of again
      → conflicts request store.rows ≡ false
      → let s = (create_request request store).1 in
        ((create_request other s).0
          ≡ ok (record { created = false; duplicate = true; existing_state = some (value queued) }))
        × ((create_request other s).1.rows ≡ s.rows)
  change_is_one_job adapters others event again request other store h k target diff new =
      let keys : key_of event ≡ key_of again = rw (target, diff) in
      let same : other.idempotency_key ≡ request.idempotency_key =
        build_request-key others again other k
        ∙ (sym keys ∙ sym (build_request-key adapters event request h)) in
      let (duplicate, rows, read) = create-twice request other store new same in (duplicate, rows)

  -- For an event, either one of the adapters supports it and the factory makes a request with the
  -- event's target file and diff, or none does and the factory raises a ValueError.
  pub build_request_lem :
      (adapters : List TriggerAdapter) (event : TriggerEvent)
      → (any (λ a. supports sha256 a event) adapters ≡ true)
          × ((r : ReviewRequest) × (build_request sha256 adapters event ≡ ok r)
              × (r.target_file ≡ target_of event)
              × (r.diff_text ≡ diff_of event))
        ⊎ (any (λ a. supports sha256 a event) adapters ≡ false)
          × ((e : Error) × (build_request sha256 adapters event ≡ raised e)
              × (e.kind ≡ value_error))
  unfolding build_request adapt build_common
  build_request_lem [] event = inr (refl, (_, refl, refl))
  build_request_lem (a ∷ rest) event = elim (Bool-cases (supports sha256 a event)) [
    | inl e ↦ rw e (inl (refl, (_, refl, refl, refl)))
    | inr e ↦ rw e (build_request_lem rest event)
  ]
