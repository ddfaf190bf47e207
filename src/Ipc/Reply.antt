-- ===== src/Ipc/Reply.antt =====
-- What a reply says of the message that it answers.
use nitpicker_daemon.Prelude.{
  String, true, Option, none, some, ◌≡◌, refl, arith, Bool-cases, inl, inr, ◌∙◌,
}
use nitpicker_daemon.Python.Errors.{Result, ok, raised}
use nitpicker_daemon.Python.Json.{
  Json, null, bool, num, str, arr, obj, Dict, Fields, fields, lookup, get, is_str, is_str-eq,
}
use nitpicker_daemon.Ipc.{
  Handlers, ReplyData, success, failure, request_id_of, message_type_of, find_handler, answered,
  handled, unsupported, process_and_reply,
}

abbrev pub reply_id : ReplyData → Json
reply_id (success id kind response) = id
reply_id (failure id kind e) = id

handled-id :
    (d : Dict) (r : Result (Option (Dict → Result Json))) → reply_id (handled d r) ≡ request_id_of d
handled-id d (ok (some handler)) = answered_id (handler d)
  where
    answered_id : (a : Result Json) → reply_id (answered d a) ≡ request_id_of d
    answered_id (ok response) = refl
    answered_id (raised e) = refl
handled-id d (ok none) = refl
handled-id d (raised e) = refl

-- The reply to a dictionary names the request that the dictionary names, or UNKNOWN, whether it is
-- a success or an error.
pub reply_keeps_id :
    (handlers : Handlers) (f : Fields)
    → reply_id (process_and_reply handlers (ok (obj f))) ≡ request_id_of (fields f)
unfolding process_and_reply
reply_keeps_id handlers f = elim (Bool-cases (unsupported (fields f))) [
  | inl e ↦ rw e
  | inr e ↦ rw e (handled-id (fields f) (find_handler handlers (message_type_of (fields f))))
]

found_text :
    (handlers : Handlers) (v : Json) (handler : Dict → Result Json)
    → find_handler handlers v ≡ ok (some handler)
    → (s : String) × (v ≡ str s) × (lookup s handlers ≡ some handler)
unfolding find_handler
found_text handlers (str s) handler h = (s, refl, cc)
found_text handlers null handler h = let no : ⊥ = cc in absurd no
found_text handlers (bool b) handler h = let no : ⊥ = cc in absurd no
found_text handlers (num n) handler h = let no : ⊥ = cc in absurd no
found_text handlers (arr i) handler h = let no : ⊥ = cc in absurd no
found_text handlers (obj f) handler h = let no : ⊥ = cc in absurd no

-- what a success says
pub record Dispatched (handlers : Handlers) (d : Dict) (id kind response : Json) : Type 0 where
  pub name : String
  pub handler : Dict → Result Json
  pub kept : id ≡ request_id_of d
  pub named : kind ≡ str name
  pub found : lookup name handlers ≡ some handler
  pub returned : handler d ≡ ok response

module _ (handlers : Handlers) (d : Dict) (id kind response : Json) where
  answered-success :
      (a : Result Json)
      → answered d a ≡ success id kind response
      → (a ≡ ok response) × (id ≡ request_id_of d) × (kind ≡ message_type_of d)
  answered-success (ok r) h = (cc, cc, cc)
  answered-success (raised e) h = let no : ⊥ = cc in absurd no

  handled-success :
      (r : Result (Option (Dict → Result Json)))
      → find_handler handlers (message_type_of d) ≡ r
      → handled d r ≡ success id kind response
      → Dispatched handlers d id kind response
  handled-success (ok (some handler)) e h =
      let (returned, kept, same) = answered-success (handler d) h in
      let (name, text, found) = found_text handlers (message_type_of d) handler e in
      record {
        name = name;
        handler = handler;
        kept = kept;
        named = same ∙ text;
        found = found;
        returned = returned;
      }
  handled-success (ok none) e h = let no : ⊥ = cc in absurd no
  handled-success (raised x) e h = let no : ⊥ = cc in absurd no

-- If the reply to a payload is a success, the payload is a dictionary with the schema version 1.0,
-- a handler is registered under its message type, this handler returned the response, and the
-- reply names the request of the payload and this type.
pub success_promises :
    (handlers : Handlers) (loaded : Result Json) (id kind response : Json)
    → process_and_reply handlers loaded ≡ success id kind response
    → (f : Fields) × (loaded ≡ ok (obj f))
      × (get "schema_version" (fields f) ≡ str "1.0")
      × Dispatched handlers (fields f) id kind response
unfolding process_and_reply
success_promises handlers (ok (obj f)) id kind response =
    elim (Bool-cases (unsupported (fields f))) [
      | inl e ↦ rw e λ h. let no : ⊥ = cc in absurd no
      | inr e ↦ rw e λ h.
          let version : is_str "1.0" (get "schema_version" (fields f)) ≡ true = ground (arith, e) in
          (
            f,
            refl,
            is_str-eq "1.0" (get "schema_version" (fields f)) version,
            handled-success handlers (fields f) id kind response
                (find_handler handlers (message_type_of (fields f))) refl h,
          )
    ]
success_promises handlers (ok v) id kind response = λ h. let no : ⊥ = cc in absurd no
success_promises handlers (raised e) id kind response = λ h. let no : ⊥ = cc in absurd no
