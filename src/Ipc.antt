-- ===== src/Ipc.antt =====
-- ipc/zmq_router.py: the answer to one message, and the router's tasks. The sockets are left out;
-- `json.loads` of the payload is an argument.
pub mod Reply
pub mod Tasks
pub mod Shutdown
pub mod Closing
use nitpicker_daemon.Prelude.{
  ℕ, suc, ◌+◌, String, Bool, true, false, not, Option, none, some, List, [], ◌∷◌, ◌++◌, ◌||◌, ◌≡◌,
  if◌then◌else◌, eqb, any, All,
}
use nitpicker_daemon.Python.Errors.{
  Result, ok, raised, Error, ErrorClass, value_error, type_error, attribute_error,
  not_implemented_error,
}
use nitpicker_daemon.Python.Json.{
  Json, str, arr, obj, Dict, fields, lookup, get, get_or, is_str, truthy,
}

abbrev pub Handlers : Type 0
Handlers = List (String × (Dict → Result Json))

-- `reply_data`, without the schema version that both kinds have
pub data ReplyData : Type 0 where
  success : Json → Json → Json → ReplyData
  failure : Json → Json → Error → ReplyData

abbrev pub unknown : Json
unknown = str "UNKNOWN"

abbrev pub request_id_of : Dict → Json
request_id_of d = get_or "request_id" unknown d

abbrev pub message_type_of : Dict → Json
message_type_of d = get_or "message_type" unknown d

abbrev error_of : ErrorClass → String → Error
error_of kind message = record { kind = kind; message = message }

-- `self._handlers.get(msg_type)`: a list or a dictionary cannot be hashed
unfoldable pub find_handler : Handlers → Json → Result (Option (Dict → Result Json))
find_handler handlers (str s) = ok (lookup s handlers)
find_handler handlers (arr _) = raised (error_of type_error "unhashable type: 'list'")
find_handler handlers (obj _) = raised (error_of type_error "unhashable type: 'dict'")
find_handler handlers _ = ok none

abbrev pub answered : Dict → Result Json → ReplyData
answered d (ok response) = success (request_id_of d) (message_type_of d) response
answered d (raised e) = failure (request_id_of d) (message_type_of d) e

abbrev pub handled : Dict → Result (Option (Dict → Result Json)) → ReplyData
handled d (ok (some handler)) = answered d (handler d)
handled d (ok none) =
    failure (request_id_of d) (message_type_of d)
      (error_of not_implemented_error "no handler for the message type")
handled d (raised e) = failure (request_id_of d) (message_type_of d) e

abbrev pub unsupported : Dict → Bool
unsupported d = not (is_str "1.0" (get "schema_version" d)) || not (truthy (message_type_of d))

abbrev pub process_data : Handlers → Dict → ReplyData
process_data handlers d =
    if unsupported d
    then failure (request_id_of d) (message_type_of d)
        (error_of value_error "unsupported schema version or no message type")
    else handled d (find_handler handlers (message_type_of d))

-- `_process_and_reply_wrapper`, from the loaded payload to the reply
unfoldable pub process_and_reply : Handlers → Result Json → ReplyData
unfolding find_handler
process_and_reply handlers (ok (obj f)) = process_data handlers (fields f)
process_and_reply handlers (ok v) =
    failure unknown unknown (error_of attribute_error "the payload has no attribute 'get'")
process_and_reply handlers (raised e) = failure unknown unknown e

-- Where the loop of `start` is: at the test of the flag, in one of the three awaits of its body, in
-- the shutdown, past the closed socket, or returned without it.
pub data Loop : Type 0 where
  at_head : Loop
  polling : Loop
  receiving : Loop
  waiting : Loop
  closing : Loop
  closed : Loop
  returned : Loop

-- the semaphore, the tasks that were started and are not done, the two flags, the place of the loop,
-- and the tasks that the shutdown waits for
pub record Router : Type 0 where
  pub max_concurrent_jobs : ℕ
  pub semaphore : ℕ
  pub background_tasks : List ℕ
  pub is_running : Bool
  pub shutdown_started : Bool
  pub loop : Loop
  pub awaited : List ℕ

unfoldable pub start_router : ℕ → Router
start_router max = record {
  max_concurrent_jobs = max;
  semaphore = max;
  background_tasks = [];
  is_running = true;
  shutdown_started = false;
  loop = at_head;
  awaited = [];
}

-- `set.discard`
unfoldable pub discard : ℕ → List ℕ → List ℕ
discard task [] = []
discard task (t ∷ rest) = if eqb t task then rest else t ∷ discard task rest

-- a message is on its way from the test of the flag to its task
unfoldable pub in_body : Loop → Bool
in_body polling = true
in_body receiving = true
in_body waiting = true
in_body _ = false

-- `_graceful_shutdown`, up to its waits
unfoldable pub graceful_shutdown : Router → Router
graceful_shutdown r = if r.shutdown_started then record r { loop = returned } else record r {
  shutdown_started = true;
  is_running = false;
  loop = closing;
  awaited = r.background_tasks;
}

-- A step between two suspensions: of the loop of `start`, of a task that is done, or of a caller of
-- `stop`. The flag is tested at the head of the loop only. A cancellation ends an await of the body.
-- The socket is closed when all tasks that the shutdown waits for are done, by themselves or
-- cancelled; a cancellation of the shutdown ends it before that.
pub data Step : Router → Router → Type 0 where
  poll_socket :
      (r : Router) → r.loop ≡ at_head → r.is_running ≡ true → Step r (record r { loop = polling })
  no_event : (r : Router) → r.loop ≡ polling → Step r (record r { loop = at_head })
  event : (r : Router) → r.loop ≡ polling → Step r (record r { loop = receiving })
  invalid_frames : (r : Router) → r.loop ≡ receiving → Step r (record r { loop = at_head })
  valid_frames : (r : Router) → r.loop ≡ receiving → Step r (record r { loop = waiting })
  accept :
      (r : Router) (task free : ℕ)
      → r.loop ≡ waiting
      → r.semaphore ≡ suc free
      → any (eqb task) r.background_tasks ≡ false
      → Step r (record r {
        semaphore = free;
        background_tasks = r.background_tasks ++ task ∷ [];
        loop = at_head;
      })
  leave : (r : Router) → r.loop ≡ at_head → r.is_running ≡ false → Step r (graceful_shutdown r)
  cancelled : (r : Router) → in_body r.loop ≡ true → Step r (graceful_shutdown r)
  on_task_done :
      (r : Router) (task : ℕ)
      → any (eqb task) r.background_tasks ≡ true
      → Step r (record r {
        semaphore = r.semaphore + 1;
        background_tasks = discard task r.background_tasks;
      })
  stop : (r : Router) → Step r (record r { is_running = false })
  close :
      (r : Router)
      → r.loop ≡ closing
      → All (λ task. any (eqb task) r.background_tasks ≡ false) r.awaited
      → Step r (record r { loop = closed })
  interrupted : (r : Router) → r.loop ≡ closing → Step r (record r { loop = returned })

pub data Steps : Router → Router → Type 0 where
  here : (r : Router) → Steps r r
  then_step : {r s t : Router} → Steps r s → Step s t → Steps r t
