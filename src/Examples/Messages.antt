-- ===== src/Examples/Messages.antt =====
-- The router at concrete messages and steps.
use nitpicker_daemon.Prelude.{arith, true, ◌≤◌, ◌+◌, ◌≢◌, length, false, [], ◌∷◌, ◌≡◌, refl}
use nitpicker_daemon.Python.Errors.{ok}
use nitpicker_daemon.Python.Json.{str, obj, Fields, field, end, fields, get}
use nitpicker_daemon.Ipc.{
  Handlers, success, process_and_reply, Router, start_router, Steps, here, then_step, accept,
  poll_socket, event, valid_frames, stop, polling, receiving, waiting, at_head, closed, returned,
}
use nitpicker_daemon.Ipc.Reply.{Dispatched, success_promises}
use nitpicker_daemon.Ipc.Shutdown.{accepted, accepted_after_stop}
use nitpicker_daemon.Ipc.Closing.{CanClose, always_closes}

abbrev handlers : Handlers
handlers = ("review.request", λ d. ok (str "done")) ∷ []

abbrev message : Fields
message =
    field "schema_version" (str "1.0")
      (field "request_id" (str "r1") (field "message_type" (str "review.request") end))

replied :
    process_and_reply handlers (ok (obj message))
    ≡ success (str "r1") (str "review.request") (str "done")
unfolding process_and_reply
replied = refl

success_promises_example :
    (f : Fields) × (ok (obj message) ≡ ok (obj f))
    × (get "schema_version" (fields f) ≡ str "1.0")
    × Dispatched handlers (fields f) (str "r1") (str "review.request") (str "done")
success_promises_example =
    success_promises handlers (ok (obj message)) (str "r1") (str "review.request") (str "done")
      replied

abbrev stopped : Router
stopped = record {
  max_concurrent_jobs = 2;
  semaphore = 2;
  background_tasks = [];
  is_running = false;
  shutdown_started = false;
  loop = waiting;
  awaited = [];
}

-- a message is on its way when the router is stopped
stopped_late : Steps (start_router 2) stopped
unfolding start_router
stopped_late =
    let polls = record (start_router 2) { loop = polling } in
    let receives = record (start_router 2) { loop = receiving } in
    let waits = record (start_router 2) { loop = waiting } in
    then_step
      (then_step
        (then_step (then_step (here (start_router 2)) (poll_socket (start_router 2) refl refl))
          (event polls refl))
        (valid_frames receives refl))
      (stop waits)

abbrev busy : Router
busy = record stopped { semaphore = 1; background_tasks = 7 ∷ []; loop = at_head }

abbrev one_more : Steps stopped busy
one_more = then_step (here stopped) (accept stopped 7 1 refl refl refl)

accepted_after_stop_example :
    (accepted one_more ≤ 1) × (busy.semaphore + length busy.background_tasks ≡ 2)
accepted_after_stop_example = accepted_after_stop 2 stopped busy stopped_late refl one_more

abbrev gone : Router
gone = record stopped { loop = closed; shutdown_started = true }

not_returned : waiting ≢ returned
not_returned e = let never : ⊥ = cc in never

always_closes_example : CanClose stopped
always_closes_example = always_closes 2 stopped (omega arith) stopped_late not_returned
