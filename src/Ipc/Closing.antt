-- ===== src/Ipc/Closing.antt =====
-- The end of the router: from where it is, tasks that are done and a stop lead to a closed socket.
use nitpicker_daemon.Prelude.{
  ◌<◌, zero, ℕ, suc, ◌+◌, ◌≤◌, true, false, List, [], ◌∷◌, ◌≡◌, ◌≢◌, refl, arith, any, eqb, length,
  All,
}
use nitpicker_daemon.Ipc.{
  Router, start_router, discard, Step, accept, on_task_done, stop, Steps, here, then_step, Loop,
  at_head, polling, receiving, waiting, closing, closed, returned, no_event, invalid_frames, leave,
  cancelled, close, interrupted, graceful_shutdown,
}
use nitpicker_daemon.Ipc.Tasks.{Balanced, steps-Balanced, start-Balanced, length-discard}

none_known : (awaited : List ℕ) → All (λ task. any (eqb task) [] ≡ false) awaited
none_known [] = tt
none_known (t ∷ rest) = (refl, none_known rest)

-- the cancellations of the loop and of the shutdown in a step, and in steps
cancels : {r s : Router} → Step r s → ℕ
cancels (cancelled _ _) = 1
cancels (interrupted _ _) = 1
cancels _ = 0

pub cancellations : {r s : Router} → Steps r s → ℕ
unfolding cancels
cancellations (here _) = 0
cancellations (then_step rest step) = cancellations rest + cancels step

-- steps that cancel nothing and end with a closed socket
pub record CanClose (r : Router) : Type 0 where
  pub last_state : Router
  pub steps : Steps r last_state
  pub none_cancelled : cancellations steps ≡ 0
  pub socket_closed : last_state.loop ≡ closed

-- the end of the shutdown: every task is done, then the socket is closed
drain :
    (n : ℕ) (tasks : List ℕ) {r s : Router} (before : Steps r s)
    → cancellations before ≡ 0
    → s.loop ≡ closing
    → s.background_tasks ≡ tasks
    → length tasks ≡ n
    → CanClose r
unfolding cancellations cancels
drain n [] {s = s} before quiet at same size = record {
  last_state = record s { loop = closed };
  steps = then_step before (close s at (rw same (none_known s.awaited)));
  none_cancelled = omega (arith, quiet);
  socket_closed = refl;
}
drain zero (t ∷ rest) before quiet at same size = absurd (omega (arith, size))
drain (suc n) (t ∷ rest) {s = s} before quiet at same size =
    let here_now : any (eqb t) s.background_tasks ≡ true = rw same (ground arith) in
    let less = length-discard t s.background_tasks here_now in
    let all : length s.background_tasks ≡ suc n = rw same size in
    drain n (discard t s.background_tasks) (then_step before (on_task_done s t here_now))
      (omega (arith, quiet)) at refl (omega (arith, less, all))

shutdown-closing : (r : Router) → r.shutdown_started ≡ false → (graceful_shutdown r).loop ≡ closing
unfolding graceful_shutdown
shutdown-closing r h = ground arith

-- at the head of the loop a stop makes it leave, and the shutdown is brought to its end
from_head :
    {r s : Router} (before : Steps r s)
    → cancellations before ≡ 0
    → s.loop ≡ at_head
    → s.shutdown_started ≡ false
    → CanClose r
unfolding cancellations cancels
from_head {s = s} before quiet at idle =
    let off = record s { is_running = false } in
    let ending = graceful_shutdown off in
    drain (length ending.background_tasks) ending.background_tasks
      (then_step (then_step before (stop s)) (leave off at refl)) (omega (arith, quiet))
      (shutdown-closing off idle) refl refl

-- a number that no task has
fresh_id : List ℕ → ℕ
fresh_id [] = 0
fresh_id (t ∷ rest) = suc t + fresh_id rest

any-fresh_id : (n : ℕ) (tasks : List ℕ) → fresh_id tasks ≤ n → any (eqb n) tasks ≡ false
unfolding fresh_id
any-fresh_id n [] h = refl
any-fresh_id n (t ∷ rest) h = ground (arith, any-fresh_id n rest)

-- with a free permit the message that waits gets its task
from_permit :
    (free : ℕ) {r s : Router} (before : Steps r s)
    → cancellations before ≡ 0
    → s.loop ≡ waiting
    → s.semaphore ≡ suc free
    → s.shutdown_started ≡ false
    → CanClose r
unfolding cancellations cancels
from_permit free {s = s} before quiet at permit idle =
    let unused = any-fresh_id (fresh_id s.background_tasks) s.background_tasks (omega arith) in
    from_head (then_step before (accept s (fresh_id s.background_tasks) free at permit unused))
      (omega (arith, quiet)) refl idle

-- without one, a task that is done gives it back
from_waiting :
    (semaphore : ℕ) (tasks : List ℕ) (s : Router)
    → s.loop ≡ waiting
    → s.semaphore ≡ semaphore
    → s.background_tasks ≡ tasks
    → 0 < semaphore + length tasks
    → s.shutdown_started ≡ false
    → CanClose s
unfolding cancellations cancels
from_waiting (suc free) tasks s at permit same some_permit idle =
    from_permit free (here s) refl at permit idle
from_waiting zero [] s at permit same some_permit idle = absurd (omega (arith, some_permit))
from_waiting zero (t ∷ rest) s at permit same some_permit idle =
    let here_now : any (eqb t) s.background_tasks ≡ true = rw same (ground arith) in
    from_permit s.semaphore (then_step (here s) (on_task_done s t here_now)) refl at (omega arith)
      idle

closes_from :
    (loop : Loop) (max : ℕ) (s : Router)
    → 0 < max
    → Balanced max s
    → s.loop ≡ loop
    → loop ≢ returned
    → CanClose s
unfolding cancellations cancels
closes_from at_head max s pos b at open_ = from_head (here s) refl at (rw at at b.once)
closes_from polling max s pos b at open_ =
    from_head (then_step (here s) (no_event s at)) refl refl (rw at at b.once)
closes_from receiving max s pos b at open_ =
    from_head (then_step (here s) (invalid_frames s at)) refl refl (rw at at b.once)
closes_from waiting max s pos b at open_ =
    from_waiting s.semaphore s.background_tasks s at refl refl (omega (arith, b.permits, pos))
      (rw at at b.once)
closes_from closing max s pos b at open_ =
    drain (length s.background_tasks) s.background_tasks (here s) refl at refl refl
closes_from closed max s pos b at open_ = record {
  last_state = s;
  steps = here s;
  none_cancelled = refl;
  socket_closed = at;
}
closes_from returned max s pos b at open_ = absurd (open_ refl)

-- If the router has at least one permit, then from every reachable state in which its loop has not
-- returned without closing the socket, there are further steps that cancel neither the loop nor
-- the shutdown and close the socket.
pub always_closes :
    (max : ℕ) (s : Router) → 0 < max → Steps (start_router max) s → s.loop ≢ returned → CanClose s
always_closes max s pos before open_ =
    closes_from s.loop max s pos (steps-Balanced max (start-Balanced max) before) refl open_
