-- ===== src/Ipc/Shutdown.antt =====
-- The shutdown of the router: what is still accepted after a stop.
use nitpicker_daemon.Prelude.{ℕ, ◌+◌, ◌≤◌, true, false, ◌≡◌, refl, arith, length, if◌then◌else◌}
use nitpicker_daemon.Ipc.{
  Router, start_router, Step, accept, on_task_done, stop, Steps, here, then_step, Loop, poll_socket,
  no_event, event, invalid_frames, valid_frames, leave, cancelled, close, interrupted, in_body,
  graceful_shutdown,
}
use nitpicker_daemon.Ipc.Tasks.{steps-Balanced, start-Balanced}

-- the messages accepted in a step, and in steps
accepts : {r s : Router} → Step r s → ℕ
accepts (accept _ _ _ _ _ _) = 1
accepts _ = 0

unfoldable pub accepted : {r s : Router} → Steps r s → ℕ
unfolding accepts
accepted (here _) = 0
accepted (then_step rest step) = accepted rest + accepts step

-- the messages that the loop may still accept without another test of the flag
pending : Loop → ℕ
unfolding in_body
pending loop = if in_body loop then 1 else 0

-- what a step does once the flag is false
record Stops {r s : Router} (step : Step r s) : Type 0 where
  off : s.is_running ≡ false
  fewer : accepts step + pending s.loop ≤ pending r.loop

shutdown-off : (r : Router) → r.is_running ≡ false → (graceful_shutdown r).is_running ≡ false
unfolding graceful_shutdown
shutdown-off r h = ground arith

shutdown-pending : (r : Router) → pending (graceful_shutdown r).loop ≡ 0
unfolding graceful_shutdown pending in_body
shutdown-pending r = ground arith

Step-Stops : {r s : Router} (step : Step r s) → r.is_running ≡ false → Stops step
unfolding accepts pending in_body
Step-Stops (poll_socket r at run) h =
    let no : true ≡ false = cc in let never : ⊥ = cc in absurd never
Step-Stops (no_event r at) h = record { off = h; fewer = omega arith }
Step-Stops (event r at) h = record { off = h; fewer = rw at (omega arith) }
Step-Stops (invalid_frames r at) h = record { off = h; fewer = omega arith }
Step-Stops (valid_frames r at) h = record { off = h; fewer = rw at (omega arith) }
Step-Stops (accept r task free at e fresh) h = record { off = h; fewer = rw at (omega arith) }
Step-Stops (leave r at off) h = record {
  off = shutdown-off r h;
  fewer = omega (arith, shutdown-pending r);
}
Step-Stops (cancelled r at) h = record {
  off = shutdown-off r h;
  fewer = omega (arith, shutdown-pending r);
}
Step-Stops (on_task_done r task e) h = record { off = h; fewer = omega arith }
Step-Stops (stop r) h = record { off = refl; fewer = omega arith }
Step-Stops (close r at done) h = record { off = h; fewer = omega arith }
Step-Stops (interrupted r at) h = record { off = h; fewer = omega arith }

steps-stop :
    {r s : Router} (rest : Steps r s)
    → r.is_running ≡ false
    → (s.is_running ≡ false) × (accepted rest + pending s.loop ≤ pending r.loop)
unfolding accepted
steps-stop (here r) h = (h, omega arith)
steps-stop (then_step rest step) h =
    let ih = steps-stop rest h in
    let last = Step-Stops step ih.0 in (last.off, omega (arith, ih.1, last.fewer))

pending_bound : (loop : Loop) → pending loop ≤ 1
unfolding pending
pending_bound loop = ground arith

-- In every order of steps of the router, after its flag is false it accepts one message at most,
-- and the free permits and the tasks that are not done still add up to the limit on concurrent
-- jobs.
pub accepted_after_stop :
    (max : ℕ) (r s : Router)
    → Steps (start_router max) r
    → r.is_running ≡ false
    → (rest : Steps r s) → (accepted rest ≤ 1) × (s.semaphore + length s.background_tasks ≡ max)
accepted_after_stop max r s before off rest =
    let few = steps-stop rest off in
    let b = steps-Balanced max (steps-Balanced max (start-Balanced max) before) rest in
    (omega (arith, few.1, pending_bound r.loop), b.permits)
