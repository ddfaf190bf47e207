-- ===== src/Ipc/Tasks.antt =====
-- The permits of the router, in every order of messages, completions and stops.
use nitpicker_daemon.Prelude.{
  ◌++◌, suc, inr, inl, ℕ, ◌+◌, Bool, true, false, List, [], ◌∷◌, ◌≡◌, refl, arith, any, eqb, length,
  length-append, All, Bool-cases,
}
use nitpicker_daemon.Ipc.{
  suc, Router, start_router, discard, Step, accept, on_task_done, stop, Steps, here, then_step,
  Loop, at_head, polling, receiving, waiting, closing, closed, returned, poll_socket, no_event,
  event, invalid_frames, valid_frames, leave, cancelled, close, interrupted, graceful_shutdown,
}

pub length-discard :
    (task : ℕ) (tasks : List ℕ)
    → any (eqb task) tasks ≡ true
    → length (discard task tasks) + 1 ≡ length tasks
unfolding discard
length-discard task [] h = ground (arith, h)
length-discard task (t ∷ rest) h = ground (arith, length-discard task rest)

All-discard :
    (P : ℕ → Type 0) (task : ℕ) (tasks : List ℕ) → All P tasks → All P (discard task tasks)
unfolding discard
All-discard P task [] h = tt
All-discard P task (t ∷ rest) h = elim (Bool-cases (eqb t task)) [
  | inl e ↦ rw e h.1
  | inr e ↦ rw e (h.0, All-discard P task rest h.1)
]

-- a task that is waited for is done if all of these are
awaited_done :
    (task : ℕ) (awaited tasks : List ℕ)
    → any (eqb task) awaited ≡ true
    → All (λ t. any (eqb t) tasks ≡ false) awaited
    → any (eqb task) tasks ≡ false
awaited_done task [] tasks h done = ground (arith, h)
awaited_done task (t ∷ rest) tasks h done = elim (Bool-cases (eqb task t)) [
  | inl e ↦ let same : task ≡ t = ground arith in rw same done.0
  | inr e ↦ awaited_done task rest tasks (ground arith) done.1
]

no_task_left :
    (awaited tasks : List ℕ)
    → All (λ t. any (eqb t) awaited ≡ true) tasks
    → All (λ t. any (eqb t) tasks ≡ false) awaited
    → tasks ≡ []
no_task_left awaited [] waited done = refl
no_task_left awaited (t ∷ rest) waited done =
    let no = awaited_done t awaited (t ∷ rest) waited.0 done in ground arith

-- in the shutdown every task is waited for, and after it there is none
abbrev pub Tracked : Loop → List ℕ → List ℕ → Type 0
Tracked closing awaited tasks = All (λ t. any (eqb t) awaited ≡ true) tasks
Tracked closed awaited tasks = tasks ≡ []
Tracked _ awaited tasks = Unit

Tracked-discard :
    (loop : Loop) (awaited tasks : List ℕ) (task : ℕ)
    → Tracked loop awaited tasks
    → Tracked loop awaited (discard task tasks)
unfolding discard
Tracked-discard closing awaited tasks task h = All-discard _ task tasks h
Tracked-discard closed awaited tasks task h = rw h refl
Tracked-discard at_head awaited tasks task h = tt
Tracked-discard polling awaited tasks task h = tt
Tracked-discard receiving awaited tasks task h = tt
Tracked-discard waiting awaited tasks task h = tt
Tracked-discard returned awaited tasks task h = tt

All-later :
    (task : ℕ) (awaited tasks : List ℕ)
    → All (λ t. any (eqb t) awaited ≡ true) tasks
    → All (λ t. any (eqb t) (task ∷ awaited) ≡ true) tasks
All-later task awaited [] h = tt
All-later task awaited (t ∷ rest) h = (ground (arith, h.0), All-later task awaited rest h.1)

All-self : (tasks : List ℕ) → All (λ t. any (eqb t) tasks ≡ true) tasks
All-self [] = tt
All-self (t ∷ rest) = (ground arith, All-later t rest rest (All-self rest))

-- the shutdown starts once, when the loop ends
abbrev pub Once : Loop → Bool → Type 0
Once closing started = Unit
Once closed started = Unit
Once returned started = Unit
Once _ started = started ≡ false

-- every permit is free or held by one task that is not done
pub record Balanced (max : ℕ) (r : Router) : Type 0 where
  pub permits : r.semaphore + length r.background_tasks ≡ max
  pub limit : r.max_concurrent_jobs ≡ max
  pub tracked : Tracked r.loop r.awaited r.background_tasks
  pub once : Once r.loop r.shutdown_started

permits-append :
    (max free : ℕ) (semaphore : ℕ) (tasks : List ℕ) (task : ℕ)
    → semaphore ≡ suc free
    → semaphore + length tasks ≡ max
    → free + length (tasks ++ task ∷ []) ≡ max
permits-append max free semaphore tasks task e h =
    omega (arith, h, e, length-append tasks (task ∷ []))

shutdown-Balanced : (max : ℕ) (r : Router) → Balanced max r → Balanced max (graceful_shutdown r)
unfolding graceful_shutdown
shutdown-Balanced max r b = elim (Bool-cases r.shutdown_started) [
  | inl e ↦ rw e (record { permits = b.permits; limit = b.limit; tracked = tt; once = tt })
  | inr e ↦ rw e (record {
    permits = b.permits;
    limit = b.limit;
    tracked = All-self r.background_tasks;
    once = tt;
  })
]

moved :
    {max : ℕ} {r : Router} (loop : Loop)
    → Balanced max r
    → Tracked loop r.awaited r.background_tasks
    → Once loop r.shutdown_started
    → Balanced max (record r { loop = loop })
moved loop b h o = record { permits = b.permits; limit = b.limit; tracked = h; once = o }

Balanced-Step : (max : ℕ) {r s : Router} → Step r s → Balanced max r → Balanced max s
Balanced-Step max (poll_socket r at run) b = moved polling b tt (rw at at b.once)
Balanced-Step max (no_event r at) b = moved at_head b tt (rw at at b.once)
Balanced-Step max (event r at) b = moved receiving b tt (rw at at b.once)
Balanced-Step max (invalid_frames r at) b = moved at_head b tt (rw at at b.once)
Balanced-Step max (valid_frames r at) b = moved waiting b tt (rw at at b.once)
Balanced-Step max (accept r task free at e fresh) b = record {
  permits = permits-append max free r.semaphore r.background_tasks task e b.permits;
  limit = b.limit;
  tracked = tt;
  once = rw at at b.once;
}
Balanced-Step max (leave r at off) b = shutdown-Balanced max r b
Balanced-Step max (cancelled r at) b = shutdown-Balanced max r b
Balanced-Step max (on_task_done r task e) b = record {
  permits = omega (arith, b.permits, length-discard task r.background_tasks e);
  limit = b.limit;
  tracked = Tracked-discard r.loop r.awaited r.background_tasks task b.tracked;
  once = b.once;
}
Balanced-Step max (stop r) b = record {
  permits = b.permits;
  limit = b.limit;
  tracked = b.tracked;
  once = b.once;
}
Balanced-Step max (close r at done) b =
    moved closed b (no_task_left r.awaited r.background_tasks (rw at at b.tracked) done) tt
Balanced-Step max (interrupted r at) b = moved returned b tt tt

pub steps-Balanced : (max : ℕ) {r s : Router} → Balanced max r → Steps r s → Balanced max s
steps-Balanced max b (here _) = b
steps-Balanced max b (then_step rest step) = Balanced-Step max step (steps-Balanced max b rest)

pub start-Balanced : (max : ℕ) → Balanced max (start_router max)
unfolding start_router
start-Balanced max = record { permits = omega arith; limit = refl; tracked = tt; once = refl }
