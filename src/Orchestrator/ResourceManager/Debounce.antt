-- ===== src/Orchestrator/ResourceManager/Debounce.antt =====
-- The debounce window and the token budget of `DefaultResourceManager`.
use nitpicker_daemon.Prelude.{
  ℕ, ◌-◌, ◌+◌, ◌<◌, ◌≤◌, String, true, false, List, [], ◌∷◌, leb, if◌then◌else◌, ◌≡◌, arith, refl,
  eq_refl, All, ◌==◌, ◌∙◌,
}
use nitpicker_daemon.Python.Json.{get_or, insert, lookup-insert}
use nitpicker_daemon.Models.{ReviewRequest}
use nitpicker_daemon.Orchestrator.ResourceManager.{
  ResourceManager, wait_of, debounce_key, allow_new_job, reserve_tokens,
}

abbrev last_of : String → ResourceManager → ℕ
last_of key m = get_or key 0 m.last_request_at

last-insert :
    (k j : String) (t : ℕ) (d : List (String × ℕ))
    → get_or j 0 (insert k t d) ≡ (if k == j then t else get_or j 0 d)
last-insert k j t d = ground (arith, lookup-insert k j t d)

-- jobs with the times at which they come
abbrev pub Jobs : Type 0
Jobs = List (ReviewRequest × ℕ)

unfoldable pub serve : Jobs → ResourceManager → ResourceManager
serve [] m = m
serve ((request, now) ∷ rest) m = serve rest (allow_new_job request now m).1

-- once a job was let through at `t`, the time of its key is no earlier after any later jobs
last-allow :
    (key : String) (request : ReviewRequest) (t now : ℕ) (m : ResourceManager)
    → t ≤ now
    → t ≤ last_of key m
    → t ≤ last_of key (allow_new_job request now m).1
unfolding allow_new_job
last-allow key request t now m h l =
    ground (arith, last-insert (debounce_key request) key now m.last_request_at)

config-allow :
    (request : ReviewRequest) (now : ℕ) (m : ResourceManager)
    → ((allow_new_job request now m).1.debounce ≡ m.debounce)
      × ((allow_new_job request now m).1.breaker_open ≡ m.breaker_open)
unfolding allow_new_job
config-allow request now m = ground arith

last-serve :
    (key : String) (t : ℕ) (jobs : Jobs) (m : ResourceManager)
    → All (λ j. t ≤ j.1) jobs
    → t ≤ last_of key m
    → (t ≤ last_of key (serve jobs m)) × ((serve jobs m).debounce ≡ m.debounce)
unfolding serve
last-serve key t [] m h l = (l, refl)
last-serve key t ((request, now) ∷ rest) m h l =
    let ih =
      last-serve key t rest (allow_new_job request now m).1 h.1
        (last-allow key request t now m h.0 l) in
    (ih.0, ih.1 ∙ (config-allow request now m).0)

last_of_allowed :
    (request : ReviewRequest) (t : ℕ) (m : ResourceManager)
    → 0 < wait_of request m
    → (allow_new_job request t m).0 ≡ true
    → t ≤ last_of (debounce_key request) (allow_new_job request t m).1
unfolding allow_new_job
last_of_allowed request t m pos ok =
    let key = debounce_key request in
    ground (arith, last-insert key key t m.last_request_at, eq_refl key)

wait_kept :
    (request : ReviewRequest) (m m' : ResourceManager)
    → m'.debounce ≡ m.debounce
    → wait_of request m' ≡ wait_of request m
wait_kept request m m' e = rw e

-- a request within its window is refused
refused :
    (request : ReviewRequest) (now : ℕ) (m : ResourceManager)
    → 0 < wait_of request m
    → now < last_of (debounce_key request) m + wait_of request m
    → (allow_new_job request now m).0 ≡ false
unfolding allow_new_job
refused request now m pos h = ground arith

-- If a job of an intent with a waiting time was let through, a job of the same intent and file is
-- refused before this time has passed, whatever other jobs asked in between, at times that are no
-- earlier than the first job's.
pub debounce_window :
    (request : ReviewRequest) (t now : ℕ) (jobs : Jobs) (m : ResourceManager)
    → 0 < wait_of request m
    → (allow_new_job request t m).0 ≡ true
    → All (λ j. t ≤ j.1) jobs
    → now < t + wait_of request m
    → (allow_new_job request now (serve jobs (allow_new_job request t m).1)).0 ≡ false
debounce_window request t now jobs m pos ok later soon =
    let m' = (allow_new_job request t m).1 in
    let kept =
      last-serve (debounce_key request) t jobs m' later (last_of_allowed request t m pos ok) in
    let same_wait = wait_kept request m (serve jobs m') (kept.1 ∙ (config-allow request t m).0) in
    refused request now (serve jobs m') (rw same_wait pos) (omega (arith, kept.0, same_wait))

-- If a job was let through, the same job directly after it is let through exactly if the waiting
-- time of its intent has passed between the two.
pub allow_twice :
    (request : ReviewRequest) (t now : ℕ) (m : ResourceManager)
    → (allow_new_job request t m).0 ≡ true
    → (allow_new_job request now (allow_new_job request t m).1).0
      ≡ leb (wait_of request m) (now - t)
unfolding allow_new_job
allow_twice request t now m ok = ground (
  arith,
  last-insert (debounce_key request) (debounce_key request) t m.last_request_at,
  eq_refl (debounce_key request),
)

-- the answers to a sequence of reservations
unfoldable pub granted : List ℕ → ResourceManager → ℕ
granted [] m = 0
granted (a ∷ rest) m =
    let (given, m') = reserve_tokens a m in (if given then a else 0) + granted rest m'

unfoldable pub reserve_all : List ℕ → ResourceManager → ResourceManager
reserve_all [] m = m
reserve_all (a ∷ rest) m = reserve_all rest (reserve_tokens a m).1

-- Over any sequence of reservations, the tokens granted and the tokens left add up to the budget
-- before it.
pub granted-conserved :
    (amounts : List ℕ) (m : ResourceManager)
    → granted amounts m + (reserve_all amounts m).token_budget ≡ m.token_budget
unfolding granted reserve_all reserve_tokens
granted-conserved [] m = omega arith
granted-conserved (a ∷ rest) m = ground (arith, granted-conserved rest (reserve_tokens a m).1)
