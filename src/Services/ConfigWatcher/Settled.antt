-- ===== src/Services/ConfigWatcher/Settled.antt =====
-- What a second check of the same files finds.
use nitpicker_daemon.Prelude.{
  ℕ, String, Bool, true, false, Option, none, some, List, [], ◌∷◌, ◌≡◌, refl, arith,
}
use nitpicker_daemon.Python.Errors.{Result, ok, raised}
use nitpicker_daemon.Services.ConfigWatcher.{Watches, Surroundings, check_entry, next_entry, check}

module _ (s : Surroundings) where
  open s use {mtime}

  -- a file that was checked without an error is not reported again
  check_entry-again :
      (stamp : Option (Result ℕ)) (name : String) (seen : ℕ) (reported : Bool)
      → (check_entry s stamp name seen).0 ≡ ok reported
      → check_entry s stamp name (check_entry s stamp name seen).1
        ≡ (ok false, (check_entry s stamp name seen).1)
  unfolding check_entry
  check_entry-again none name seen reported h = refl
  check_entry-again (some (raised e)) name seen reported h = ground arith
  check_entry-again (some (ok current)) name seen reported h = ground arith

  next_entry-Settled :
      (name : String) (entry : Result Bool × ℕ) (rest : Watches)
      (later : Result (List String) × Watches) (changed : List String)
      → (next_entry s name entry rest later).0 ≡ ok changed
      → ((reported : Bool)
          → entry.0 ≡ ok reported
          → check_entry s (mtime name) name entry.1 ≡ (ok false, entry.1))
      → ((found : List String) → later.0 ≡ ok found → check s later.1 ≡ (ok [], later.1))
      → check s (next_entry s name entry rest later).1
        ≡ (ok [], (next_entry s name entry rest later).1)
  unfolding next_entry check
  next_entry-Settled name (ok true, seen) rest (ok found, rest') changed h here there =
      rw (here true refl) (rw (there found refl) refl)
  next_entry-Settled name (ok true, seen) rest (raised e, rest') changed h here there = absurd (cc)
  next_entry-Settled name (ok false, seen) rest (found, rest') changed h here there =
      rw (here false refl) (rw (there changed h) refl)
  next_entry-Settled name (raised e, seen) rest later changed h here there = absurd (cc)

  -- If a check of the watched files ends without an error, a second check in the same surroundings
  -- reports no file and changes no time stamp.
  pub check-settled :
      (watches : Watches) (changed : List String)
      → (check s watches).0 ≡ ok changed
      → check s (check s watches).1 ≡ (ok [], (check s watches).1)
  unfolding check
  check-settled [] changed h = refl
  check-settled ((name, seen) ∷ rest) changed h =
      next_entry-Settled name (check_entry s (mtime name) name seen) rest (check s rest) changed h
        (check_entry-again (mtime name) name seen) (check-settled rest)
