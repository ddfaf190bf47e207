-- ===== src/Services/ConfigWatcher.antt =====
-- services/config_watcher.py, `ConfigWatcher`. The file system, the parser of a file and the callbacks
-- are arguments; time stamps are numbers.
pub mod Settled
use nitpicker_daemon.Prelude.{
  ℕ, String, Bool, true, false, ◌||◌, Option, none, some, List, [], ◌∷◌, if◌then◌else◌, eqb,
}
use nitpicker_daemon.Python.Errors.{
  Result, ok, raised, ErrorClass, is_os_error, is_value_error, is_key_error, is_type_error,
  is_runtime_error,
}
use nitpicker_daemon.Python.Json.{Dict, insert}

-- the watched files with the time stamp that was seen last
abbrev pub Watches : Type 0
Watches = List (String × ℕ)

pub record Surroundings : Type 0 where
  -- the time stamp of a file, none if it is no file
  pub mtime : String → Option (Result ℕ)
  -- `_load_file`
  pub load_file : String → Result Dict
  -- the callback that was registered under a name
  pub callback : String → Dict → Result (Unit {0})

-- what `check` catches of a callback
abbrev pub is_caught : ErrorClass → Bool
is_caught k = is_value_error k || (is_key_error k || (is_type_error k || is_runtime_error k))

-- whether a changed file is reported, or the error that ends the check
abbrev pub after_callback : Result (Unit {0}) → Result Bool
after_callback (ok _) = ok true
after_callback (raised e) = if is_caught e.kind then ok true else raised e

abbrev pub after_load : (Dict → Result (Unit {0})) → Result Dict → Result Bool
after_load callback (ok content) = after_callback (callback content)
after_load callback (raised e) = raised e

module _ (s : Surroundings) where
  open s use {mtime, load_file, callback}

  -- one file: whether it is reported, and the time stamp from then on
  unfoldable pub check_entry : Option (Result ℕ) → String → ℕ → Result Bool × ℕ
  check_entry none name seen = (ok false, seen)
  check_entry (some (raised e)) name seen =
      if is_os_error e.kind then (ok false, seen) else (raised e, seen)
  check_entry (some (ok current)) name seen =
      if eqb current seen
      then (ok false, seen)
      else (after_load (callback name) (load_file name), current)

  -- after a file: an error leaves the other files unchecked
  next_entry :
      String
      → Result Bool × ℕ
      → Watches
      → Result (List String) × Watches
      → Result (List String) × Watches
  next_entry name (ok true, seen) rest (ok changed, rest') =
      (ok (name ∷ changed), (name, seen) ∷ rest')
  next_entry name (ok true, seen) rest (raised e, rest') = (raised e, (name, seen) ∷ rest')
  next_entry name (ok false, seen) rest (changed, rest') = (changed, (name, seen) ∷ rest')
  next_entry name (raised e, seen) rest later = (raised e, (name, seen) ∷ rest)

  -- `check`
  unfoldable pub check : Watches → Result (List String) × Watches
  unfolding check_entry next_entry
  check [] = (ok [], [])
  check ((name, seen) ∷ rest) =
      next_entry name (check_entry (mtime name) name seen) rest (check rest)

-- `register`, with the time stamp of the file, if there is one
unfoldable pub register_watch : String → Option ℕ → Watches → Watches
register_watch filename none watches = insert filename 0 watches
register_watch filename (some t) watches = insert filename t watches
