-- ===== src/Reviewer/Watch.antt =====
-- bin/mini_nitpicker_daemon.py: which events of the file system start a review. A review is a step
-- of its own there, so the handler's result is the file to review. Times are milliseconds.
pub mod Spacing
use nitpicker_daemon.Prelude.{
  ℕ, ◌+◌, String, Bool, true, false, not, ◌&&◌, Option, none, some, List, [], ◌∷◌, ◌==◌,
  if◌then◌else◌, ltb, among,
}
use nitpicker_daemon.Python.Json.{get_or, insert}
use nitpicker_daemon.Reviewer.Settings.{MiniReviewerSettings}

pub data EventKind : Type 0 where
  modified created moved other : EventKind

pub record FileSystemEvent : Type 0 where
  pub kind : EventKind
  pub src_path : String
  -- of a move, if the event has it
  pub dest_path : Option String
  pub is_directory : Bool
  -- `time.time()` when the event is handled
  pub now : ℕ

-- `_last_modified`
abbrev pub Handler : Type 0
Handler = List (String × ℕ)

-- the file of an event that has a handler
abbrev pub path_of : FileSystemEvent → Option String
path_of e = elim e.kind [
  | modified ↦ some e.src_path
  | created ↦ some e.src_path
  | moved ↦ elim e.dest_path [ none ↦ some e.src_path | some dest ↦ some dest ]
  | other ↦ none
]

-- whether an event is for a file
abbrev pub is_path : String → Option String → Bool
is_path path none = false
is_path path (some p) = p == path

module _ (suffix : String → String) (settings : MiniReviewerSettings) where
  -- `suffix` is `Path(path).suffix.lower()`; the result says whether a review is started
  unfoldable pub handle_path_event : String → Bool → ℕ → Handler → Bool × Handler
  handle_path_event path is_directory now h =
      if is_directory
      then (false, h)
      else if not (among (suffix path) settings.file_extensions)
      then (false, h)
      else if ltb now (get_or path 0 h + settings.debounce_seconds)
      then (false, h)
      else (true, insert path now h)

  handle : Option String → FileSystemEvent → Handler → Bool × Handler
  unfolding handle_path_event
  handle none e h = (false, h)
  handle (some path) e h = handle_path_event path e.is_directory e.now h

  -- `on_modified`, `on_created` and `on_moved`
  unfoldable pub on_event : FileSystemEvent → Handler → Bool × Handler
  unfolding handle
  on_event e h = handle (path_of e) e h

  -- the times at which reviews of a file are started, for events in their order
  unfoldable pub reviews : String → List FileSystemEvent → Handler → List ℕ
  unfolding on_event
  reviews path [] h = []
  reviews path (e ∷ events) h =
      let rest = reviews path events (on_event e h).1 in
      if (on_event e h).0 && is_path path (path_of e) then e.now ∷ rest else rest
