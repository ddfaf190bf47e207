-- ===== src/Reviewer/Watch/Spacing.antt =====
-- The daemon's debounce: reviews of one file are apart, and files do not disturb one another.
use nitpicker_daemon.Prelude.{
  ℕ, ◌+◌, ◌≤◌, String, true, false, ◌&&◌, Option, none, some, List, [], ◌∷◌, ◌==◌, ◌≡◌, refl, sym,
  ◌∙◌, arith, subst, Bool-cases, inl, inr, if◌then◌else◌, eq_iff, keep,
}
use nitpicker_daemon.Python.Json.{get_or, insert, lookup-insert}
use nitpicker_daemon.Reviewer.Settings.{MiniReviewerSettings}
use nitpicker_daemon.Reviewer.Watch.{
  FileSystemEvent, Handler, is_path, handle_path_event, handle, path_of, on_event, reviews,
}

-- each time is at least `gap` after the one before it
abbrev pub IsSpaced : ℕ → ℕ → List ℕ → Type 0
IsSpaced gap last [] = Unit
IsSpaced gap last (t ∷ ts) = (last + gap ≤ t) × IsSpaced gap t ts

get_or-insert :
    (k j : String) (v : ℕ) (h : Handler)
    → get_or j 0 (insert k v h) ≡ (if k == j then v else get_or j 0 h)
get_or-insert k j v h = ground (arith, lookup-insert k j v h)

kept_out :
    (path : String) (e : FileSystemEvent) (events : List FileSystemEvent)
    → is_path path (path_of e) ≡ false
    → keep (λ e. is_path path (path_of e)) (e ∷ events)
      ≡ keep (λ e. is_path path (path_of e)) events
kept_out path e events h = ground arith

module _ (suffix : String → String) (settings : MiniReviewerSettings) where
  -- what one event does, as far as one file is concerned
  handle-started :
      (path : String) (o : Option String) (e : FileSystemEvent) (h : Handler)
      → (handle suffix settings o e h).0 ≡ true
      → is_path path o ≡ true
      → (get_or path 0 h + settings.debounce_seconds ≤ e.now)
        × (get_or path 0 (handle suffix settings o e h).1 ≡ e.now)
  unfolding handle handle_path_event
  handle-started path none e h s p = absurd (cc)
  handle-started path (some q) e h s p =
      let same : q ≡ path = (eq_iff q path).0 p in ground (arith, get_or-insert q path e.now h)

  handle-skipped :
      (path : String) (o : Option String) (e : FileSystemEvent) (h : Handler)
      → ((handle suffix settings o e h).0 && is_path path o) ≡ false
      → get_or path 0 (handle suffix settings o e h).1 ≡ get_or path 0 h
  unfolding handle handle_path_event
  handle-skipped path none e h s = refl
  handle-skipped path (some q) e h s = ground (arith, get_or-insert q path e.now h)

  -- whether a review is started for a file depends on the time of its own last review
  handle-same :
      (path : String) (o : Option String) (e : FileSystemEvent) (h h' : Handler)
      → is_path path o ≡ true
      → get_or path 0 h ≡ get_or path 0 h'
      → (handle suffix settings o e h).0 ≡ (handle suffix settings o e h').0
  unfolding handle handle_path_event
  handle-same path none e h h' p same = refl
  handle-same path (some q) e h h' p same = let is : q ≡ path = (eq_iff q path).0 p in ground arith

  -- two handlers that agree on a file agree on it after an event for it
  handle-agree :
      (path : String) (o : Option String) (e : FileSystemEvent) (h h' : Handler)
      → is_path path o ≡ true
      → get_or path 0 h ≡ get_or path 0 h'
      → get_or path 0 (handle suffix settings o e h).1
        ≡ get_or path 0 (handle suffix settings o e h').1
  handle-agree path o e h h' p same = elim (Bool-cases (handle suffix settings o e h).0) [
    | inl s ↦
        (handle-started path o e h s p).1
        ∙ sym (handle-started path o e h' (sym (handle-same path o e h h' p same) ∙ s) p).1
    | inr s ↦
        handle-skipped path o e h (ground arith)
        ∙ same
        ∙ sym (handle-skipped path o e h' (rw (sym (handle-same path o e h h' p same) ∙ s) refl))
  ]

  -- Over any events of the file system, the daemon starts the reviews of a file at times of which
  -- each is at least the debounce time after the one before it, and the first at least this time
  -- after the last review that it remembers.
  pub reviews-IsSpaced :
      (path : String) (events : List FileSystemEvent) (h : Handler)
      → IsSpaced settings.debounce_seconds (get_or path 0 h) (reviews suffix settings path events h)
  unfolding reviews on_event
  reviews-IsSpaced path [] h = tt
  reviews-IsSpaced path (e ∷ events) h =
      let h' : Handler = (handle suffix settings (path_of e) e h).1 in
      let rest = reviews-IsSpaced path events h' in
      elim (Bool-cases ((handle suffix settings (path_of e) e h).0 && is_path path (path_of e))) [
        | inl go ↦
            let (waited, noted) =
              handle-started path (path_of e) e h (ground arith) (ground arith) in
            rw go (
              waited,
              subst
                  (λ t.
                    IsSpaced settings.debounce_seconds t (reviews suffix settings path events h'))
                  noted rest,
            )
        | inr skip ↦ rw skip (
            subst
              (λ t. IsSpaced settings.debounce_seconds t (reviews suffix settings path events h'))
              (handle-skipped path (path_of e) e h skip) rest)
      ]

  -- If two handlers remember the same time for a file, the reviews of the file started over any
  -- events by one are those that the other starts over the events of this file alone.
  pub reviews-alone :
      (path : String) (events : List FileSystemEvent) (h h' : Handler)
      → get_or path 0 h ≡ get_or path 0 h'
      → reviews suffix settings path (keep (λ e. is_path path (path_of e)) events) h'
        ≡ reviews suffix settings path events h
  unfolding reviews on_event
  reviews-alone path [] h h' same = refl
  reviews-alone path (e ∷ events) h h' same = elim (Bool-cases (is_path path (path_of e))) [
    | inl mine ↦
        let later =
          reviews-alone path events (handle suffix settings (path_of e) e h).1
            (handle suffix settings (path_of e) e h').1
            (handle-agree path (path_of e) e h h' mine same) in
        ground (arith, handle-same path (path_of e) e h h')
    | inr other ↦
        let skip : ((handle suffix settings (path_of e) e h).0 && is_path path (path_of e))
            ≡ false =
          ground arith in
        let later =
          reviews-alone path events (handle suffix settings (path_of e) e h).1 h'
            (handle-skipped path (path_of e) e h skip ∙ same) in
        rw (kept_out path e events other) (later ∙ sym (rw skip refl))
  ]
