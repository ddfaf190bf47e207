-- ===== src/Context/Diff.antt =====
-- context/providers/diff_provider.py, `DiffProvider`.
use nitpicker_daemon.Prelude.{
  ℕ, ◌*◌, String, Bool, false, not, ◌&&◌, List, [], ◌∷◌, ◌==◌, if◌then◌else◌, codes, length, keep,
  splitlines, starts_with,
}
use nitpicker_daemon.Python.Errors.{ok}
use nitpicker_daemon.Python.Json.{Json, num, str}
use nitpicker_daemon.Models.{ReviewRequest}
use nitpicker_daemon.Context.{ContextFragment, Provider}
use nitpicker_daemon.Context.Service.{count_words}

abbrev is_changed : String → String → String → Bool
is_changed mark header line = starts_with mark line && not (starts_with header line)

-- a whole number as a dynamic value
abbrev count : ℕ → Json
count n = num (n * 10000)

unfoldable pub diff_fragment : ReviewRequest → ContextFragment
unfolding splitlines count_words
diff_fragment request =
    let lines : List String = splitlines request.diff_text in
    record {
      tier = "tier1";
      entries = if request.diff_text == "" then [] else request.diff_text ∷ [];
      metadata =
          ("source", str "diff")
          ∷ ("target_file", str request.target_file)
          ∷ ("total_lines", count (length lines))
          ∷ ("added_lines", count (length (keep (is_changed "+" "+++") lines)))
          ∷ ("removed_lines", count (length (keep (is_changed "-" "---") lines)))
          ∷ ("word_count", count (count_words false (codes request.diff_text)))
          ∷ [];
    }

-- `DiffProvider.collect`
unfoldable pub diff_provider : {W : Type 0} → Provider W
diff_provider request w = (ok (diff_fragment request), w)
