-- ===== src/Examples/Feedback.antt =====
-- The theorems on the feedback for the editor and on watched files at concrete inputs.
use nitpicker_daemon.Prelude.{
  ◌==◌, if◌then◌else◌, String, none, some, List, [], ◌∷◌, ◌++◌, map, ◌≡◌, refl, All, splitlines,
  starts,
}
use nitpicker_daemon.Python.Errors.{ok}
use nitpicker_daemon.Python.Json.{str}
use nitpicker_daemon.Models.{ReviewResult, ResultStatus, delivered, Finding}
use nitpicker_daemon.Services.PatchService.{PatchProposal}
use nitpicker_daemon.Services.ConfigWatcher.{Watches, Surroundings, check, check_entry}
use nitpicker_daemon.Services.ConfigWatcher.Settled.{check-settled}
use nitpicker_daemon.Services.Feedback.{parse_hunk_ranges, hunk_header, negsuc}
use nitpicker_daemon.Services.Feedback.Hunks.{
  Section, hunk_of, lines_of, IsSection, parse_hunk_ranges-lines_of,
}
use nitpicker_daemon.Services.Feedback.QuickFix.{FeedbackFiles, publish_quick_fix}
use nitpicker_daemon.Services.Feedback.QuickFix.Atomic.{Outcome, publish_quick_fix_atomic}

abbrev diff : String
diff = "--- a/x.py\n+++ b/x.py\n@@ -10,2 +10,2 @@ def f\n-old\n+new\n same\n@@ -30 +30 @@\n+more\n"

abbrev sections : List Section
sections =
    record {
      header = "@@ -10,2 +10,2 @@ def f";
      old_start = 10;
      old_len = 2;
      body = "-old" ∷ "+new" ∷ " same" ∷ [];
    }
    ∷ record { header = "@@ -30 +30 @@"; old_start = 30; old_len = 1; body = "+more" ∷ [] }
    ∷ []

abbrev preamble : List String
preamble = "--- a/x.py" ∷ "+++ b/x.py" ∷ []

diff_lines : splitlines diff ≡ preamble ++ lines_of sections
unfolding splitlines
diff_lines = refl

no_headers : All (λ line. hunk_header line ≡ none) preamble
unfolding hunk_header
no_headers = (refl, (refl, tt))

sections-IsSection : All IsSection sections
unfolding hunk_header
sections-IsSection = ((refl, (refl, (refl, (refl, tt)))), ((refl, (refl, tt)), tt))

parse_hunk_ranges-lines_of_example : parse_hunk_ranges diff ≡ map hunk_of sections
parse_hunk_ranges-lines_of_example =
    parse_hunk_ranges-lines_of diff preamble sections diff_lines no_headers sections-IsSection

-- a new file: the range starts before the first line
new_file :
    parse_hunk_ranges "@@ -0,0 +1 @@\n+x\n"
    ≡ record { start_line = negsuc 0; end_line = negsuc 0; new_lines = "x" ∷ [] } ∷ []
unfolding parse_hunk_ranges hunk_header splitlines starts
new_file = refl

abbrev result : ReviewResult
result = record {
  request_id = "r1";
  state = delivered;
  status = ResultStatus.pass;
  summary = str "ok";
  confidence_score = 9000;
  result_code = str "REVIEW_PASSED";
  reviewer = str "";
}

abbrev findings : List Finding
findings =
    (("code", str "SEC001") ∷ ("message", str "secret") ∷ ("suggested_fix", str "key = env()") ∷ [])
    ∷ []

abbrev files : FeedbackFiles
files = record { text = none; json = none }

abbrev patch : PatchProposal
patch = record {
  patch_hash = "abcdef0123";
  unified_diff = diff;
  source_file = "x.py";
  saved_path = none;
}

publish_quick_fix_atomic_example :
    Outcome
      (λ v. "")
      result
      "x.py"
      findings
      (some patch)
      files
      (publish_quick_fix (λ v. "") (ok tt) (ok tt) result "x.py" findings (some patch) files)
publish_quick_fix_atomic_example =
    publish_quick_fix_atomic (λ v. "") (ok tt) (ok tt) result "x.py" findings (some patch) files

-- `a.yaml` was changed, `b.yaml` is as it was, and `c.yaml` is gone
abbrev surroundings : Surroundings
surroundings = record {
  mtime = λ name.
      if name == "a.yaml" then some (ok 20) else if name == "b.yaml" then some (ok 10) else none;
  load_file = λ name. ok [];
  callback = λ name content. ok tt;
}

abbrev watched : Watches
watched = ("a.yaml", 10) ∷ ("b.yaml", 10) ∷ ("c.yaml", 10) ∷ []

one_changed : (check surroundings watched).0 ≡ ok ("a.yaml" ∷ [])
unfolding check check_entry
one_changed = refl

check-settled_example :
    check surroundings (check surroundings watched).1 ≡ (ok [], (check surroundings watched).1)
check-settled_example = check-settled surroundings watched ("a.yaml" ∷ []) one_changed
