-- ===== src/Examples/Reviews.antt =====
-- The reviewer of single files at concrete inputs.
use nitpicker_daemon.Prelude.{
  if◌then◌else◌, ◌==◌, occurs, lower, starts, concat, ℕ, ◌+◌, String, true, false, none, some, List,
  [], ◌∷◌, ◌≡◌, ◌≢◌, refl, among, strip, lower_text, All, eq_iff, is_blank, sym, ◌∙◌,
}
use nitpicker_daemon.Python.Errors.{runtime_error, Result, ok, fail, value_error}
use nitpicker_daemon.Python.Json.{
  Json, null, bool, str, num, arr, obj, cons, nil, Fields, field, end, Dict, insert,
}
use nitpicker_daemon.Services.PatchService.{Process}
use nitpicker_daemon.Providers.Gemini.{
  GeminiProvider, with_model_fallback, try_candidates, is_missing_model,
}
use nitpicker_daemon.Providers.Gemini.Fallback.{IsAnswer, with_model_fallback-IsAnswer}
use nitpicker_daemon.Reviewer.Jsonc.{strip_comments}
use nitpicker_daemon.Reviewer.Jsonc.Pieces.{
  Piece, plain, literal, line, block, raw, escaped, IsPiece, write_all, content_all,
  strip_comments-write_all,
}
use nitpicker_daemon.Reviewer.Settings.{
  MiniReviewerSettings, Environ, extensions, has_space, load_settings,
}
use nitpicker_daemon.Reviewer.Settings.Checks.{IsUsable, load_settings-IsUsable}
use nitpicker_daemon.Reviewer.Patch.{Git, Files, apply_patch_safely}
use nitpicker_daemon.Reviewer.Patch.Safe.{Ran, apply_patch_safely-Ran}
use nitpicker_daemon.Reviewer.Generate.{
  Services, Response, absent, generate_review_ollama, coerce_ollama_payload, generate_review,
  diff_for, targets_from_args,
}
use nitpicker_daemon.Reviewer.Generate.Answers.{OllamaVerdict, generate_review_ollama-OllamaVerdict}
use nitpicker_daemon.Reviewer.Targets.{main, review_targets, review_paths, auto_fix}
use nitpicker_daemon.Reviewer.Targets.Gate.{IsApproved, main_exit_zero}
use nitpicker_daemon.Reviewer.Watch.{FileSystemEvent, modified, reviews}
use nitpicker_daemon.Reviewer.Watch.Spacing.{IsSpaced, reviews-IsSpaced}
use nitpicker_daemon.Providers.Ollama.{
  Server, available, http_post_streaming, receive, generate_mini, new_provider,
}

-- `{"a\"" // b` with a second line, and a comment over two lines
abbrev pieces : List Piece
pieces =
    plain ("{" ∷ [])
    ∷ literal (raw "/" ∷ raw "/" ∷ escaped "\"" ∷ [])
    ∷ line (" " ∷ "b" ∷ [])
    ∷ block ("*" ∷ "\n" ∷ [])
    ∷ plain ("}" ∷ [])
    ∷ []

well_formed : All IsPiece pieces
well_formed = (
  ((refl, refl), tt),
  (
    ((refl, refl), ((refl, refl), (tt, tt))),
    ((refl, (refl, tt)), ((refl, tt), (((refl, refl), tt), tt))),
  ),
)

strip_comments-write_all_example : strip_comments (write_all pieces) ≡ content_all pieces
strip_comments-write_all_example = strip_comments-write_all pieces well_formed

abbrev environ : Environ
environ name = none

abbrev to_float : Json → Result ℕ
to_float v = ok 2000

abbrev settings_file : Fields
settings_file = field "gemini_api_key" (str "key") (field "provider" (str " Gemini ") end)

abbrev settings : MiniReviewerSettings
settings = record {
  gemini_api_key = str "key";
  gemini_model = "gemini-3.1-pro-preview";
  watch_path = str "src";
  debounce_seconds = 2000;
  file_extensions = ".py" ∷ ".cpp" ∷ ".h" ∷ ".hpp" ∷ [];
  skip = false;
  auto_apply_patches = false;
  gemini_fallback_model = "gemini-2.0-flash";
  provider = "gemini";
  ollama_model = "qwen2.5-coder:7b";
  ollama_base_url = "http://localhost:11434";
}

loaded : load_settings to_float environ (some (ok (obj settings_file))) ≡ ok settings
unfolding load_settings strip lower_text extensions has_space
loaded = refl

load_settings-IsUsable_example : IsUsable settings
load_settings-IsUsable_example =
    load_settings-IsUsable to_float environ (some (ok (obj settings_file))) settings loaded

abbrev fine : Process
fine = record { returncode = 0; stdout = ""; stderr = "" }

-- a tree that counts the patches
abbrev git : Git ℕ
git = record {
  mkstemp = ok "nitpicker_1.diff";
  write = λ text. ok tt;
  check = λ text tree. ok fine;
  apply = λ text tree. (ok fine, tree + 1);
}

abbrev files : Files ℕ
files = record { tree = 0; temps = "other.diff" ∷ [] }

fresh : (path : String) → git.mkstemp ≡ ok path → (path ≢ "") × (among path files.temps ≡ false)
fresh path e =
    let same : path ≡ "nitpicker_1.diff" = cc e in
    (
      λ empty.
          let differ : false ≡ true = (eq_iff "nitpicker_1.diff" "").1 (sym same ∙ empty) in cc,
      rw same refl,
    )

applied : (apply_patch_safely git "--- a" files).0 ≡ ok true
unfolding apply_patch_safely is_blank
applied = refl

apply_patch_safely-Ran_example : Ran git "--- a" 0 (apply_patch_safely git "--- a" files).1.tree
apply_patch_safely-Ran_example = apply_patch_safely-Ran git "--- a" files applied

-- a server that has the model and sends its answer in one line
abbrev server : Server
server = record {
  http_get = λ url. ok "tags";
  open_stream = λ url model prompt. ok (record { now = 10; line = ok "chunk" } ∷ []);
  loads = λ text.
      if text == "tags"
      then ok (obj (field "models" (arr (cons (obj (field "name" (str "m:7b") end)) nil)) end))
      else if text == "chunk"
      then ok (obj (field "response" (str "answer") (field "done" (bool true) end)))
      else ok (obj (field "result_code" (str "REVIEW_PASSED") end));
}

-- Gemini knows only the second model
abbrev services : Services
services = record {
  git = λ args. ok "+x";
  normalize_target = λ path. path;
  environ = environ;
  get_system_prompt = ok "system";
  server = server;
  has_genai = true;
  client = λ key. ok tt;
  generate_content = λ model system prompt.
      if model == "m2"
      then ok (record { parsed = absent; text = some "answer" })
      else fail value_error "404 NOT_FOUND";
  repr = λ v. "value";
}

abbrev ollama : MiniReviewerSettings
ollama = record settings { provider = "ollama"; ollama_model = "m" }

abbrev verdict : Dict
verdict =
    ("result_code", str "REVIEW_PASSED")
    ∷ ("summary", str "")
    ∷ ("confidence_score", num 0)
    ∷ ("details", arr nil)
    ∷ ("suggested_patch", null)
    ∷ ("target_file", str "a.py")
    ∷ ("reviewer", str "Ollama/m")
    ∷ []

ollama_reviewed : generate_review_ollama services "a.py" "+x" ollama ≡ ok verdict
unfolding generate_review_ollama generate_mini available new_provider http_post_streaming receive
    coerce_ollama_payload is_blank strip concat starts insert
ollama_reviewed = refl

generate_review_ollama-OllamaVerdict_example : OllamaVerdict services "a.py" "+x" ollama verdict
generate_review_ollama-OllamaVerdict_example =
    generate_review_ollama-OllamaVerdict services "a.py" "+x" ollama verdict ollama_reviewed

abbrev models : List String
models = "m1" ∷ "m2" ∷ []

abbrev response : Response
response = record { parsed = absent; text = some "answer" }

abbrev recorded : List Dict → Result (Unit {0})
recorded payloads = ok tt

found : targets_from_args services ("a.py" ∷ []) false ≡ ok ("a.py" ∷ [])
unfolding targets_from_args
found = refl

exits_zero : (main services git recorded (ok ollama) ("a.py" ∷ []) false files).0 ≡ 0
unfolding main review_targets review_paths auto_fix targets_from_args generate_review diff_for
    generate_mini available new_provider http_post_streaming receive coerce_ollama_payload is_blank
    strip concat starts insert
exits_zero = refl

main_exit_zero_example : All (IsApproved services git ollama false) ("a.py" ∷ [])
main_exit_zero_example =
    main_exit_zero services git recorded ollama false ("a.py" ∷ []) ("a.py" ∷ []) files refl found
      exits_zero

abbrev change : String → ℕ → FileSystemEvent
change path now = record {
  kind = modified;
  src_path = path;
  dest_path = none;
  is_directory = false;
  now = now;
}

abbrev events : List FileSystemEvent
events = change "a.py" 5000 ∷ change "b.py" 5500 ∷ change "a.py" 6000 ∷ change "a.py" 7000 ∷ []

abbrev suffix : String → String
suffix path = ".py"

reviews-IsSpaced_example : IsSpaced 2000 0 (reviews suffix settings "a.py" events [])
reviews-IsSpaced_example = reviews-IsSpaced suffix settings "a.py" events []

-- a chunk that is not the last one, and one that comes too late
abbrev slow : Server
slow = record server { loads = λ text. ok (obj (field "response" (str "x") end)) }

abbrev gemini : GeminiProvider
gemini = record { api_key = "key"; model = "big"; fallback_model = "small" }

-- a service that does not have the first model
abbrev only_small : String → Result String
only_small m = if m == "small" then ok "answer" else fail runtime_error "models/big is not found"

fallback_answers : with_model_fallback only_small gemini ≡ ok "answer"
unfolding with_model_fallback try_candidates is_missing_model occurs lower
fallback_answers = refl

with_model_fallback-IsAnswer_example : IsAnswer only_small gemini "answer"
with_model_fallback-IsAnswer_example =
    with_model_fallback-IsAnswer only_small gemini "answer" fallback_answers
