-- ===== src/Examples/Contexts.antt =====
-- The theorems on contexts at concrete inputs.
use mathlib.Core.List.{reverse}
use nitpicker_daemon.Prelude.{
  All, splitlines, occurs, lower, join, concat, strip, String, true, Option, none, some, List, [],
  ◌∷◌, ◌≡◌, refl, ◌≤◌, ◌+◌, take,
}
use nitpicker_daemon.Python.Errors.{Result, ok}
use nitpicker_daemon.Python.Json.{Json, str, obj, field, end, Dict, insert}
use nitpicker_daemon.Models.{ReviewRequest, ContextBundle}
use nitpicker_daemon.Context.{Provider, collect}
use nitpicker_daemon.Context.Diff.{diff_provider, diff_fragment}
use nitpicker_daemon.Examples.Samples.{request}
use nitpicker_daemon.Context.Log.{matches, at_least_one, read_line}
use nitpicker_daemon.Context.Policy.{
  Folders, new_policy_provider, rules_from, load_rules, max_total_size,
}
use nitpicker_daemon.Context.Policy.Size.{total_length, headings_of, load_rules-total}
use nitpicker_daemon.Context.Service.{
  ContextService, invalidate_all, register_provider, invalidate_for_path, build_context,
}
use nitpicker_daemon.Context.Service.Refinement.{
  Call, build, invalidate, clear, register, run, run_spec, memory, run-refines,
}
use nitpicker_daemon.Context.Service.Stale.{after_builds, context_is_first}
use nitpicker_daemon.Context.Service.Similar.{
  similar_line, searchable, lookup_similar_reviews, lookup_similar_reviews_lem,
}

abbrev asked : String → String → ReviewRequest
asked file diff = record request { target_file = file; diff_text = diff }

-- a provider that counts how often it was asked
abbrev counting : Provider (List String)
counting request w =
    (ok (record { tier = "tier3"; entries = "rule" ∷ []; metadata = [] }), request.target_file ∷ w)

abbrev service : ContextService (List String)
service = record { providers = diff_provider ∷ counting ∷ []; cache = []; cache_enabled = true }

collected :
    (collect service.providers (asked "a.py" "+x") []).0
    ≡ ok (("tier1", "+x" ∷ []) ∷ ("tier3", "rule" ∷ []) ∷ [])
unfolding collect diff_provider diff_fragment insert
collected = refl

abbrev calls : List (Call (List String))
calls =
    build (asked "a.py" "+x")
    ∷ build (asked "a.py" "+y")
    ∷ invalidate "a.py"
    ∷ build (asked "a.py" "+y")
    ∷ register counting
    ∷ clear
    ∷ build (asked "b.py" "+z")
    ∷ []

run-refines_example :
    run (λ t. t) calls service []
    ≡ run_spec (λ t. t) calls service.providers true (memory service) []
run-refines_example = run-refines (λ t. t) calls service []

-- the provider is asked twice for `a.py` and twice, as it is registered twice, for `b.py`
asked_times : (run (λ t. t) calls service []).1 ≡ "b.py" ∷ "b.py" ∷ "a.py" ∷ "a.py" ∷ []
unfolding build_context collect invalidate_all register_provider invalidate_for_path diff_provider
    insert
asked_times = refl

abbrev first_bundle : ContextBundle
first_bundle = record {
  request_id = "r1";
  context_hash = "+x\nrule";
  token_estimate = 2;
  tiers = ("tier1", "+x" ∷ []) ∷ ("tier3", "rule" ∷ []) ∷ ("tier2", []) ∷ ("tier4", []) ∷ [];
  metadata = ("source", str "composite") ∷ [];
}

built : (build_context (λ t. t) (asked "a.py" "+x") service []).0 ≡ ok first_bundle
unfolding build_context collect diff_provider diff_fragment join insert
built = refl

context_is_first_example :
    let (_, s', w') = build_context (λ t. t) (asked "a.py" "+x") service [] in
    let (t, v) = after_builds (λ t. t) (asked "b.py" "+z" ∷ []) s' w' in
    build_context (λ t. t) (asked "a.py" "+y") t v ≡ (ok first_bundle, t, v)
context_is_first_example =
    context_is_first (λ t. t) (asked "a.py" "+x") (asked "a.py" "+y") service [] first_bundle
      (asked "b.py" "+z" ∷ []) refl built refl

abbrev found_in : String → Option Dict
found_in line = some (("summary", str line) ∷ [])

abbrev log : String
log = "fix a\nfix b\nfix c\n"

-- a parser that reads every text as a record with this summary
abbrev loads : String → Result Json
loads text = ok (obj (field "summary" (str text) end))

log_readable :
    All
      (λ line. similar_line loads (λ v. "") "FIX" line ≡ ok (found_in line))
      (reverse (splitlines log))
unfolding similar_line splitlines read_line searchable strip occurs lower join
log_readable = (refl, (refl, (refl, tt)))

lookup_similar_reviews_lem_example :
    lookup_similar_reviews loads (λ v. "") "FIX" 2 (some (ok log))
    ≡ ok (take (at_least_one 2) (matches found_in (reverse (splitlines log))))
lookup_similar_reviews_lem_example =
    lookup_similar_reviews_lem loads (λ v. "") "FIX" 2 log found_in log_readable

two_latest :
    take (at_least_one 2) (matches found_in (reverse (splitlines log)))
    ≡ (("summary", str "fix c") ∷ []) ∷ (("summary", str "fix b") ∷ []) ∷ []
unfolding splitlines
two_latest = refl

abbrev folders : Folders
folders = record {
  rules = some (
      record { name = "style.md"; suffix = ".md"; is_file = true; content = ok " use names " }
      ∷ record { name = "x.bin"; suffix = ".bin"; is_file = true; content = ok "" }
      ∷ []);
  profile = λ name. none;
}

loaded : (load_rules folders new_policy_provider).0 ≡ ok ("[Rule: style.md]\nuse names" ∷ [])
unfolding load_rules new_policy_provider rules_from concat strip
loaded = refl

fresh : new_policy_provider.rules_cache ≡ none
unfolding new_policy_provider
fresh = refl

load_rules-total_example :
    total_length ("[Rule: style.md]\nuse names" ∷ []) ≤ max_total_size + headings_of folders.rules
load_rules-total_example =
    load_rules-total folders new_policy_provider ("[Rule: style.md]\nuse names" ∷ []) fresh loaded
