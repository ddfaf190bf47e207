-- ===== src/Context/Policy.antt =====
-- context/providers/policy_provider.py, `PolicyProvider`: its caches are its state, and the folders
-- of rules and profiles are given by what reading them returns.
pub mod Size
use nitpicker_daemon.Prelude.{
  ℕ, ◌+◌, ◌*◌, String, Bool, true, false, Option, none, some, List, [], ◌∷◌, ◌++◌, ◌==◌,
  if◌then◌else◌, ltb, among, concat, strip, take_text, text_length, length, filled,
}
use nitpicker_daemon.Python.Errors.{Result, ok, raised, is_os_error, ◌>>=◌}
use nitpicker_daemon.Python.Json.{num, str, lookup, insert}
use nitpicker_daemon.Models.{ReviewRequest}
use nitpicker_daemon.Context.{ContextFragment}

-- `_MAX_RULE_SIZE` and `_MAX_TOTAL_SIZE`
abbrev pub max_rule_size : ℕ
max_rule_size = 8192

abbrev pub max_total_size : ℕ
max_total_size = 32768

pub record RuleFile : Type 0 where
  pub name : String
  pub suffix : String
  pub is_file : Bool
  pub content : Result String

pub record Folders : Type 0 where
  -- the entries of the folder of rules in their order, if there is such a folder
  pub rules : Option (List RuleFile)
  -- the content of a profile, if there is a folder of profiles with a file for it
  pub profile : String → Option (Result String)

pub record PolicyProvider : Type 0 where
  pub rules_cache : Option (List String)
  pub profiles_cache : List (String × List String)

unfoldable pub new_policy_provider : PolicyProvider
new_policy_provider = record { rules_cache = none; profiles_cache = [] }

-- a content, cut after `_MAX_RULE_SIZE` characters
unfoldable pub cut_content : String → String
cut_content content =
    if ltb max_rule_size (text_length content)
    then concat (take_text max_rule_size content ∷ "\n... (truncated)" ∷ [])
    else content

-- a content, none if the file cannot be read; only errors of the file system are caught
abbrev pub readable : Result String → Result (Option String)
readable (ok content) = ok (some content)
readable (raised e) = if is_os_error e.kind then ok none else raised e

abbrev pub is_rule : RuleFile → Bool
is_rule f = if f.is_file then among f.suffix (".md" ∷ ".yaml" ∷ ".yml" ∷ ".txt" ∷ []) else false

unfoldable pub rule_entry : String → String → String
rule_entry name content = concat ("[Rule: " ∷ name ∷ "]\n" ∷ strip content ∷ [])

-- One file, where the flag says that it is a rule and `loop` goes on with the other files, from the
-- size of the contents so far.
unfoldable pub add_rule :
    Bool → RuleFile → Result (Option String) → ℕ → (ℕ → Result (List String)) → Result (List String)
unfolding cut_content rule_entry
add_rule false f found total_size loop = loop total_size
add_rule true f (raised e) total_size loop = raised e
add_rule true f (ok none) total_size loop = loop total_size
add_rule true f (ok (some content)) total_size loop =
    let size : ℕ = total_size + text_length (cut_content content) in
    if ltb max_total_size size
    then ok []
    else (do entries ← loop size; ok (rule_entry f.name (cut_content content) ∷ entries))

-- the loop over the files that are left
unfoldable pub rules_from : ℕ → List RuleFile → Result (List String)
unfolding add_rule
rules_from total_size [] = ok []
rules_from total_size (f ∷ files) =
    add_rule (is_rule f) f (readable f.content) total_size (λ size. rules_from size files)

module _ (folders : Folders) where
  load_rules_of : Option (List RuleFile) → Result (List String)
  unfolding rules_from
  load_rules_of none = ok []
  load_rules_of (some files) = rules_from 0 files

  kept_rules : Result (List String) → PolicyProvider → Result (List String) × PolicyProvider
  kept_rules (ok rules) p = (ok rules, record p { rules_cache = some rules })
  kept_rules (raised e) p = (raised e, p)

  cached_rules : Option (List String) → PolicyProvider → Result (List String) × PolicyProvider
  unfolding load_rules_of kept_rules
  cached_rules (some rules) p = (ok rules, p)
  cached_rules none p = kept_rules (load_rules_of folders.rules) p

  -- `_load_rules`
  unfoldable pub load_rules : PolicyProvider → Result (List String) × PolicyProvider
  unfolding cached_rules
  load_rules p = cached_rules p.rules_cache p

  profile_entries : String → Option String → List String
  unfolding cut_content
  profile_entries name none = []
  profile_entries name (some content) =
      concat ("[Profile: " ∷ name ∷ "]\n" ∷ strip (cut_content content) ∷ []) ∷ []

  read_profile : String → Option (Result String) → Result (List String)
  unfolding profile_entries
  read_profile name none = ok []
  read_profile name (some file) = do content ← readable file; ok (profile_entries name content)

  kept_profile :
      Result (List String) → String → PolicyProvider → Result (List String) × PolicyProvider
  kept_profile (ok entries) name p =
      (ok entries, record p { profiles_cache = insert name entries p.profiles_cache })
  kept_profile (raised e) name p = (raised e, p)

  cached_profile :
      Option (List String) → String → PolicyProvider → Result (List String) × PolicyProvider
  unfolding read_profile kept_profile
  cached_profile (some entries) name p = (ok entries, p)
  cached_profile none name p = kept_profile (read_profile name (folders.profile name)) name p

  -- `_load_profile`
  unfoldable pub load_profile : String → PolicyProvider → Result (List String) × PolicyProvider
  unfolding cached_profile
  load_profile name p = cached_profile (lookup name p.profiles_cache) name p

  policy_fragment : String → List String → List String → ContextFragment
  policy_fragment profile rules entries = record {
    tier = "tier3";
    entries = rules ++ entries;
    metadata =
        ("source", str "policy")
        ∷ ((if filled rules then ("rules_count", num (length rules * 10000)) ∷ [] else [])
            ++ ((if filled entries then ("profile", str profile) ∷ [] else [])
                ++ (if filled (rules ++ entries) then [] else ("reason", str "no_rules") ∷ [])));
  }

  with_profile :
      String
      → List String
      → Result (List String) × PolicyProvider
      → Result ContextFragment × PolicyProvider
  unfolding policy_fragment
  with_profile profile rules (ok entries, p) = (ok (policy_fragment profile rules entries), p)
  with_profile profile rules (raised e, p) = (raised e, p)

  with_rules :
      String → Result (List String) × PolicyProvider → Result ContextFragment × PolicyProvider
  unfolding with_profile load_profile
  with_rules profile (ok rules, p) = with_profile profile rules (load_profile profile p)
  with_rules profile (raised e, p) = (raised e, p)

  -- `PolicyProvider.collect`
  unfoldable pub policy_provider :
      ReviewRequest → PolicyProvider → Result ContextFragment × PolicyProvider
  unfolding with_rules load_rules
  policy_provider request p =
      with_rules (if request.project_profile == "" then "general" else request.project_profile)
        (load_rules p)

-- `invalidate_cache`
unfoldable pub invalidate_cache : PolicyProvider → PolicyProvider
invalidate_cache p = record { rules_cache = none; profiles_cache = [] }
