-- ===== src/Examples/Inputs.antt =====
-- Triggers, the registry and the context cache at concrete inputs.
use nitpicker_daemon.Prelude.{String, true, false, some, List, [], ◌∷◌, ◌≡◌, refl, arith}
use nitpicker_daemon.Python.Errors.{ok}
use nitpicker_daemon.Models.{queued}
use nitpicker_daemon.State.Machine.{value}
use nitpicker_daemon.State.Spooler.{empty, conflicts, create_request}
use nitpicker_daemon.Services.ContextCache.{CacheManager}
use nitpicker_daemon.Services.ContextCache.Bound.{Fits}
use nitpicker_daemon.Services.ContextCache.Calls.{Call, fetch, drop_key, cleanup, calls, calls-Fits}
use nitpicker_daemon.Triggers.{
  TriggerEvent, TriggerAdapter, cli, daemon, lsp, git_hook, supports, build_request, adapt,
}
use nitpicker_daemon.Triggers.Channels.{change_is_one_job}
use nitpicker_daemon.Registry.{AgentManifest, AgentRegistration}

abbrev manager : CacheManager
manager = record {
  ttl = 100;
  max_entries = 1;
  provider_name = "gemini";
  store = [];
  hits = 0;
  misses = 0;
  evictions = 0;
  deleted = [];
}

manager-Fits : Fits manager
manager-Fits = record { small = omega arith; counted = refl }

abbrev session : List Call
session =
    fetch "a" 1 2 (ok "id1")
    ∷ fetch "b" 3 4 (ok "id2")
    ∷ fetch "b" 5 6 (ok "id3")
    ∷ drop_key "b"
    ∷ cleanup 900
    ∷ []

calls-Fits_example : Fits (calls session manager)
calls-Fits_example = calls-Fits session manager (omega arith) manager-Fits

-- a digest that keeps the text
abbrev same_text : String → String
same_text s = s

abbrev adapters : List TriggerAdapter
adapters = cli ∷ daemon ∷ lsp ∷ git_hook ∷ []

abbrev from_cli : TriggerEvent
from_cli = record {
  source = "cli";
  payload = ("target_file", "app.py") ∷ ("diff_text", "+x") ∷ [];
  metadata = [];
}

abbrev from_editor : TriggerEvent
from_editor = record from_cli { source = "lsp" }

made_by_cli : build_request same_text adapters from_cli ≡ ok (adapt same_text cli from_cli)
unfolding build_request supports
made_by_cli = refl

editor_request : build_request same_text adapters from_editor ≡ ok (adapt same_text lsp from_editor)
unfolding build_request supports
editor_request = refl

nothing_known : conflicts (adapt same_text cli from_cli) empty.rows ≡ false
unfolding conflicts
nothing_known = refl

change_is_one_job_example :
    let s = (create_request (adapt same_text cli from_cli) empty).1 in
    ((create_request (adapt same_text lsp from_editor) s).0
      ≡ ok (record { created = false; duplicate = true; existing_state = some (value queued) }))
    × ((create_request (adapt same_text lsp from_editor) s).1.rows ≡ s.rows)
change_is_one_job_example =
    change_is_one_job same_text adapters adapters from_cli from_editor
      (adapt same_text cli from_cli) (adapt same_text lsp from_editor) empty made_by_cli
      editor_request refl refl nothing_known

abbrev manifest : AgentManifest
manifest = record {
  name = "security";
  capabilities = [];
  supported_profiles = "*" ∷ [];
  supported_intents = "active_intent" ∷ [];
  required_context_tiers = [];
  cost_class = "medium";
  blocking_level = "warn";
  enabled = true;
}

abbrev registry : List (String × AgentRegistration String)
registry = ("security", record { manifest = manifest; agent = "s1" }) ∷ []
