-- ===== src/Triggers.antt =====
-- triggers/adapters.py, triggers/request_factory.py and triggers/base.py. The digest of a text is an
-- argument, and the values of a payload are texts.
pub mod Channels
use nitpicker_daemon.Prelude.{
  String, Bool, Option, none, some, List, [], ◌∷◌, ◌==◌, ◌||◌, if◌then◌else◌, concat, take_text,
}
use nitpicker_daemon.Python.Errors.{Result, ok, raised, value_error}
use nitpicker_daemon.Python.Json.{Dict, lookup, get_or}
use nitpicker_daemon.Models.{ReviewRequest}

pub record TriggerEvent : Type 0 where
  pub source : String
  pub payload : List (String × String)
  pub metadata : Dict

-- the classes of adapters
pub data TriggerAdapter : Type 0 where
  cli daemon lsp git_hook : TriggerAdapter

-- `value or default`
abbrev or_default : Option String → String → String
or_default none default = default
or_default (some s) default = if s == "" then default else s

-- the arguments of `_build_common` that differ between the channels
pub record Common : Type 0 where
  pub trigger : String
  pub trigger_intent : String
  pub request_id : Option String
  pub project_id : Option String
  pub project_profile : Option String
  pub git_revision : String

module _ (sha256 : String → String) where
  -- `_digest`
  unfoldable pub digest : String → String → String
  digest target_file diff_text = sha256 (concat (target_file ∷ diff_text ∷ []))

  -- `_build_common`
  unfoldable pub build_common : String → String → Dict → Common → ReviewRequest
  build_common target_file diff_text metadata c = record {
    request_id =
        or_default c.request_id
          (concat ("req_" ∷ take_text 12 (digest target_file diff_text) ∷ []));
    idempotency_key = concat ("idemp_" ∷ take_text 16 (digest target_file diff_text) ∷ []);
    project_id = or_default c.project_id "auto_research_review";
    project_profile = or_default c.project_profile "general";
    trigger = c.trigger;
    trigger_intent = c.trigger_intent;
    target_file = target_file;
    git_revision = c.git_revision;
    base_file_hash = digest target_file diff_text;
    diff_text = diff_text;
    metadata = metadata;
  }

  unfoldable pub supports : TriggerAdapter → TriggerEvent → Bool
  supports cli event = event.source == "cli"
  supports daemon event = event.source == "daemon" || event.source == "zmq"
  supports lsp event = event.source == "lsp"
  supports git_hook event = event.source == "git_hook"

  unfoldable pub arguments : TriggerAdapter → List (String × String) → Common
  arguments cli p = record {
    trigger = "cli";
    trigger_intent = get_or "trigger_intent" "active_intent" p;
    request_id = none;
    project_id = lookup "project_id" p;
    project_profile = lookup "project_profile" p;
    git_revision = get_or "git_revision" "workspace" p;
  }
  arguments daemon p = record {
    trigger = get_or "trigger" "cli" p;
    trigger_intent = get_or "trigger_intent" "active_intent" p;
    request_id = lookup "request_id" p;
    project_id = lookup "project_id" p;
    project_profile = lookup "project_profile" p;
    git_revision = get_or "git_revision" "workspace" p;
  }
  arguments lsp p = record {
    trigger = "lsp";
    trigger_intent = "passive_save";
    request_id = none;
    project_id = none;
    project_profile = none;
    git_revision = get_or "git_revision" "workspace" p;
  }
  arguments git_hook p = record {
    trigger = "git_hook";
    trigger_intent = "active_intent";
    request_id = none;
    project_id = none;
    project_profile = none;
    git_revision = get_or "git_revision" "HEAD" p;
  }

  -- `build_request` of an adapter
  unfoldable pub adapt : TriggerAdapter → TriggerEvent → ReviewRequest
  adapt adapter event =
      build_common (get_or "target_file" "" event.payload) (get_or "diff_text" "" event.payload)
        event.metadata (arguments adapter event.payload)

  -- `ReviewRequestFactory.build_request`
  unfoldable pub build_request : List TriggerAdapter → TriggerEvent → Result ReviewRequest
  build_request [] event = raised (record {
    kind = value_error;
    message = concat ("no trigger adapter registered for source=" ∷ event.source ∷ []);
  })
  build_request (adapter ∷ rest) event =
      if supports adapter event then ok (adapt adapter event) else build_request rest event
