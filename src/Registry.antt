-- ===== src/Registry.antt =====
-- registry/agent_registry.py: manifests by name, and the choice of agents.
pub mod Selection
use nitpicker_daemon.Prelude.{
  String, Bool, not, Option, List, [], ◌∷◌, ◌&&◌, ◌||◌, among, all, filled, if◌then◌else◌, map,
}
use nitpicker_daemon.Python.Json.{lookup, insert}

pub record AgentManifest : Type 0 where
  pub name : String
  pub capabilities : List String
  pub supported_profiles : List String
  pub supported_intents : List String
  pub required_context_tiers : List String
  pub cost_class : String
  pub blocking_level : String
  pub enabled : Bool

module _ (Agent : Type 0) where
  pub record AgentRegistration : Type 0 where
    pub manifest : AgentManifest
    pub agent : Agent

  -- `_entries`
  abbrev pub AgentRegistry : Type 0
  AgentRegistry = List (String × AgentRegistration)

  unfoldable pub register : AgentManifest → Agent → AgentRegistry → AgentRegistry
  register manifest agent entries =
      insert manifest.name (record { manifest = manifest; agent = agent }) entries

  unfoldable pub get_registration : String → AgentRegistry → Option AgentRegistration
  get_registration name entries = lookup name entries

  unfoldable pub list_registrations : AgentRegistry → List AgentRegistration
  list_registrations entries = map (λ x. x.1) entries

  -- the four tests of the loop
  unfoldable pub serves : String → String → List String → AgentManifest → Bool
  serves profile intent required m =
      m.enabled
      && (among profile m.supported_profiles || among "*" m.supported_profiles)
      && among intent m.supported_intents
      && (not (filled required) || all (λ c. among c m.capabilities) required)

  unfoldable pub select : String → String → List String → AgentRegistry → List Agent
  select profile intent required [] = []
  select profile intent required ((name, entry) ∷ rest) =
      let others = select profile intent required rest in
      if serves profile intent required entry.manifest then entry.agent ∷ others else others
