-- ===== src/Examples/Samples.antt =====
-- A request, agents, and an orchestrator with its collaborators.
use nitpicker_daemon.Prelude.{
  ◌*◌, List, eqb, ◌+◌, ltb, if◌then◌else◌, ◌%◌, ◌/◌, ℕ, String, none, some, [], ◌∷◌, false,
}
use nitpicker_daemon.Python.Errors.{ok}
use nitpicker_daemon.Python.Json.{Json, Dict, str}
use nitpicker_daemon.Models.{ReviewRequest, ContextBundle, AgentDecision, AgentStatus, queued}
use nitpicker_daemon.State.Spooler.{empty}
use nitpicker_daemon.Orchestrator.Consensus.{decide, Floats}
use nitpicker_daemon.Orchestrator.Controller.{World, Agent, ReviewOrchestrator}

abbrev pub request : ReviewRequest
request = record {
  request_id = "r1";
  idempotency_key = "k1";
  project_id = "p";
  project_profile = "general";
  trigger = "cli";
  trigger_intent = "active_intent";
  target_file = "app.py";
  git_revision = "abc";
  base_file_hash = "h";
  diff_text = "+x";
  metadata = [];
}

abbrev pub passive : ReviewRequest
passive = record request { trigger_intent = "passive_save" }

abbrev pub decision : AgentStatus → AgentDecision
decision status = record {
  agent_name = "security";
  status = status;
  confidence_score = 9000;
  findings = [];
  suggested_actions = [];
}

abbrev pub security : Agent
security = record {
  name = some "security";
  class_name = "SecurityAgent";
  run = λ request context. ok (decision AgentStatus.pass);
}

abbrev pub performance : Agent
performance = record security { name = some "performance" }

abbrev pub context : ContextBundle
context = record {
  request_id = "r1";
  context_hash = "c";
  token_estimate = 10;
  tiers = [];
  metadata = [];
}

abbrev pub repr : Json → String
repr v = "value"

abbrev pub l3_answer : Dict
l3_answer = ("result_code", str "REVIEW_PASSED") ∷ ("summary", str "fine") ∷ []

-- division, rounded to the nearest integer and to the even one half way
unfoldable pub round_div : ℕ → ℕ → ℕ
round_div n d =
    let q = n / d in
    let r = n % d in
    if ltb (r + r) d then q else if ltb d (r + r) then q + 1 else if eqb (q % 2) 0 then q else q + 1

unfoldable pub numerators : List (ℕ × ℕ) → ℕ
numerators [] = 0
numerators (x ∷ xs) = x.0 + numerators xs

-- exact fractions of ten-thousandths, where a sum is one of integers
abbrev pub exact : Floats (ℕ × ℕ)
exact = record {
  of_score = λ n. (n, 1);
  times = λ x n. (x.0 * n, x.1);
  sum = λ xs. (numerators xs, 1);
  over = λ x n. (x.0, x.1 * n);
  round_4 = λ x. round_div x.0 x.1;
}

abbrev pub orchestrator : ReviewOrchestrator
orchestrator = record {
  now = 5;
  policy_engine = record { max_file_size_bytes = 100; fast_path_agents = "security" ∷ [] };
  file_size = some 10;
  build_context = λ request. ok context;
  offload_gateway = none;
  context_cache_manager = none;
  agent_registry = none;
  agents = security ∷ performance ∷ [];
  decide = λ decisions. ok (decide exact repr decisions);
  llm_review_gate = some λ request context findings. ok l3_answer;
  patch_service = none;
  verification_service = none;
  autofix_service = none;
  publisher = record { feedback = none; logger = none; analytics_writer = none; notifier = none };
  repr = repr;
}

abbrev pub world : World
world = record {
  store = empty;
  resources = record {
    token_budget = 10;
    breaker_open = false;
    debounce = [];
    last_request_at = [];
  };
  outbox = [];
  current_state = queued;
  request_persisted = false;
}
