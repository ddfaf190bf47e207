-- ===== src/Models.antt =====
-- models.py: the states of a review, the request, and what the stages hand to one another.
use nitpicker_daemon.Prelude.{ℕ, String, List}
use nitpicker_daemon.Python.Json.{Json, Dict}

pub data ReviewState : Type 0 where
  queued precheck_failed context_ready analyzing consensus_reached : ReviewState
  patch_proposed verified delivered degraded failed : ReviewState

-- A confidence score, in ten-thousandths.
abbrev pub Score : Type 0
Score = ℕ

abbrev pub one : Score
one = 10000

pub record ReviewRequest : Type 0 where
  pub request_id : String
  pub idempotency_key : String
  pub project_id : String
  pub project_profile : String
  pub trigger : String
  pub trigger_intent : String
  pub target_file : String
  pub git_revision : String
  pub base_file_hash : String
  pub diff_text : String
  pub metadata : Dict

-- `status` of a result; the controller also assigns "patch", which the source's annotation lacks
pub data ResultStatus : Type 0 where
  pass rejected degraded failed ignored patch : ResultStatus

-- `summary` and `result_code` may hold what an LLM sent, so they are dynamic values.
pub record ReviewResult : Type 0 where
  pub request_id : String
  pub state : ReviewState
  pub status : ResultStatus
  pub summary : Json
  pub confidence_score : Score
  pub result_code : Json
  pub reviewer : Json

pub record ContextBundle : Type 0 where
  pub request_id : String
  pub context_hash : String
  pub token_estimate : ℕ
  pub tiers : List (String × List String)
  pub metadata : Dict

pub data AgentStatus : Type 0 where
  pass warn reject error : AgentStatus

abbrev pub Finding : Type 0
Finding = Dict

pub record AgentDecision : Type 0 where
  pub agent_name : String
  pub status : AgentStatus
  pub confidence_score : Score
  pub findings : List Finding
  pub suggested_actions : List String

pub data ConsensusStatus : Type 0 where
  pass reject patch degraded : ConsensusStatus

pub record ConsensusResult : Type 0 where
  pub status : ConsensusStatus
  pub summary : Json
  pub confidence_score : Score
  pub winning_reasons : List String
  pub conflicting_agents : List String
