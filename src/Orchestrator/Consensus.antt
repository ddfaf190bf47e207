-- ===== src/Orchestrator/Consensus.antt =====
-- orchestrator/consensus.py. Scores are in ten-thousandths; the arithmetic of floats, which sums and
-- rounds them, is an argument.
pub mod Decide
use nitpicker_daemon.Prelude.{
  ℕ, ◌+◌, String, Bool, true, false, List, [], ◌∷◌, ◌++◌, take, if◌then◌else◌, concat, join, keep,
  map, filled,
}
use nitpicker_daemon.Python.Json.{Json, str, get_or, text_of}
use nitpicker_daemon.Models.{
  Score, AgentStatus, AgentDecision, Finding, ConsensusStatus, ConsensusResult,
}

abbrev pub is_reject : AgentDecision → Bool
is_reject d = elim d.status [ AgentStatus.reject ↦ true | _ ↦ false ]

abbrev pub is_warn : AgentDecision → Bool
is_warn d = elim d.status [ AgentStatus.warn ↦ true | _ ↦ false ]

abbrev pub is_pass : AgentDecision → Bool
is_pass d = elim d.status [ AgentStatus.pass ↦ true | _ ↦ false ]

-- a rejecting agent counts twice
unfoldable pub weight : AgentDecision → ℕ
weight d = if is_reject d then 2 else 1

unfoldable pub total_weight : List AgentDecision → ℕ
unfolding weight
total_weight [] = 0
total_weight (d ∷ ds) = weight d + total_weight ds

-- What the code uses of Python's floats: a score as a float, `x * n` and `x / n` for an integer n,
-- `sum`, and `round(x, 4)` in ten-thousandths.
pub record Floats (F : Type 0) : Type 0 where
  pub of_score : Score → F
  pub times : F → ℕ → F
  pub sum : List F → F
  pub over : F → ℕ → F
  pub round_4 : F → Score

abbrev pub names : List AgentDecision → List String
names = map (λ d. d.agent_name)

-- `[f"{code}: {message}" for d in ds for f in d.findings]`
unfoldable pub finding_lines : (Json → String) → List Finding → List String
finding_lines repr [] = []
finding_lines repr (f ∷ fs) =
    concat (
      text_of repr (get_or "code" (str "?") f)
      ∷ ": "
      ∷ text_of repr (get_or "message" (str "") f)
      ∷ [])
    ∷ finding_lines repr fs

unfoldable pub all_finding_lines : (Json → String) → List AgentDecision → List String
unfolding finding_lines
all_finding_lines repr [] = []
all_finding_lines repr (d ∷ ds) = finding_lines repr d.findings ++ all_finding_lines repr ds

-- the mean of the scores by weight, `round(weighted_conf, 4)`
unfoldable pub weighted_conf : {F : Type 0} → Floats F → List AgentDecision → Score
unfolding total_weight weight
weighted_conf floats ds = floats.round_4 (
    floats.over
      (floats.sum (map (λ d. floats.times (floats.of_score d.confidence_score) (weight d)) ds))
      (total_weight ds))

no_decisions : ConsensusResult
no_decisions = record {
  status = ConsensusStatus.pass;
  summary = str "에이전트 결정 없음 — 기본 pass";
  confidence_score = 5000;
  winning_reasons = [];
  conflicting_agents = [];
}

rejection : {F : Type 0} → Floats F → (Json → String) → List AgentDecision → ConsensusResult
unfolding weighted_conf all_finding_lines
rejection floats repr decisions =
    let rejecters = keep is_reject decisions in
    record {
      status = ConsensusStatus.reject;
      summary = str (
          concat (
            "reject by "
            ∷ join ", " (names rejecters)
            ∷ ". findings: "
            ∷ join "; " (take 5 (all_finding_lines repr rejecters))
            ∷ []));
      confidence_score = weighted_conf floats decisions;
      winning_reasons = names rejecters;
      conflicting_agents = names (keep is_pass decisions);
    }

advisory : {F : Type 0} → Floats F → (Json → String) → List AgentDecision → ConsensusResult
unfolding weighted_conf all_finding_lines
advisory floats repr decisions =
    let warners = keep is_warn decisions in
    record {
      status = ConsensusStatus.pass;
      summary = str (
          concat (
            "advisory by "
            ∷ join ", " (names warners)
            ∷ ": "
            ∷ join "; " (take 3 (all_finding_lines repr warners))
            ∷ []));
      confidence_score = weighted_conf floats decisions;
      winning_reasons = names warners;
      conflicting_agents = names (keep is_pass decisions);
    }

all_passed : {F : Type 0} → Floats F → List AgentDecision → ConsensusResult
unfolding weighted_conf
all_passed floats decisions = record {
  status = ConsensusStatus.pass;
  summary = str "모든 에이전트 통과";
  confidence_score = weighted_conf floats decisions;
  winning_reasons = names (keep is_pass decisions);
  conflicting_agents = [];
}

unfoldable pub decide :
    {F : Type 0} → Floats F → (Json → String) → List AgentDecision → ConsensusResult
unfolding no_decisions rejection advisory all_passed
decide floats repr decisions =
    if filled decisions
    then (if filled (keep is_reject decisions)
        then rejection floats repr decisions
        else if filled (keep is_warn decisions)
        then advisory floats repr decisions
        else all_passed floats decisions)
    else no_decisions
