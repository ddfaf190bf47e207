-- ===== src/Agents.antt =====
-- The agents of the package agents, each a function from a request and its context to a decision.
pub mod Scan
pub mod Security
pub mod Architecture
pub mod Performance
pub mod DomainRule
pub mod IncidentTriage
pub mod FastGate
pub mod ContextAgent
pub mod PatchAgents
