-- ===== src/Orchestrator.antt =====
-- orchestrator/: resources, policy, consensus and the controller of a review.
pub mod ResourceManager
pub mod PolicyEngine
pub mod Consensus
pub mod Controller
