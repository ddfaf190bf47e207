-- ===== src/Services.antt =====
-- services/: the services that the controller is composed of.
pub mod PatchService
pub mod AutoFix
pub mod ArtifactPublisher
pub mod LlmReviewGate
pub mod ContextCache
pub mod Feedback
pub mod ConfigWatcher
