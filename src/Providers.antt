-- ===== src/Providers.antt =====
-- The services that ask a model for a review: the package providers.
pub mod Installed
pub mod Ollama
pub mod Gemini
