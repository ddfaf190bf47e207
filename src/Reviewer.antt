-- ===== src/Reviewer.antt =====
-- The reviewer of single files: mini_reviewer.py with its command line and its daemon under bin.
pub mod Jsonc
pub mod Settings
pub mod Patch
pub mod Generate
pub mod Targets
pub mod Watch
