-- ===== src/State.antt =====
-- state/: the state machine of a review and the job store.
pub mod Machine
pub mod Spooler
