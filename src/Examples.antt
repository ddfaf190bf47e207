-- ===== src/Examples.antt =====
-- Concrete inputs, and each theorem at one of them.
mod Samples
mod Runs
mod Parts
mod Effects
mod Inputs
mod Commands
mod Messages
mod Scans
mod Reviews
mod Contexts
mod Feedback
