-- ===== src/Tests.antt =====
-- Runs of the model on concrete input, and the theorems at concrete input.
pub mod Parser
pub mod Dialogue
pub mod Commands
pub mod Extraction
pub mod Debugging
pub mod Release
pub mod Launching
