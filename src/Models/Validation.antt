-- ===== src/Models/Validation.antt =====
-- The validation of persisted values in src/vibe/models.py, from single values to the run state.
pub mod Basic
pub mod Runtime
pub mod Tasks
pub mod Pending
pub mod RunState
pub mod Passed
pub mod Coherence
