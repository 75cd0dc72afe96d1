-- ===== src/Scheduler.antt =====
-- src/vibe/scheduler.py: which tasks may run at the same time, in which order, and how often.
pub mod Scopes
pub mod Attempts
pub mod Order
pub mod Dispatch
pub mod Plan
