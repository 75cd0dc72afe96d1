-- ===== src/Models.antt =====
-- src/vibe/models.py: the statuses, the contracts that agents and the Controller exchange, and the
-- validation of the durable run state and of the manifests of Attempts.
pub mod Status
pub mod Contracts
pub mod Manifest
pub mod Access
pub mod Semantics
pub mod Gate
pub mod Transition
pub mod Validation
