-- ===== src/Tests.antt =====
-- Concrete inputs, what the definitions compute on them, and each theorem at such an input.
mod Runs
mod Tasks
mod Dispatching
mod Validating
mod Planning
mod Integrating
mod Preparing
mod Retrying
mod Binding
mod Succeeding
