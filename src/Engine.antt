-- ===== src/Engine.antt =====
-- ge_runtime/engine.py: the run lifecycle.
pub mod State
pub mod Progress
pub mod Gates
pub mod Readiness
pub mod Trail
pub mod Attempt
pub mod Advance
pub mod Settle
pub mod Operations
pub mod Recovery
pub mod Decisions
pub mod Verify
pub mod Views
pub mod Plan
pub mod Loading
pub mod Lifecycle
pub mod Safety
pub mod Examples
