-- ===== src/Evaluation.antt =====
-- The evaluation runtime, internal/evaluation/runtime.go, which joins the compiled rules with one
-- condition reducer each.
pub mod Types
pub mod Activate
pub mod Clock
pub mod Observe
pub mod Apply
pub mod Acceptance
mod Activation
mod Following
mod Runs
mod Selection
mod Firing
mod Draining
mod Merge
mod Examples
