-- ===== src/Conditions.antt =====
-- internal/conditions/conditions.go: duration-qualified condition lifecycles. The children hold the
-- data, the timers in canonical order, the reducer, and what is proved of them.
pub mod Enums
pub mod Types
pub mod Timers
pub mod Reducer
pub mod Order
pub mod Tracking
pub mod Settling
pub mod Lifecycle
pub mod Coherence
pub mod Runs
mod Examples
