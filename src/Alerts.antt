-- ===== src/Alerts.antt =====
-- internal/alerts/alerts.go: episodes of a rule and a subject make a series of alert generations.
pub mod Types
pub mod Reducer
pub mod Coherence
pub mod Runs
pub mod Origins
pub mod Recovery
mod Examples
