-- ===== src/Projections.antt =====
-- internal/projections/projections.go: the live state of queues and agents, built from accepted
-- occurrences. The children hold the data, the builder, and what is proved of it.
pub mod Types
pub mod Live
pub mod Builder
pub mod Newest
pub mod Coherence
pub mod Replay
pub mod Examples
