-- ===== src/Events.antt =====
-- internal/events/events.go: the events, and the strict decoder that makes them from JSON.
pub mod Types
pub mod Timestamps
pub mod Fields
pub mod Decode
pub mod Lines
pub mod Readers
pub mod WellFormed
pub mod Encoding
pub mod Complete
pub mod Stream
mod Delivery
mod Examples
