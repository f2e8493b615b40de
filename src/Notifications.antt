-- ===== src/Notifications.antt =====
-- internal/notifications/notifications.go: notification intents, planned once for each alert
-- transition, and the delivery of an intent by claims that fence one another.
pub mod Planner
pub mod History
pub mod Delivery
pub mod Fencing
pub mod Runs
mod Examples
