-- ===== src/App.antt =====
-- internal/app/contracts.go: the contracts between admission, evaluation and storage.
pub mod Occurrence
pub mod Request
pub mod Commit
pub mod Unique
pub mod Examples
