-- ===== src/Jobs.antt =====
-- internal/jobs: the worker that delivers queued mails, and the cleanup.
pub mod Worker
pub mod Lifecycle
pub mod Leases
pub mod Outcome
pub mod Cleanup
pub mod Retention
pub mod Spared
pub mod Rows
pub mod Steps
pub mod Claims
pub mod Due
pub mod Available
pub mod Progress
pub mod Keeps
