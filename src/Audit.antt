-- ===== src/Audit.antt =====
-- internal/audit/audit.go: what is recorded of a change, and the transaction that a change and its
-- record share.
pub mod Redact
pub mod Writer
pub mod Laws
pub mod Entries
