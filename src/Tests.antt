-- ===== src/Tests.antt =====
-- Runs of the services on small tables. Each applies a theorem where its hypotheses hold.
mod Fixtures
mod Sessions
mod Accounts
mod Mails
mod Requests
mod Cleaning
mod Records
mod Uploads
mod Adapter
mod Gate
mod Settings
