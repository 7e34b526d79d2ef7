-- ===== src/Database.antt =====
-- internal/db: the tables, the actions of the services on them, and the statements of the queries.
pub mod Tables
pub mod Action
pub mod Uuid
pub mod Laws
pub mod Effects
pub mod Grants
pub mod Logs
pub mod Roles
pub mod Permissions
pub mod Users
pub mod Sessions
pub mod Outbox
pub mod Notices
pub mod Files
pub mod Seeds
pub mod Querier
pub mod Postgres
