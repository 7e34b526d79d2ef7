-- ===== src/Mysql.antt =====
-- internal/db/mysql/sqlc and internal/db/mysql_adapter.go: the statements in the dialect of MySQL, and
-- the adapter that offers them under the names and the types of internal/db/sqlc.
pub mod Errors
pub mod Roles
pub mod Permissions
pub mod Users
pub mod Sessions
pub mod Outbox
pub mod Notices
pub mod Files
pub mod Logs
pub mod Simulation
pub mod Adapter
pub mod Conditions
pub mod Contract
pub mod Refinement
