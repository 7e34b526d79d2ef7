-- ===== src/Mysql/Refinement.antt =====
-- internal/db/mysql_adapter.go: the adapter for MySQL does what PostgreSQL does.
mod Errors
mod Roles
mod Permissions
mod Users
mod Sessions
mod Outbox
mod Notices
mod Files
mod Seeds
mod Uuids
use golang_backend.Library.{Library}
use golang_backend.Database.Postgres.{postgres}
use golang_backend.Mysql.Adapter.{mysql_queries}
use golang_backend.Mysql.Contract.{Refines}
use Roles.{role_methods}
use Permissions.{permission_methods}
use Users.{CaseBlind, user_methods}
use Sessions.{session_methods}
use Outbox.{mail_methods}
use Notices.{notice_methods}
use Files.{file_methods}
use Seeds.{seed_methods}

pub mysql_queries-Refines :
    (lib : Library) → CaseBlind lib → Refines lib (mysql_queries lib) (postgres lib)
mysql_queries-Refines lib blind = record {
  roles = role_methods lib;
  permissions = permission_methods lib;
  users = user_methods lib blind;
  sessions = session_methods lib;
  mails = mail_methods lib;
  notices = notice_methods lib;
  files = file_methods lib;
  seeds = seed_methods lib;
}
