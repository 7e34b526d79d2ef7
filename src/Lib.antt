-- ===== src/Lib.antt =====
-- A backend for accounts, roles, permissions, sessions, notifications and queued mails: the services of
-- internal/, over the tables that internal/db/sqlc reads and writes. A request calls one service; a
-- service that changes tables does so in one transaction of internal/audit's `Mutate`, which
-- also records the change; the services of users and permissions call the rules against escalation of
-- internal/role/privilege.go inside that transaction. The mail worker of internal/jobs shares the tables.
-- Before a service is called, `enforce` of internal/httpapi/registration.go verifies the token, asks the
-- limiter and loads the user, in this order. Uploaded files lie in a storage beside the tables, and
-- cmd/cleanup-uploads deletes the objects there that no row names.
--
-- The files, from the bottom:
--   Base/*        native numbers and texts, lists as SQL and Go's slices use them, ℤ, equality;
--   Fault         internal/fault/fault.go: `Error`, `DB` (`db`), `Email`, `Name`, `UUID`;
--   Json, Model   JSON values; internal/model/model.go and internal/db/projection/projection.go;
--   Library       code of other repositories, as a record of functions: uuid, bcrypt, SHA-256, JWT, ILIKE, LIKE;
--   Database/*    internal/db/sqlc/*.sql.go: Tables (the rows), Users, Roles, Permissions, Sessions,
--                 Logs, Outbox, Notices (one function for each statement), Action (the monad),
--                 Files, Seeds; Querier, Postgres (`Querier`, all of them); Uuid (how a text is read beside a `uuid`);
--   Mysql/*       internal/db/mysql_adapter.go: Adapter; internal/db/mysql/sqlc/*.sql.go: a file for each
--                 group of statements; Contract (what the adapter owes), Refinement (that it does it);
--   Audit/*       internal/audit/audit.go: Redact (`redact`), Writer (`Write`, `Mutate`, `Read`, `Capture`);
--   Role/*        internal/role/privilege.go (Privilege) and internal/role/service.go (Service);
--   User/*        internal/user/service.go;
--   Permission/*  internal/permission/service.go;
--   Auth/*        internal/auth/service.go: Session (`Register`, `Login`, `Refresh`), SignOut (`Logout`), Access
--                 (`VerifyAccessToken`, `LoadActor`, `Authenticate`, `Authorize`, `Me`);
--   Jobs/*        internal/jobs/worker.go: Worker (`claim`, `deliver`), and
--                 internal/jobs/cleanup.go: Cleanup (`Cleanup`);
--   Notification/* internal/notification/service.go;
--   Storage/*     internal/storage/storage.go: the interface, and Local, over the file system;
--   Upload/*      internal/upload/service.go: Service (`Get`, `Create`, `Referenced`), and
--                 cmd/cleanup-uploads/main.go: Sweep (the loop of `run`);
--   Ratelimit/*   internal/ratelimit/limiter.go: Limiter (`Allow`, `prune`);
--   Http/*        internal/httpapi: Registry (registry.go: `Definitions`, `Resolve`), Gate (`enforce` of
--                 registration.go and `apiError` of types.go);
--   Config/*      internal/config/dotenv.go: Dotenv (the lines that `LoadEnvironment` reads), and `serializeEnv` of
--                 cmd/initproject/main.go, over lists of code points;
--   Tests/*       runs on small tables.
-- A function has the name of the code's in snake case; `delete_body` is the function that `Delete` hands to
-- `Mutate`, and a name like `settle_job` a branch of a longer function.
--
-- A function that returns `(T, error)` is an action of Database/Action: it takes the tables, and gives a
-- value or an error, and the tables. A `Run` has what the environment decides: the instant, which
-- call of the database fails and how, and the random texts that are drawn. So every theorem that
-- speaks of a run holds for all failures of the database. A transaction that fails puts the tables back.
-- One instant stands for the `time.Now()` of one operation. An instant is a number of milliseconds. The
-- 64-bit product that `List` of internal/user/service.go compares is written out with its wrap-around;
-- sums of instants and counts of rows are taken to fit their integers. No function needs fuel but the
-- decimal digits of a number, which have as much as the number itself. The count of a window is taken to
-- stay below 2^63, and the window of a rate to be positive, as internal/config/config.go sees to.
--
-- Not modelled: the interleaving of transactions inside the database (row locks and isolation); in its place
-- Jobs/Steps has the workers' transactions in any order, and Auth/Commit the refresh's transaction
-- after any other has run since its token was looked up. Nor the handlers of the HTTP layer, the rest of
-- the configuration, the cache, S3, metrics and warnings.
--
-- The ids of PostgreSQL are of type `uuid`, and a text beside one is read as a uuid first: `by_uuid` of
-- Database/Uuid, over a function of the library. The methods of `Querier` for PostgreSQL and `Delete` of
-- internal/user/service.go, which compares an id as a text too, have this reading. The other operations take
-- an id in the spelling that the database writes, in which two ids are one exactly when the texts are.
-- The two databases are compared on ids that are spelled so, and on what their schemas have in common: a
-- column of MySQL holds fewer characters than a text of PostgreSQL, and which of two violated
-- constraints is reported is only compared where `fault.DB` tells them apart. `LIKE` of MySQL's
-- collation is a function of the library, as `ILIKE` is. What is stored under a key is a text, as are
-- all bytes.
pub mod Base
pub mod Fault
pub mod Json
pub mod Database
pub mod Library
pub mod Model
pub mod Mysql
pub mod Audit
pub mod Role
pub mod User
pub mod Permission
pub mod Auth
pub mod Jobs
pub mod Notification
pub mod Ratelimit
pub mod Storage
pub mod Upload
pub mod Http
pub mod Config
pub mod Tests
