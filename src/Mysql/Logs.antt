-- ===== src/Mysql/Logs.antt =====
-- internal/db/mysql/sqlc/audit.sql.go: `InsertAudit`.
use golang_backend.Base.{ℕ, String, ◌||◌, ◌∷◌, ◌==◌, string_eq, if◌then◌else◌, any}
use golang_backend.Database.Tables.{Db}
use golang_backend.Database.Action.{Result, ok, err, Run, M, draw, statement, ◌>>=◌}
use golang_backend.Database.Logs.{InsertAuditParams, log_row, known_user}
use golang_backend.Mysql.Errors.{duplicate_entry, no_referenced_row, data_too_long, too_long}

-- `behavior varchar(64)`, `module varchar(64)`
unfoldable pub insert_log : ℕ → InsertAuditParams → String → Db → Result (Unit {0} × Db)
insert_log now a id d =
    if too_long 64 a.behavior || too_long 64 a.module_name
    then err data_too_long
    else if any (λ l. l.id == id) d.logs
    then err duplicate_entry
    else if known_user d a.user_id
    then ok (tt, record d { logs = log_row now a id ∷ d.logs })
    else err no_referenced_row

module _ (run : Run) where
  unfoldable pub insert_audit : InsertAuditParams → M (Unit {0})
  insert_audit a = do id ← draw run; statement run (insert_log run.now a id)
