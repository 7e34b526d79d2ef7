-- ===== src/Database/Logs.antt =====
-- internal/db/sqlc/audit.sql.go: `InsertAudit`.
use golang_backend.Base.{
  ℕ, String, Bool, true, Option, none, some, ◌∷◌, ◌==◌, string_eq, if◌then◌else◌, any,
}
use golang_backend.Fault.{pg}
use golang_backend.Json.{Json}
use golang_backend.Database.Tables.{Db, ActivityLog}
use golang_backend.Database.Action.{Result, ok, err, Run, M, draw, statement, ◌>>=◌}

pub record InsertAuditParams : Type 0 where
  pub behavior : String
  pub module_name : String
  pub entity_id : Option String
  pub user_id : Option String
  pub actor_id_snapshot : Option String
  pub before : Option Json
  pub after : Option Json
  pub request_id : Option String
  pub endpoint_id : Option String

-- `user_id uuid REFERENCES users(id)`
abbrev pub known_user : Db → Option String → Bool
known_user d none = true
known_user d (some id) = any (λ u. u.id == id) d.users

abbrev pub log_row : ℕ → InsertAuditParams → String → ActivityLog
log_row now a id = record {
  id = id;
  behavior = a.behavior;
  module_name = a.module_name;
  entity_id = a.entity_id;
  user_id = a.user_id;
  actor_id_snapshot = a.actor_id_snapshot;
  before = a.before;
  after = a.after;
  request_id = a.request_id;
  endpoint_id = a.endpoint_id;
  created_at = now;
}

unfoldable pub insert_log : ℕ → InsertAuditParams → String → Db → Result (Unit {0} × Db)
insert_log now a id d =
    if any (λ l. l.id == id) d.logs
    then err (pg "23505")
    else if known_user d a.user_id
    then ok (tt, record d { logs = log_row now a id ∷ d.logs })
    else err (pg "23503")

module _ (run : Run) where
  unfoldable pub insert_audit : InsertAuditParams → M (Unit {0})
  unfolding insert_log
  insert_audit a = do id ← draw run; statement run (insert_log run.now a id)
