-- ===== src/Mysql/Refinement/Files.antt =====
-- internal/db/mysql_adapter.go: the methods on stored files, and `InsertAudit`.
use golang_backend.Base.{ℕ, String, ◌≡◌, true, false, ◌||◌, arith, ==_refl, string_eq, nat_eq}
use golang_backend.Library.{Library}
use golang_backend.Database.Postgres.{postgres}
use golang_backend.Mysql.Errors.{too_long}
use golang_backend.Mysql.Adapter
use golang_backend.Mysql.Adapter.{mysql_queries}
use golang_backend.Mysql.Refinement.Uuids.{some_uuid-Implements, uuid-Implements}
use golang_backend.Mysql.Simulation.{
  SameRows, then_find, row_agrees, rows_agree, drawn-Implements, inserted-Implements,
}
use golang_backend.Mysql.Refinement.Errors.{db-duplicate, db-no_referenced}
use golang_backend.Database.Tables.{Db}
use golang_backend.Database.Files as Postgres
use golang_backend.Database.Files.{CreateFileParams, known_storage}
use golang_backend.Database.Logs as Logs_pg
use golang_backend.Database.Logs.{InsertAuditParams}
use golang_backend.Mysql.Files
use golang_backend.Mysql.Files.{file_too_long}
use golang_backend.Mysql.Logs
use golang_backend.Mysql.Conditions.{FileFits, LogFits}
use golang_backend.Mysql.Contract.{FileMethods}

insert_file-SameRows :
    (now : ℕ) (a : CreateFileParams) (id : String) (d : Db)
    → file_too_long a ≡ false
    → known_storage a.storage ≡ true
    → SameRows
        (then_find (Postgres.file_at id) (Files.insert_file now a id d))
        (Postgres.insert_file now a id d)
unfolding Files.insert_file Postgres.insert_file Postgres.file_at
insert_file-SameRows now a id d fits known =
    ground (arith, db-duplicate, db-no_referenced, ==_refl id)

insert_log-SameRows :
    (now : ℕ) (a : InsertAuditParams) (id : String) (d : Db)
    → (too_long 64 a.behavior || too_long 64 a.module_name) ≡ false
    → SameRows (Logs.insert_log now a id d) (Logs_pg.insert_log now a id d)
unfolding Logs.insert_log Logs_pg.insert_log
insert_log-SameRows now a id d fits = ground (arith, db-duplicate, db-no_referenced)

module _ (lib : Library) where
  pub file_methods : FileMethods lib (mysql_queries lib) (postgres lib)
  unfolding Postgres.create_file Files.create_file Adapter.create_file Postgres.file_referenced
      Files.file_referenced Postgres.find_file Files.find_file Logs_pg.insert_audit
      Logs.insert_audit
  file_methods = record {
    create_file = λ a.
        some_uuid-Implements lib
          (λ run k1. Postgres.create_file run (record a { uploader_id = k1 })) a.uploader_id
          (inserted-Implements (FileFits a) (λ now. Files.insert_file now a) Postgres.file_at
            (λ now. Postgres.insert_file now a)
            λ run w fits. insert_file-SameRows run.now a (run.fresh w.drawn) w.db fits.0 fits.1);
    file_referenced =
        λ key storage run w pre. rows_agree run (Postgres.is_referenced key storage) w;
    find_file = λ id.
        uuid-Implements lib (λ run k1. Postgres.find_file run k1) id
          (λ run w pre. row_agrees run (Postgres.file_at id) w);
    insert_audit = λ a.
        some_uuid-Implements lib (λ run k1. Logs_pg.insert_audit run (record a { user_id = k1 }))
          a.user_id
          (drawn-Implements (LogFits a) (λ now. Logs.insert_log now a)
            (λ now. Logs_pg.insert_log now a)
            λ run w fits. insert_log-SameRows run.now a (run.fresh w.drawn) w.db fits);
  }
