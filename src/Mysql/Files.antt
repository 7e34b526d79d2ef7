-- ===== src/Mysql/Files.antt =====
-- internal/db/mysql/sqlc/upload.sql.go: the statements on stored files.
use golang_backend.Base.{ℕ, String, Bool, not, ◌||◌, ◌∷◌, ◌==◌, string_eq, if◌then◌else◌, any}
use golang_backend.Database.Tables.{Db, StoredFile}
use golang_backend.Database.Action.{Result, ok, err, Run, M, statement, query, query_row}
use golang_backend.Database.Files.{
  CreateFileParams, known_storage, known_uploader, new_file, file_at, is_referenced,
}
use golang_backend.Mysql.Errors.{
  duplicate_entry, no_referenced_row, check_violated, data_too_long, too_long,
}

-- `storage varchar(16)`, `object_key varchar(255)`, `original_name varchar(255)`, `mime_type varchar(128)`
abbrev pub file_too_long : CreateFileParams → Bool
file_too_long a =
    too_long 16 a.storage
    || (too_long 255 a.object_key || (too_long 255 a.original_name || too_long 128 a.mime_type))

unfoldable pub insert_file : ℕ → CreateFileParams → String → Db → Result (Unit {0} × Db)
insert_file now a id d =
    if file_too_long a
    then err data_too_long
    else if not (known_storage a.storage)
    then err check_violated
    else if any (λ f. f.id == id || f.object_key == a.object_key) d.files
    then err duplicate_entry
    else if known_uploader d a.uploader_id
    then ok (tt, record d { files = new_file now a id ∷ d.files })
    else err no_referenced_row

module _ (run : Run) where
  unfoldable pub create_file : String → CreateFileParams → M (Unit {0})
  create_file id a = statement run (insert_file run.now a id)

  unfoldable pub find_file : String → M StoredFile
  find_file id = query_row run (file_at id)

  unfoldable pub file_referenced : String → String → M Bool
  file_referenced key storage = query run (is_referenced key storage)
