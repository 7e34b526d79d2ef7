-- ===== src/Database/Files.antt =====
-- internal/db/sqlc/upload.sql.go: the statements on stored files.
use golang_backend.Base.{
  ℕ, String, Bool, true, false, not, ◌&&◌, ◌||◌, Option, none, some, ◌∷◌, ◌==◌, string_eq,
  if◌then◌else◌, any, find_first,
}
use golang_backend.Fault.{pg}
use golang_backend.Database.Tables.{Db, StoredFile, FileStatus, ready, in_progress}
use golang_backend.Database.Action.{
  Result, ok, err, Run, M, draw, statement, query, query_row, ◌>>=◌,
}

pub record CreateFileParams : Type 0 where
  pub storage : String
  pub object_key : String
  pub original_name : String
  pub mime_type : String
  pub size : ℕ
  pub uploader_id : Option String

abbrev is_ready : FileStatus → Bool
is_ready ready = true
is_ready in_progress = false

-- `id=$1 AND status='READY'`
unfoldable pub file_at : String → Db → Option StoredFile
file_at id d = find_first (λ f. f.id == id && is_ready f.status) d.files

-- the CHECK on the storage
abbrev pub known_storage : String → Bool
known_storage storage = storage == "local" || storage == "s3"

abbrev pub known_uploader : Db → Option String → Bool
known_uploader d none = true
known_uploader d (some id) = any (λ u. u.id == id) d.users

abbrev pub new_file : ℕ → CreateFileParams → String → StoredFile
new_file now a id = record {
  id = id;
  storage = a.storage;
  status = ready;
  object_key = a.object_key;
  original_name = a.original_name;
  mime_type = a.mime_type;
  size = a.size;
  uploader_id = a.uploader_id;
  created_at = now;
}

unfoldable pub insert_file : ℕ → CreateFileParams → String → Db → Result (StoredFile × Db)
insert_file now a id d =
    if not (known_storage a.storage)
    then err (pg "23514")
    else if any (λ f. f.id == id || f.object_key == a.object_key) d.files
    then err (pg "23505")
    else if known_uploader d a.uploader_id
    then ok (new_file now a id, record d { files = new_file now a id ∷ d.files })
    else err (pg "23503")

unfoldable pub is_referenced : String → String → Db → Bool
is_referenced key storage d = any (λ f. f.object_key == key && f.storage == storage) d.files

module _ (run : Run) where
  unfoldable pub create_file : CreateFileParams → M StoredFile
  create_file a = do id ← draw run; statement run (insert_file run.now a id)

  unfoldable pub find_file : String → M StoredFile
  find_file id = query_row run (file_at id)

  unfoldable pub file_referenced : String → String → M Bool
  file_referenced key storage = query run (is_referenced key storage)
