-- ===== src/Upload/Service.antt =====
-- internal/upload/service.go: the operations on uploaded files. Beside the tables there are the objects
-- of the storage, which is a parameter: a directory or a service.
use golang_backend.Base.{
  ℕ, suc, String, Bool, ◌||◌, Option, none, some, ◌==◌, string_eq, if◌then◌else◌, ltb, rune_count,
  text_take, last_segment, trim_space,
}
use golang_backend.Fault.{Error, fault, missing, unavailable}
use golang_backend.Fault
use golang_backend.Library.{Library}
use golang_backend.Model
use golang_backend.Model.{project_file, file_json}
use golang_backend.Database.Tables.{StoredFile}
use golang_backend.Database.Action.{
  Result, ok, err, Run, World, M, pure, raise, wrap, ◌>>=◌, ◌>>◌, check,
}
use golang_backend.Database.Files.{create_file, find_file, file_referenced}
use golang_backend.Audit.Writer.{Actor, Policy, Change, capture, mutate}
use golang_backend.Role.Privilege.{is_root_role}
use golang_backend.Storage.{Storage}

-- `Input`, its source as the `size` bytes that are read from it
pub record Input : Type 0 where
  pub source : String
  pub name : String
  pub mime : String
  pub size : ℕ

abbrev file_name : String → String
file_name name =
    if name == "" || (name == "." || name == "..")
    then "file"
    else if ltb 255 (rune_count name)
    then text_take 255 name
    else name

-- `cleanName`
unfoldable pub clean_name : String → String
unfolding trim_space
clean_name name = file_name (trim_space (last_segment name))

abbrev pub uploader : Option Actor → Option String
uploader none = none
uploader (some actor) = some actor.id

-- `row.UploaderID != nil && *row.UploaderID == actor.ID`
abbrev pub is_uploader : Option String → String → Bool
is_uploader none actor = Bool.false
is_uploader (some id) actor = id == actor

module _ (lib : Library) (run : Run) where
  abbrev pub not_found : Error
  not_found = fault missing "Not found"

  get_as : Actor → StoredFile → M Model.StoredFile
  get_as actor row = if is_uploader row.uploader_id actor.id then pure (project_file row) else do
    root ← is_root_role run actor.role_id
    if root then pure (project_file row) else raise not_found

  abbrev get_by : Option Actor → StoredFile → M Model.StoredFile
  get_by none row = raise not_found
  get_by (some actor) row = get_as actor row

  -- `Get`
  unfoldable pub get : Option Actor → String → M Model.StoredFile
  unfolding get_as
  get actor id = do
    check (Fault.uuid (lib.valid_uuid id))
    row ← wrap (find_file run id)
    get_by actor row

  module _ (kind : String) where
    -- the body of the transaction of `Create`
    unfoldable pub create_body : Option Actor → Input → String → M (Model.StoredFile × Change)
    create_body actor input key = do
      row ← wrap (
          create_file run (record {
            storage = kind;
            object_key = key;
            original_name = clean_name input.name;
            mime_type = input.mime;
            size = input.size;
            uploader_id = uploader actor;
          }))
      let out = project_file row
      pure (out, capture lib.lower out.id none (some (file_json out)))

    -- `Referenced`
    unfoldable pub referenced : String → M Bool
    referenced key = file_referenced run key kind

  module _ {S : Type 0} (kind : String) where
    -- what follows the transaction: an object without a row is removed again
    abbrev pub tidy :
        Storage S
        → String
        → S
        → Result Model.StoredFile × World
        → Result Model.StoredFile × (World × S)
    tidy st key s (ok out, w) = (ok out, (w, s))
    tidy st key s (err e, w) = (err e, (w, (st.delete key s).1))

    abbrev pub insert_stored :
        Storage S
        → Policy
        → Option Actor
        → Input
        → String
        → World
        → Result (Unit {0}) × S
        → Result Model.StoredFile × (World × S)
    insert_stored st p actor input key w (err e, s) = (err (Fault.db e), (w, s))
    insert_stored st p actor input key w (ok u, s) =
        tidy st key s (mutate run p actor "CREATE" (create_body kind actor input key) w)

    -- `Create`, its key `uuid.NewString()`
    unfoldable pub create :
        Option (Storage S)
        → Policy
        → Option Actor
        → Input
        → World × S
        → Result Model.StoredFile × (World × S)
    create none p actor input (w, s) = (err (fault unavailable "Upload disabled"), (w, s))
    create (some st) p actor input (w, s) =
        let key = run.fresh w.drawn in
        insert_stored st p actor input key (record w { drawn = suc w.drawn })
          (st.put key input.source s)
