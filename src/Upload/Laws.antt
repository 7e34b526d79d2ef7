-- ===== src/Upload/Laws.antt =====
-- internal/upload/service.go: what an upload leaves in the tables and in the storage.
use golang_backend.Base.{
  ℕ, suc, String, ◌≡◌, sym, ◌∙◌, ap, false, Option, some, List, ◌∷◌, arith, ◌==◌, string_eq,
}
use golang_backend.Library.{Library}
use golang_backend.Model
use golang_backend.Model.{project_file}
use golang_backend.Database.Tables.{Db, StoredFile, ready, ActivityLog}
use golang_backend.Database.Action.{Result, ok, err, Run, World}
use golang_backend.Database.Laws.{bind-ok, pure-ok, wrap-ok, statement-ok}
use golang_backend.Database.Effects.{draw-same}
use golang_backend.Database.Files.{CreateFileParams, new_file, insert_file, create_file}
use golang_backend.Audit.Writer.{Actor, Policy, Change, mutate}
use golang_backend.Audit.Laws.{mutate_value}
use golang_backend.Storage.{Storage, IsStorage}
use golang_backend.Upload.Service.{
  Input, clean_name, uploader, create_body, tidy, insert_stored, create,
}

insert_file-ok :
    (now : ℕ) (a : CreateFileParams) (id : String) (d : Db) {row : StoredFile} {d' : Db}
    → insert_file now a id d ≡ ok (row, d')
    → (row ≡ new_file now a id) × (d' ≡ record d { files = new_file now a id ∷ d.files })
unfolding insert_file
insert_file-ok now a id d h = ground arith

-- the file that an upload adds to the tables, and what the caller is shown of it
pub record Stored (now : ℕ) (kind key : String) (actor : Option Actor) (input : Input)
    (out : Model.StoredFile) (d d' : Db) : Type 0 where
  pub row : StoredFile
  pub files_after : d'.files ≡ row ∷ d.files
  pub shown : out ≡ project_file row
  pub is_ready : row.status ≡ ready
  pub in_storage : row.storage ≡ kind
  pub at_key : row.object_key ≡ key
  pub has_name : row.original_name ≡ clean_name input.name
  pub has_type : row.mime_type ≡ input.mime
  pub has_size : row.size ≡ input.size
  pub has_uploader : row.uploader_id ≡ uploader actor
  pub is_dated : row.created_at ≡ now

-- no object of another key has changed
abbrev pub OthersSame : {S : Type 0} → Storage S → String → S → S → Type 0
OthersSame st key s s' = (j : String) → (j == key) ≡ false → st.object_at j s' ≡ st.object_at j s

module _ (lib : Library) (run : Run) (kind : String) where
  create_body-Stored :
      (actor : Option Actor) (input : Input) (key : String) (w : World)
      {done : Model.StoredFile × Change} {w' : World}
      → create_body lib run kind actor input key w ≡ (ok done, w')
      → Stored run.now kind key actor input done.0 w.db w'.db
  unfolding create_body create_file
  create_body-Stored actor input key w {done} {w'} h = bind-ok _ _ w h λ row w1 inserted end.
      bind-ok _ _ w (wrap-ok _ w inserted) λ id w2 drawn stated.
        let (value, last) = pure-ok _ w1 end in
        let (is_row, added) = insert_file-ok run.now _ id w2.db (statement-ok run _ w2 stated) in
        record {
          row = row;
          files_after = ground (arith, ap World.db (sym last), draw-same run w drawn, is_row);
          shown = ap (λ (x : Model.StoredFile × Change). x.0) (sym value);
          is_ready = ap StoredFile.status is_row;
          in_storage = ap StoredFile.storage is_row;
          at_key = ap StoredFile.object_key is_row;
          has_name = ap StoredFile.original_name is_row;
          has_type = ap StoredFile.mime_type is_row;
          has_size = ap StoredFile.size is_row;
          has_uploader = ap StoredFile.uploader_id is_row;
          is_dated = ap StoredFile.created_at is_row;
        }

  Stored-log :
      (key : String) (actor : Option Actor) (input : Input) (out : Model.StoredFile) (d d' : Db)
      (rows : List ActivityLog)
      → Stored run.now kind key actor input out d d'
      → Stored run.now kind key actor input out d (record d' { logs = rows })
  Stored-log key actor input out d d' rows a = record {
    row = a.row;
    files_after = a.files_after;
    shown = a.shown;
    is_ready = a.is_ready;
    in_storage = a.in_storage;
    at_key = a.at_key;
    has_name = a.has_name;
    has_type = a.has_type;
    has_size = a.has_size;
    has_uploader = a.has_uploader;
    is_dated = a.is_dated;
  }

  module _ {S : Type 0} (st : Storage S) (laws : IsStorage st) (p : Policy) where
    abbrev pub stored : Option Actor → Input → World × S → Result Model.StoredFile × (World × S)
    stored actor input (w, s) = create lib run kind (some st) p actor input (w, s)

    tidy-ok :
        (key : String) (s : S) (x : Result Model.StoredFile × World) {out : Model.StoredFile}
        {w' : World} {s' : S}
        → tidy lib run kind st key s x ≡ (ok out, (w', s'))
        → (x ≡ (ok out, w')) × (s ≡ s')
    tidy-ok key s (ok a, w) h = (ground arith, ground arith)
    tidy-ok key s (err e, w) h = absurd (cc h)

    insert_stored-ok {ℓ} :
        {P : Type ℓ} (actor : Option Actor) (input : Input) (key : String) (w : World)
        (x : Result (Unit {0}) × S) {out : Model.StoredFile} {w' : World} {s' : S}
        → insert_stored lib run kind st p actor input key w x ≡ (ok out, (w', s'))
        → (x ≡ (ok tt, s')
            → mutate run p actor "CREATE" (create_body lib run kind actor input key) w
              ≡ (ok out, w')
            → P)
        → P
    insert_stored-ok actor input key w (err e, s) h k = absurd (cc h)
    insert_stored-ok actor input key w (ok u, s) h k =
        let (ran, end) = tidy-ok key s _ h in k (ap (λ t. (ok tt, t)) end) ran

    -- An upload that succeeds adds one row to the files and nothing to the other objects, in a storage
    -- that keeps what it promises: the row is ready, of this storage and instant, has the key that was
    -- drawn, the cleaned name, the type, the size and the uploader of the request, and is what the
    -- caller is shown; and at its key lie the bytes of the source.
    pub create-Stored :
        (actor : Option Actor) (input : Input) (w : World) (s : S) {out : Model.StoredFile}
        {w' : World} {s' : S}
        → stored actor input (w, s) ≡ (ok out, (w', s'))
        → Stored run.now kind (run.fresh w.drawn) actor input out w.db w'.db
          × (st.object_at (run.fresh w.drawn) s' ≡ some input.source)
          × OthersSame st (run.fresh w.drawn) s s'
    unfolding create
    create-Stored actor input w s {out} {w'} {s'} h =
        let key = run.fresh w.drawn in
        let drawn : World = record w { drawn = suc w.drawn } in
        insert_stored-ok actor input key drawn (st.put key input.source s) h λ kept ran. (
          mutate_value run p actor "CREATE" _ (Stored run.now kind key actor input)
              (λ out d d' rows a. Stored-log key actor input out d d' rows a)
              (λ v u done body. create_body-Stored actor input key v body) drawn ran,
          laws.put-stores key input.source s kept,
          λ j other.
              ap (st.object_at j) (ap (λ (x : Result (Unit {0}) × S). x.1) (sym kept))
              ∙ laws.put-others key input.source s j other,
        )
