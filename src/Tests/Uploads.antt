-- ===== src/Tests/Uploads.antt =====
-- Uploads and sweeps of internal/upload and cmd/cleanup-uploads, in a directory.
use golang_backend.Base.{
  String, ◌≡◌, refl, sym, ◌∙◌, ap, Bool, true, false, Option, none, some, List, [], ◌∷◌, ◌⊎◌, inl,
  inr, arith, ◌==◌, ==_refl, string_eq, if◌then◌else◌, Option-cases, any,
}
use golang_backend.Fault.{Error, plain, db}
use golang_backend.Model
use golang_backend.Database.Action.{Result, ok, err, Run, World}
use golang_backend.Audit.Writer.{Actor, Policy}
use golang_backend.Storage.{Storage, IsStorage}
use golang_backend.Storage.Local.{FileSystem}
use golang_backend.Storage.Laws.{IsFileSystem, local_storage, local_storage-IsStorage}
use golang_backend.Upload.{Backed}
use golang_backend.Upload.Service.{Input, create}
use golang_backend.Upload.Sweep.{sweep}
use golang_backend.Upload.Laws.{Stored, OthersSame, create-Stored}
use golang_backend.Upload.Spared.{Spared, sweep-Spared}
use golang_backend.Upload.Backing.{Steps, done, upload, swept, steps-Backed}
use golang_backend.Tests.Fixtures.{lib, run_at, audited, actor, world}

abbrev Directory : Type 0
Directory = String → Option String

abbrev set : String → Option String → Directory → Directory
set key contents s j = if j == key then contents else s j

abbrev unlinked : String → Directory → Option String → Result (Unit {0}) × Directory
unlinked key s none = (err (plain "missing"), s)
unlinked key s (some contents) = (ok tt, set key none s)

abbrev opened : String → Directory → Option String → Result (Unit {0}) × Directory
opened key s none = (ok tt, set key (some "") s)
opened key s (some contents) = (err (plain "exists"), s)

abbrev disk : FileSystem Directory
disk = record {
  open_new = λ key s. opened key s (s key);
  copy = λ key contents s. (ok tt, set key (some contents) s);
  close = λ key s. (ok tt, s);
  unlink = λ key s. unlinked key s (s key);
  is_not_exist = λ e. true;
  file_at = λ j s. s j;
}

set_others :
    (key : String) (c : Option String) (s : Directory) (j : String)
    → (j == key) ≡ false
    → set key c s j ≡ s j
set_others key c s j other = ground arith

set_at : (key : String) (c : Option String) (s : Directory) → set key c s key ≡ c
set_at key c s = ground (arith, ==_refl key)

opened_others :
    (key : String) (s : Directory) (o : Option String) (j : String)
    → (j == key) ≡ false
    → (opened key s o).1 j ≡ s j
opened_others key s none j other = set_others key (some "") s j other
opened_others key s (some c) j other = refl

unlinked_others :
    (key : String) (s : Directory) (o : Option String) (j : String)
    → (j == key) ≡ false
    → (unlinked key s o).1 j ≡ s j
unlinked_others key s none j other = refl
unlinked_others key s (some c) j other = set_others key none s j other

unlinked_at :
    (key : String) (s : Directory) (o : Option String) → s key ≡ o → (unlinked key s o).1 key ≡ none
unlinked_at key s none e = e
unlinked_at key s (some c) e = set_at key none s

abbrev state_at : String → Result (Unit {0}) × Directory → Option String
state_at key x = x.1 key

disk_laws : IsFileSystem disk
disk_laws = record {
  open-others = λ key s j other. opened_others key s (s key) j other;
  copy-writes = λ key contents s h. sym (ap (state_at key) h) ∙ set_at key (some contents) s;
  copy-others = λ key contents s j other. set_others key (some contents) s j other;
  close-keeps = λ key s j. refl;
  unlink-removes = λ key s h. sym (ap (state_at key) h) ∙ unlinked_at key s (s key) refl;
  unlink-missing = λ key s h e. sym (ap (state_at key) h) ∙ unlinked_at key s (s key) refl;
  unlink-others = λ key s j other. unlinked_others key s (s key) j other;
}

local_storage-IsStorage_example : IsStorage (local_storage disk disk_laws)
local_storage-IsStorage_example = local_storage-IsStorage disk disk_laws

abbrev shelf : Storage Directory
shelf = local_storage disk disk_laws

abbrev is_shelf : IsStorage shelf
is_shelf = local_storage-IsStorage disk disk_laws

abbrev empty : Directory
empty j = none

abbrev photo : Input
photo = record { source = "bytes"; name = "C:\\pictures\\me.png"; mime = "image/png"; size = 5 }

abbrev after : World × Directory
after = (create lib (run_at 7) "local" (some shelf) audited (some actor) photo (world, empty)).1

abbrev shown : Model.StoredFile
shown = record {
  id = "1";
  original_name = "me.png";
  mime_type = "image/png";
  size = 5;
  created_at = 7;
}

uploads :
    create lib (run_at 7) "local" (some shelf) audited (some actor) photo (world, empty)
    ≡ (ok shown, after)
unfolding golang_backend.Audit.Writer.mutate golang_backend.Audit.Writer.write
    golang_backend.Database.Action.draw golang_backend.Database.Action.pure
    golang_backend.Database.Action.statement golang_backend.Database.Action.transaction
    golang_backend.Database.Action.wrap golang_backend.Database.Logs.insert_audit
    golang_backend.Fault.decimal golang_backend.Storage.Local.is_bad_key
    golang_backend.Storage.Local.put golang_backend.Upload.Service.create
    golang_backend.Database.Action.◌>>=◌ golang_backend.Base.string_eq
    golang_backend.Upload.Service.create_body golang_backend.Database.Files.create_file
    golang_backend.Database.Files.insert_file golang_backend.Model.project_file
    golang_backend.Upload.Service.clean_name
uploads = refl

create-Stored_example :
    Stored 7 "local" "0" (some actor) photo shown world.db after.0.db
    × (after.1 "0" ≡ some "bytes")
    × OthersSame shelf "0" empty after.1
unfolding golang_backend.Fault.decimal golang_backend.Base.nat_eq
create-Stored_example =
    create-Stored lib (run_at 7) "local" shelf is_shelf audited (some actor) photo world empty
      uploads

abbrev litter : String
litter = "00000000-0000-4000-8000-000000000000"

abbrev littered : World × Directory
littered = (after.0, set litter (some "old") after.1)

abbrev clean : World × Directory
clean = (sweep lib (run_at 9) shelf "local" true 10 0 ("0" ∷ litter ∷ []) littered).1

sweeps : clean.1 litter ≡ none
unfolding golang_backend.Audit.Writer.mutate golang_backend.Audit.Writer.write
    golang_backend.Database.Action.draw golang_backend.Database.Action.pure
    golang_backend.Database.Action.transaction golang_backend.Database.Action.wrap
    golang_backend.Database.Logs.insert_audit golang_backend.Fault.decimal
    golang_backend.Storage.Local.is_bad_key golang_backend.Storage.Local.put
    golang_backend.Upload.Service.create golang_backend.Database.Action.◌>>=◌
    golang_backend.Base.string_eq golang_backend.Upload.Service.create_body
    golang_backend.Database.Files.create_file golang_backend.Database.Files.insert_file
    golang_backend.Upload.Service.clean_name golang_backend.Storage.Local.delete
    golang_backend.Upload.Sweep.sweep golang_backend.Upload.Sweep.sweep_key
    golang_backend.Upload.Sweep.remove_orphan golang_backend.Upload.Sweep.is_upload_key
    golang_backend.Database.Files.file_referenced golang_backend.Database.Files.is_referenced
    golang_backend.Database.Action.query
sweeps = refl

sweep-Spared_example : Spared lib (run_at 9) "local" shelf is_shelf true littered clean
sweep-Spared_example =
    sweep-Spared lib (run_at 9) "local" shelf is_shelf true 10 ("0" ∷ litter ∷ []) 0 littered

abbrev clean0 : World × Directory
clean0 = (sweep lib (run_at 9) shelf "local" true 10 0 ("0" ∷ litter ∷ []) after).1

both : Steps shelf "local" (world, empty) clean0
unfolding golang_backend.Base.string_eq
both =
    upload lib (run_at 7) audited (some actor) photo refl
      (swept lib (run_at 9) true 10 ("0" ∷ litter ∷ []) done)

steps-Backed_example : Backed shelf "local" clean0.0.db clean0.1
steps-Backed_example =
    steps-Backed shelf "local" is_shelf (world, empty) clean0 both λ f i at. elim i [ ]
