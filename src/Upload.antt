-- ===== src/Upload.antt =====
-- internal/upload/service.go and cmd/cleanup-uploads/main.go: uploaded files and the sweep of the objects
-- that no file names.
pub mod Service
pub mod Sweep
pub mod Laws
pub mod Kept
pub mod Spared
pub mod Backing
use golang_backend.Base.{String, ◌≡◌, some, In}
use golang_backend.Database.Tables.{Db, StoredFile}
use golang_backend.Storage.{Storage}

-- Every file that the tables name in a storage has its object there.
abbrev pub Backed : {S : Type 0} → Storage S → String → Db → S → Type 0
Backed st kind d s =
    (f : StoredFile)
    → In f d.files
    → f.storage ≡ kind
    → (contents : String) × (st.object_at f.object_key s ≡ some contents)
