-- ===== src/Storage.antt =====
-- internal/storage/storage.go: the interface `Storage`, what its clients rely on, and the local directory.
pub mod Local
pub mod Laws
use golang_backend.Base.{String, ◌≡◌, false, Option, none, some, ◌==◌, string_eq}
use golang_backend.Database.Action.{Result, ok}

-- The methods, over the objects that are stored. `object_at` is no method: it is what there is to read.
pub record Storage (S : Type 0) : Type 0 where
  pub put : String → String → S → Result (Unit {0}) × S
  pub delete : String → S → Result (Unit {0}) × S
  pub object_at : String → S → Option String

-- What a client relies on. A method that fails may leave anything at its own key.
pub record IsStorage {S : Type 0} (st : Storage S) : Type 0 where
  pub put-stores :
      (key contents : String) (s : S) {s' : S}
      → st.put key contents s ≡ (ok tt, s')
      → st.object_at key s' ≡ some contents
  pub put-others :
      (key contents : String) (s : S) (j : String)
      → (j == key) ≡ false
      → st.object_at j (st.put key contents s).1 ≡ st.object_at j s
  pub delete-removes :
      (key : String) (s : S) {s' : S} → st.delete key s ≡ (ok tt, s') → st.object_at key s' ≡ none
  pub delete-others :
      (key : String) (s : S) (j : String)
      → (j == key) ≡ false
      → st.object_at j (st.delete key s).1 ≡ st.object_at j s
