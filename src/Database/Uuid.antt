-- ===== src/Database/Uuid.antt =====
-- internal/db/migrations: a column of PostgreSQL's type `uuid`, beside which a text argument is read as a
-- uuid; and internal/db/sqlc, whose statements fail with 22P02 where it is none.
use golang_backend.Base.{◌≡◌, Option, none, some, String, arith}
use golang_backend.Fault.{pg}
use golang_backend.Library.{Library}
use golang_backend.Database.Action.{ok, err, Run, World, M, pure, statement, wrap}
use golang_backend.Database.Laws.{wrap-ok}

module _ {A : Type 0} (run : Run) where
  -- a statement beside what its text is read as
  unfoldable pub with_key : (String → M A) → Option String → M A
  with_key m (some key) = m key
  with_key m none = statement run (λ d. err (pg "22P02"))

module _ (lib : Library) (run : Run) where
  abbrev pub by_uuid : {A : Type 0} → (String → M A) → String → M A
  by_uuid m id = with_key run m (lib.read_uuid id)

  with_key-ok :
      (o : Option String) (w : World) {key : String} {w' : World}
      → with_key run pure o w ≡ (ok key, w')
      → (o ≡ some key) × (w'.db ≡ w.db)
  unfolding with_key pure statement
  with_key-ok none w h = absurd (ground arith)
  with_key-ok (some k) w h = (ground arith, ground arith)

  pub wrapped_uuid-ok :
      (id : String) (w : World) {key : String} {w' : World}
      → wrap (by_uuid pure id) w ≡ (ok key, w')
      → (lib.read_uuid id ≡ some key) × (w'.db ≡ w.db)
  wrapped_uuid-ok id w h = with_key-ok (lib.read_uuid id) w (wrap-ok _ w h)

  -- the same of an argument that may be NULL
  abbrev pub by_some_uuid : {A : Type 0} → (Option String → M A) → Option String → M A
  by_some_uuid m none = m none
  by_some_uuid m (some id) = by_uuid (λ key. m (some key)) id
