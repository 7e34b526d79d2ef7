-- ===== src/Database/Action.antt =====
-- The services' monad: a Go function that returns `(T, error)` and calls the database.
-- internal/db/connection.go: `Transaction`, `Queries`.
use golang_backend.Base.{ℕ, suc, String, Option, none, some, List, [], ◌∷◌}
use golang_backend.Fault.{Error, no_rows}
use golang_backend.Fault
use golang_backend.Database.Tables.{Db}

-- `(T, error)`
pub data Result {ℓ} (A : Type ℓ) : Type ℓ where
  ok : A → Result A
  err : Error → Result A

-- What one run of an operation is given from outside: the instant at which it runs, which of its
-- calls of the database fail and how, by their number, and the random texts that it draws
-- (`uuid.NewString`, `gen_random_uuid()`, `rand.Read`).
pub record Run : Type 0 where
  pub now : ℕ
  pub faults : ℕ → Option Error
  pub fresh : ℕ → String

pub record World : Type 0 where
  pub db : Db
  pub calls : ℕ
  pub drawn : ℕ

abbrev pub M : Type 0 → Type 0
M A = World → Result A × World

module _ {A : Type 0} where
  unfoldable pub pure : A → M A
  pure a w = (ok a, w)

  unfoldable pub raise : Error → M A
  raise e w = (err e, w)

  abbrev pub db_result : Result A → Result A
  db_result (ok a) = ok a
  db_result (err e) = err (Fault.db e)

  -- `fault.DB(err)` on the error of a call
  unfoldable pub wrap : M A → M A
  wrap m w = let (r, w') = m w in (db_result r, w')

  -- a call whose error the caller looks at
  unfoldable pub attempt : M A → M (Result A)
  attempt m w = let (r, w') = m w in (ok r, w')

module _ {A B : Type 0} where
  abbrev pub continue : Result A → (A → M B) → M B
  continue (ok a) f w = f a w
  continue (err e) f w = (err e, w)

  infixl 5 ◌>>=◌
  unfoldable pub ◌>>=◌ : M A → (A → M B) → M B
  ◌>>=◌ m f w = let (r, w') = m w in continue r f w'

infixl 5 ◌>>◌
abbrev pub ◌>>◌ : {B : Type 0} → M (Unit {0}) → M B → M B
m >> k = m >>= λ _. k

-- `if err != nil { return err }`
unfoldable pub check : Option Error → M (Unit {0})
check none w = (ok tt, w)
check (some e) w = (err e, w)

-- `for _, x := range xs { if err := f(x); err != nil { return err } }`
unfoldable pub for_each {ℓ} : {A : Type ℓ} → List A → (A → M (Unit {0})) → M (Unit {0})
for_each [] f = pure tt
for_each (x ∷ xs) f = f x >>= λ _. for_each xs f

-- a row that a statement returns, with the tables behind it
abbrev pub row_of : {A : Type 0} → Option A → Db → Result (A × Db)
row_of none d = err no_rows
row_of (some a) d = ok (a, d)

-- the outcomes of one statement on the tables
abbrev pub lift_db : {A : Type 0} → Result (A × Db) → World → Result A × World
lift_db (ok (a, d)) w = (ok a, record w { db = d })
lift_db (err e) w = (err e, w)

module _ (run : Run) where
  -- a text that nothing has drawn before
  unfoldable pub draw : M String
  draw w = (ok (run.fresh w.drawn), record w { drawn = suc w.drawn })

  module _ {A : Type 0} where
    -- One statement. It fails without effect where the environment says so, or by a constraint.
    unfoldable pub statement : (Db → Result (A × Db)) → M A
    statement f w = elim (run.faults w.calls) [
      | none ↦ lift_db (f w.db) (record w { calls = suc w.calls })
      | some e ↦ (err e, record w { calls = suc w.calls })
    ]

    -- a SELECT, `:many`
    unfoldable pub query : (Db → A) → M A
    unfolding statement
    query f = statement (λ d. ok (f d, d))

    -- a SELECT, `:one`
    unfoldable pub query_row : (Db → Option A) → M A
    unfolding statement
    query_row f = statement (λ d. row_of (f d) d)

    abbrev settle : Db → Result A × World → Result A × World
    settle before (err e, w) = (err e, record w { db = before })
    settle before (ok a, w) = elim (run.faults w.calls) [
      | none ↦ (ok a, record w { calls = suc w.calls })
      | some e ↦ (err e, record w { db = before; calls = suc w.calls })
    ]

    abbrev in_transaction : M A → World → Result A × World
    in_transaction body w = settle w.db (body w)

    -- `Connection.Transaction`: BEGIN, the body, and COMMIT, or ROLLBACK where the body or the COMMIT
    -- fails. BEGIN and COMMIT are calls that may fail too.
    unfoldable pub transaction : M A → M A
    transaction body w = elim (run.faults w.calls) [
      | none ↦ in_transaction body (record w { calls = suc w.calls })
      | some e ↦ (err e, record w { calls = suc w.calls })
    ]

  -- an INSERT, UPDATE or DELETE that no constraint stops
  unfoldable pub exec : (Db → Db) → M (Unit {0})
  unfolding statement
  exec f = statement (λ d. ok (tt, f d))
