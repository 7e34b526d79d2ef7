-- ===== src/Mysql/Simulation.antt =====
-- What it means that a method of the adapter for MySQL does what that of PostgreSQL promises.
use golang_backend.Base.{ℕ, suc, String, ◌≡◌, refl, Option, none, arith, ◌∙◌}
use golang_backend.Fault.{Error}
use golang_backend.Fault
use golang_backend.Database.Tables.{Db}
use golang_backend.Database.Laws.{bind-ok}
use golang_backend.Database.Action.{
  Result, ok, err, Run, World, M, draw, statement, query_row, row_of, lift_db, continue, query,
  exec, ◌>>=◌, ◌>>◌,
}

-- no condition
abbrev pub Always : Run → World → Type 0
Always run w = Unit {0}

-- a run whose calls of the database do not fail for reasons of their own
abbrev pub calm : Run → Run
calm run = record run { faults = λ n. none }

module _ {A : Type 0} where
  -- one outcome of two statements: the same value and tables, or errors that `fault.DB` makes the same
  abbrev pub SameRows : Result (A × Db) → Result (A × Db) → Type 0
  SameRows (ok (a, d)) (ok (b, e)) = (a ≡ b) × (d ≡ e)
  SameRows (ok x) (err e) = ⊥
  SameRows (err e) (ok x) = ⊥
  SameRows (err e) (err f) = Fault.db e ≡ Fault.db f

  -- the same of two actions; the calls are not counted
  abbrev pub Same : Result A × World → Result A × World → Type 0
  Same (ok a, w) (ok b, v) = (a ≡ b) × (w.db ≡ v.db) × (w.drawn ≡ v.drawn)
  Same (ok a, w) (err e, v) = ⊥
  Same (err e, w) (ok a, v) = ⊥
  Same (err e, w) (err f, v) = Fault.db e ≡ Fault.db f

  -- At runs and tables that meet a condition, the first does what the second does where no call fails of
  -- itself; and where it succeeds in spite of such failures, it does what it does without them.
  abbrev pub Implements : (Run → World → Type 0) → (Run → M A) → (Run → M A) → Type 0
  Implements Pre m p =
      (run : Run) (w : World)
      → Pre run w
      → Same (m (calm run) w) (p (calm run) w)
        × ((a : A) (w' : World) → m run w ≡ (ok a, w') → m (calm run) w ≡ (ok a, w'))

  pub Same-refl : (x : Result A × World) → Same x x
  Same-refl (ok a, w) = (refl, refl, refl)
  Same-refl (err e, w) = refl

  lift_db-Same :
      (r s : Result (A × Db)) (w v : World)
      → w.drawn ≡ v.drawn
      → SameRows r s
      → Same (lift_db r w) (lift_db s v)
  lift_db-Same (ok (a, d)) (ok (b, e)) w v same h = (h.0, h.1, same)
  lift_db-Same (ok x) (err e) w v same h = absurd h
  lift_db-Same (err e) (ok x) w v same h = absurd h
  lift_db-Same (err e) (err f) w v same h = h

  pub statement-calm :
      (run : Run) (f : Db → Result (A × Db)) (w : World) (a : A) (w' : World)
      → statement run f w ≡ (ok a, w')
      → statement (calm run) f w ≡ (ok a, w')
  unfolding statement
  statement-calm run f w a w' h = ground arith

  -- a statement that is the same in both
  pub statement_agrees :
      (run : Run) (f : Db → Result (A × Db)) (w : World)
      → Same (statement (calm run) f w) (statement (calm run) f w)
        × ((a : A) (w' : World)
            → statement run f w ≡ (ok a, w')
            → statement (calm run) f w ≡ (ok a, w'))
  statement_agrees run f w = (Same-refl (statement (calm run) f w), statement-calm run f w)

  pub row_agrees :
      (run : Run) (f : Db → Option A) (w : World)
      → Same (query_row (calm run) f w) (query_row (calm run) f w)
        × ((a : A) (w' : World)
            → query_row run f w ≡ (ok a, w')
            → query_row (calm run) f w ≡ (ok a, w'))
  unfolding query_row
  row_agrees run f w = statement_agrees run (λ d. row_of (f d) d) w

  pub rows_agree :
      (run : Run) (f : Db → A) (w : World)
      → Same (query (calm run) f w) (query (calm run) f w)
        × ((a : A) (w' : World) → query run f w ≡ (ok a, w') → query (calm run) f w ≡ (ok a, w'))
  unfolding query
  rows_agree run f w = statement_agrees run (λ d. ok (f d, d)) w

  -- one statement for one
  pub statement-Implements :
      (Pre : Run → World → Type 0) (f g : ℕ → Db → Result (A × Db))
      → ((run : Run) (w : World) → Pre run w → SameRows (f run.now w.db) (g run.now w.db))
      → Implements Pre (λ run. statement run (f run.now)) (λ run. statement run (g run.now))
  unfolding statement
  statement-Implements Pre f g same run w pre = (
    lift_db-Same (f run.now w.db) (g run.now w.db) _ _ refl (same run w pre),
    statement-calm run (f run.now) w,
  )

  -- a statement whose row has an id that is drawn
  pub drawn-Implements :
      (Pre : Run → World → Type 0) (f g : ℕ → String → Db → Result (A × Db))
      → ((run : Run) (w : World)
          → Pre run w
          → SameRows (f run.now (run.fresh w.drawn) w.db) (g run.now (run.fresh w.drawn) w.db))
      → Implements Pre
          (λ run. draw run >>= λ id. statement run (f run.now id))
          (λ run. draw run >>= λ id. statement run (g run.now id))
  unfolding statement draw ◌>>=◌
  drawn-Implements Pre f g same run w pre =
      let id = run.fresh w.drawn in
      (
        lift_db-Same (f run.now id w.db) (g run.now id w.db) _ _ refl (same run w pre),
        statement-calm run (f run.now id) (record w { drawn = suc w.drawn }),
      )

  -- an INSERT or UPDATE, and the SELECT that the adapter sends after it
  abbrev pub then_find : (Db → Option A) → Result (Unit {0} × Db) → Result (A × Db)
  then_find find (ok (u, d)) = row_of (find d) d
  then_find find (err e) = err e

  row_of-Same :
      (r : Result (Unit {0} × Db)) (find : Db → Option A) (s : Result (A × Db)) (run : Run)
      (w v : World)
      → w.drawn ≡ v.drawn
      → SameRows (then_find find r) s
      → Same
          (continue (lift_db r w).0 (λ _. query_row (calm run) find) (lift_db r w).1)
          (lift_db s v)
  unfolding query_row statement
  row_of-Same (ok (u, d)) find s run w v same h = lift_db-Same (row_of (find d) d) s _ v same h
  row_of-Same (err e) find (ok x) run w v same h = absurd h
  row_of-Same (err e) find (err f) run w v same h = h

  query_row-calm :
      (run : Run) (find : Db → Option A) (w : World) (a : A) (w' : World)
      → query_row run find w ≡ (ok a, w')
      → query_row (calm run) find w ≡ (ok a, w')
  unfolding query_row
  query_row-calm run find w a w' h = statement-calm run (λ d. row_of (find d) d) w a w' h

pub change_agrees :
    (run : Run) (f : Db → Db) (w : World)
    → Same (exec (calm run) f w) (exec (calm run) f w)
      × ((a : Unit {0}) (w' : World) → exec run f w ≡ (ok a, w') → exec (calm run) f w ≡ (ok a, w'))
unfolding exec
change_agrees run f w = statement_agrees run (λ d. ok (tt, f d)) w

continue_at :
    {A B : Type 0} (x : Result A × World) (f : A → M B) (a : A) (w : World)
    → x ≡ (ok a, w)
    → continue x.0 f x.1 ≡ f a w
continue_at (ok b, v) f a w h = ground arith
continue_at (err e, v) f a w h = absurd (cc h)

>>-calm :
    {A : Type 0} (m n : M (Unit {0})) (f g : M A) (w : World) (a : A) (w' : World)
    → ((w1 : World) → m w ≡ (ok tt, w1) → n w ≡ (ok tt, w1))
    → ((w1 : World) → f w1 ≡ (ok a, w') → g w1 ≡ (ok a, w'))
    → (m >> f) w ≡ (ok a, w')
    → (n >> g) w ≡ (ok a, w')
unfolding ◌>>=◌
>>-calm m n f g w a w' first second h =
    bind-ok m (λ _. f) w h
      λ _ w1 one two. continue_at (n w) (λ _. g) tt w1 (first w1 one) ∙ second w1 two

module _ {A : Type 0} (Pre : Run → World → Type 0) where
  -- a change, and the row that is read back
  pub found-Implements :
      (f : ℕ → Db → Result (Unit {0} × Db)) (find : Db → Option A) (g : ℕ → Db → Result (A × Db))
      → ((run : Run) (w : World)
          → Pre run w
          → SameRows (then_find find (f run.now w.db)) (g run.now w.db))
      → Implements Pre
          (λ run. statement run (f run.now) >> query_row run find)
          (λ run. statement run (g run.now))
  unfolding statement ◌>>=◌
  found-Implements f find g same run w pre = (
    row_of-Same (f run.now w.db) find (g run.now w.db) run _ _ refl (same run w pre),
    λ a w'.
        >>-calm (statement run (f run.now)) (statement (calm run) (f run.now)) (query_row run find)
          (query_row (calm run) find) w a w' (statement-calm run (f run.now) w tt)
          (λ w1. query_row-calm run find w1 a w'),
  )

  -- an INSERT with an id of the adapter's, and the row that is read back
  pub inserted-Implements :
      (f : ℕ → String → Db → Result (Unit {0} × Db)) (find : String → Db → Option A)
      (g : ℕ → String → Db → Result (A × Db))
      → ((run : Run) (w : World)
          → Pre run w
          → (let id = run.fresh w.drawn in
              SameRows (then_find (find id) (f run.now id w.db)) (g run.now id w.db)))
      → Implements Pre
          (λ run. draw run >>= λ id. statement run (f run.now id) >> query_row run (find id))
          (λ run. draw run >>= λ id. statement run (g run.now id))
  unfolding draw ◌>>=◌ query_row
  inserted-Implements f find g same run w pre =
      let id = run.fresh w.drawn in
      let v : World = record w { drawn = suc w.drawn } in
      (
        row_of-Same (f run.now id w.db) (find id) (g run.now id w.db) run _ _ refl (same run w pre),
        λ a w'.
            >>-calm (statement run (f run.now id)) (statement (calm run) (f run.now id))
              (query_row run (find id)) (query_row (calm run) (find id)) v a w'
              (statement-calm run (f run.now id) v tt) (λ w1. query_row-calm run (find id) w1 a w'),
      )
