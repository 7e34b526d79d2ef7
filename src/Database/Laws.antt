-- ===== src/Database/Laws.antt =====
-- How an action that succeeded came to succeed, one lemma for each way to build an action.
use golang_backend.Base.{
  suc, ◌≡◌, refl, sym, Bool, true, false, Option, none, arith, ap, if◌then◌else◌,
}
use golang_backend.Fault.{Error}
use golang_backend.Database.Tables.{Db}
use golang_backend.Database.Action.{
  Result, ok, err, continue, db_result, Run, World, M, pure, raise, wrap, attempt, ◌>>=◌, check,
  statement, transaction,
}

pub ok_ne_err {ℓ} : {A : Type ℓ} (a : A) (e : Error) → ok a ≡ err e → ⊥
ok_ne_err a e h = cc

-- the result of an action that is known to be a pair
pub result_of :
    {A : Type 0} {x : Result A × World} {r : Result A} {w : World} → x ≡ (r, w) → x.0 ≡ r
result_of h = ap (λ (y : Result _ × World). y.0) h

module _ {A : Type 0} where
  -- an outcome that is no success is an error
  pub failed_if :
      (x : Result A × World) → ((a : A) → x ≡ (ok a, x.1) → ⊥) → (e : Error) × (x.0 ≡ err e)
  failed_if (ok a, w) never = absurd (never a refl)
  failed_if (err e, w) never = (e, refl)

  pub raise_ne_ok : (e : Error) (w : World) {w' : World} {a : A} → raise e w ≡ (ok a, w') → ⊥
  unfolding raise
  raise_ne_ok e w h = cc (ap (λ (x : Result A × World). x.0) h)

  pub pure-ok :
      (a : A) (w : World) {b : A} {w' : World} → pure a w ≡ (ok b, w') → (a ≡ b) × (w ≡ w')
  unfolding pure
  pure-ok a w h = ground arith

  pub wrap-ok :
      (m : M A) (w : World) {w' : World} {a : A} → wrap m w ≡ (ok a, w') → m w ≡ (ok a, w')
  unfolding wrap
  wrap-ok m w h = ground arith

  db_result-err {ℓ} :
      {P : Type ℓ} (x : Result A × World) {e : Error} {w' : World}
      → ◌≡◌ {A = Result A × World} (db_result x.0, x.1) (err e, w')
      → ((cause : Error) → x ≡ (err cause, w') → P)
      → P
  db_result-err (ok a, w) h k = absurd (ok_ne_err _ _ (result_of h))
  db_result-err (err c, w) h k = k c (ground arith)

  pub wrap-err {ℓ} :
      {P : Type ℓ} (m : M A) (w : World) {e : Error} {w' : World}
      → wrap m w ≡ (err e, w')
      → ((cause : Error) → m w ≡ (err cause, w') → P)
      → P
  unfolding wrap
  wrap-err m w h k = db_result-err (m w) h k

  pub pure_ne_err : (a : A) (w : World) {w' : World} {e : Error} → pure a w ≡ (err e, w') → ⊥
  unfolding pure
  pure_ne_err a w h = ok_ne_err _ _ (result_of h)

  pub attempt-ok :
      (m : M A) (w : World) {w' : World} {r : Result A} → attempt m w ≡ (ok r, w') → m w ≡ (r, w')
  unfolding attempt
  attempt-ok m w h = ground arith

module _ {A B : Type 0} where
  -- What follows an action that succeeded is proved of any value and tables that it may have left.
  continue-ok {ℓ} :
      {P : Type ℓ} (x : Result A × World) (f : A → M B) {b : B} {w'' : World}
      → continue x.0 f x.1 ≡ (ok b, w'')
      → ((a : A) (w' : World) → x ≡ (ok a, w') → f a w' ≡ (ok b, w'') → P)
      → P
  continue-ok (ok a, w) f h k = k a w refl h
  continue-ok (err e, w) f h k = absurd (ok_ne_err _ _ (sym (result_of h)))

  pub bind-ok {ℓ} :
      {P : Type ℓ} (m : M A) (f : A → M B) (w : World) {b : B} {w'' : World}
      → (m >>= f) w ≡ (ok b, w'')
      → ((a : A) (w' : World) → m w ≡ (ok a, w') → f a w' ≡ (ok b, w'') → P)
      → P
  unfolding ◌>>=◌
  bind-ok m f w h k = continue-ok (m w) f h k

  continue-err {ℓ} :
      {P : Type ℓ} (x : Result A × World) (f : A → M B) {e : Error} {w'' : World}
      → continue x.0 f x.1 ≡ (err e, w'')
      → (x ≡ (err e, w'') → P)
      → ((a : A) (w' : World) → x ≡ (ok a, w') → f a w' ≡ (err e, w'') → P)
      → P
  continue-err (ok a, w) f h failed k = k a w refl h
  continue-err (err e, w) f h failed k = failed (ground arith)

  -- a chain that failed, in its first action or behind it
  pub bind-err {ℓ} :
      {P : Type ℓ} (m : M A) (f : A → M B) (w : World) {e : Error} {w'' : World}
      → (m >>= f) w ≡ (err e, w'')
      → (m w ≡ (err e, w'') → P)
      → ((a : A) (w' : World) → m w ≡ (ok a, w') → f a w' ≡ (err e, w'') → P)
      → P
  unfolding ◌>>=◌
  bind-err m f w h failed k = continue-err (m w) f h failed k

-- a branch on a test
pub if-ok {ℓ} :
    {A : Type 0} {P : Type ℓ} (b : Bool) (m n : M A) (w : World) {r : Result A × World}
    → (if b then m else n) w ≡ r
    → (b ≡ true → m w ≡ r → P)
    → (b ≡ false → n w ≡ r → P)
    → P
if-ok true m n w h k l = k refl h
if-ok false m n w h k l = l refl h

pub check-ok :
    (e : Option Error) (w : World) {w' : World} → check e w ≡ (ok tt, w') → (e ≡ none) × (w ≡ w')
unfolding check
check-ok e w h = ground arith

module _ (run : Run) {A : Type 0} where
  pub statement-ok :
      (f : Db → Result (A × Db)) (w : World) {a : A} {w' : World}
      → statement run f w ≡ (ok a, w')
      → f w.db ≡ ok (a, w'.db)
  unfolding statement
  statement-ok f w h = ground arith

  pub transaction-ok {ℓ} :
      {P : Type ℓ} (body : M A) (w : World) {a : A} {w' : World}
      → transaction run body w ≡ (ok a, w')
      → ((v u : World) → v.db ≡ w.db → body v ≡ (ok a, u) → u.db ≡ w'.db → P)
      → P
  unfolding transaction
  transaction-ok body w h k =
      let v : World = record w { calls = suc w.calls } in
      k v (body v).1 refl (ground arith) (ground arith)

  -- A transaction that fails leaves no trace in the tables.
  pub transaction_failed :
      (body : M A) (w : World) (e : Error)
      → (transaction run body w).0 ≡ err e
      → (transaction run body w).1.db ≡ w.db
  unfolding transaction
  transaction_failed body w e h = ground arith
