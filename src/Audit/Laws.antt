-- ===== src/Audit/Laws.antt =====
-- What `Mutate` of internal/audit/audit.go guarantees to every service that changes the tables.
use golang_backend.Base.{
  String, ◌≡◌, refl, sym, ◌∙◌, ap, subst, Option, List, ◌∷◌, ◌⊎◌, inl, inr, arith,
}
use golang_backend.Fault.{Error}
use golang_backend.Fault.Laws.{IsFault, db-IsFault}
use golang_backend.Database.Tables.{Db, ActivityLog}
use golang_backend.Database.Action.{
  Result, ok, err, Run, World, M, pure, wrap, attempt, ◌>>=◌, transaction, continue, db_result,
  draw, statement, ◌>>◌,
}
use golang_backend.Database.Laws.{
  ok_ne_err, result_of, bind-ok, pure-ok, wrap-ok, transaction-ok, transaction_failed,
}
use golang_backend.Database.Logs.{InsertAuditParams, insert_audit, log_row}
use golang_backend.Audit.Writer.{
  Mode, required, optional, never, Actor, Policy, Change, audit_params, write, write, write_mode,
  write_required, write_optional, recorded, mutate,
}

module _ (run : Run) where
  -- one row more in `activity_logs`, and nothing else
  abbrev pub Logged : InsertAuditParams → Db → Db → Type 0
  Logged a before after =
      (id : String) × (after ≡ record before { logs = log_row run.now a id ∷ before.logs })

  -- what a record in the mode does to the tables
  abbrev pub Recorded : Mode → InsertAuditParams → Db → Db → Type 0
  Recorded required a before after = Logged a before after
  Recorded optional a before after = (after ≡ before) ⊎ Logged a before after
  Recorded never a before after = after ≡ before

  -- What does not look at the log holds beside a record too.
  Recorded-keeps {ℓ} :
      (P : Db → Type ℓ)
      → ((d : Db) (rows : List ActivityLog) → P d → P (record d { logs = rows }))
      → (mode : Mode) (a : InsertAuditParams) (d d' : Db) → Recorded mode a d d'
      → P d
      → P d'
  Recorded-keeps P blind required a d d' (id, e) p = subst P (sym e) (blind d _ p)
  Recorded-keeps P blind optional a d d' (inl e) p = subst P (sym e) p
  Recorded-keeps P blind optional a d d' (inr (id, e)) p = subst P (sym e) (blind d _ p)
  Recorded-keeps P blind never a d d' e p = subst P (sym e) p

  pub insert_audit-Logged :
      (a : InsertAuditParams) (w : World) {w' : World}
      → insert_audit run a w ≡ (ok tt, w')
      → Logged a w.db w'.db
  unfolding insert_audit draw statement ◌>>=◌
  insert_audit-Logged a w h = (run.fresh w.drawn, ground arith)

  pub write_optional_total :
      (mode : Mode) (m : M (Unit {0})) (w : World) → (write_optional run mode m w).0 ≡ ok tt
  unfolding write_optional attempt pure ◌>>=◌
  write_optional_total required m w = refl
  write_optional_total optional m w = ground arith
  write_optional_total never m w = refl

  pub insert_audit_cases :
      (a : InsertAuditParams) (w : World)
      → ((insert_audit run a w).1.db ≡ w.db)
        ⊎ ((insert_audit run a w).1.db
            ≡ record w.db { logs = log_row run.now a (run.fresh w.drawn) ∷ w.db.logs })
  unfolding insert_audit draw statement ◌>>=◌
  insert_audit_cases a w = ground arith

  attempted :
      (a : InsertAuditParams) (w : World) {w' : World}
      → write_optional run optional (insert_audit run a) w ≡ (ok tt, w')
      → w'.db ≡ (insert_audit run a w).1.db
  unfolding write_optional attempt pure ◌>>=◌
  attempted a w h = ground arith

  -- the writes of one `Mutate`, before and after its COMMIT
  writes-Recorded :
      (mode : Mode) (a : InsertAuditParams) (u v w : World) {w' : World}
      → write_required run mode (write_mode run mode a) u ≡ (ok tt, v)
      → v.db ≡ w.db
      → write_optional run mode (write_mode run mode a) w ≡ (ok tt, w')
      → Recorded mode a u.db w'.db
  unfolding write_required write_optional write_mode pure
  writes-Recorded required a u v w h e k =
      let (id, logged) = insert_audit-Logged a u h in (id, ground arith)
  writes-Recorded optional a u v w h e k = elim (insert_audit_cases a w) [
    | inl same ↦ inl (ground (arith, attempted a w k))
    | inr logged ↦ inr (run.fresh w.drawn, ground (arith, attempted a w k))
  ]
  writes-Recorded never a u v w h e k = ground arith

  module _ {T : Type 0} (p : Policy) (actor : Option Actor) (behavior : String) where
    -- the part of `Mutate` behind the transaction
    abbrev finish : T × Change → M T
    finish done = do write_optional run p.mode (write run p actor behavior done.1); pure done.0

    finish_total : (done : T × Change) (w : World) → (finish done w).0 ≡ ok done.0
    unfolding ◌>>=◌ pure
    finish_total done w =
        ground (arith, write_optional_total p.mode (write run p actor behavior done.1) w)

    failed_before_finish :
        (x : Result (T × Change) × World) (before : Db)
        → ((e : Error) → x.0 ≡ err e → x.1.db ≡ before)
        → {e : Error} {w' : World} → continue (db_result x.0) finish x.1 ≡ (err e, w')
        → (w'.db ≡ before) × IsFault e
    failed_before_finish (ok done, w) before back h =
        absurd (ok_ne_err _ _ (sym (finish_total done w) ∙ result_of h))
    failed_before_finish (err e0, w) before back h = ground (arith, back e0 refl, db-IsFault e0)

    -- A change that fails, in its own body, in its required record or at COMMIT, leaves the tables as
    -- they were, and its error is one of the program's own.
    pub mutate_failed :
        (fn : M (T × Change)) (w : World) {e : Error} {w' : World}
        → mutate run p actor behavior fn w ≡ (err e, w')
        → (w'.db ≡ w.db) × IsFault e
    unfolding mutate wrap ◌>>=◌
    mutate_failed fn w h =
        let body : M (T × Change) = recorded run p actor behavior fn in
        failed_before_finish (transaction run body w) w.db (transaction_failed run body w) h

    -- A change that succeeds has run its body once, on the tables as they were, and all that is added to
    -- what the body did is its record: exactly one row for a required one, at most one for an
    -- optional one, none where there is to be none.
    pub mutate-ok :
        (fn : M (T × Change)) (w : World) {a : T} {w' : World}
        → mutate run p actor behavior fn w ≡ (ok a, w')
        → (v u : World) × (c : Change) × (v.db ≡ w.db)
          × (fn v ≡ (ok (a, c), u))
          × Recorded p.mode (audit_params p actor behavior c) u.db w'.db
    unfolding mutate write
    mutate-ok fn w h = bind-ok _ _ w h λ done w1 committed rest.
        transaction-ok run _ w (wrap-ok _ w committed) λ v w2 before body after.
          bind-ok _ _ v body λ done' u ran rest'. bind-ok _ _ u rest' λ _ w3 wrote rest''.
            bind-ok _ _ w1 rest λ _ w4 wrote' rest4.
              let (same, end) = pure-ok _ _ rest'' in
              let (value, end') = pure-ok _ _ rest4 in
              (
                v,
                u,
                done'.1,
                before,
                ground arith,
                rw (← end') (
                    writes-Recorded p.mode _ u w3 w1 {w' = w4} wrote (ap World.db end ∙ after)
                      (rw same wrote')),
              )

    -- A change that succeeds relates the tables before and after it, and its value, as its body does.
    pub mutate_value {ℓ} :
        (fn : M (T × Change)) (R : T → Db → Db → Type ℓ)
        → ((a : T) (d d' : Db) (rows : List ActivityLog)
            → R a d d'
            → R a d (record d' { logs = rows }))
        → ((v u : World) (done : T × Change) → fn v ≡ (ok done, u) → R done.0 v.db u.db)
        → (w : World) {a : T} {w' : World} → mutate run p actor behavior fn w ≡ (ok a, w')
        → R a w.db w'.db
    mutate_value fn R blind relates w {a} {w'} h =
        let (v, u, c, before, ran, recorded) = mutate-ok fn w h in
        subst (λ d. R a d w'.db) before
          (Recorded-keeps (R a v.db) (blind a v.db) p.mode _ u.db w'.db recorded
            (relates v u _ ran))

    -- A change that succeeds relates the tables before and after it as its body does.
    pub mutate-relates {ℓ} :
        (R : Db → Db → Type ℓ) (fn : M (T × Change))
        → ((d d' : Db) (rows : List ActivityLog) → R d d' → R d (record d' { logs = rows }))
        → ((v u : World) (done : T × Change) → fn v ≡ (ok done, u) → R v.db u.db)
        → (w : World) {a : T} {w' : World} → mutate run p actor behavior fn w ≡ (ok a, w')
        → R w.db w'.db
    mutate-relates R fn blind relates w {w'} h =
        let (v, u, c, before, ran, recorded) = mutate-ok fn w h in
        subst (λ d. R d w'.db) before
          (Recorded-keeps (R v.db) (blind v.db) p.mode _ u.db w'.db recorded (relates v u _ ran))
