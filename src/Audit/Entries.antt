-- ===== src/Audit/Entries.antt =====
-- internal/audit/audit.go, `Write`: whatever its mode and its outcome, it touches the log alone.
use golang_backend.Base.{String, ◌≡◌, refl, sym, ◌∙◌, ap, Option, List, inl, inr, arith}
use golang_backend.Database.Tables.{Db, ActivityLog}
use golang_backend.Database.Action.{ok, Run, World, M, pure, attempt, ◌>>=◌}
use golang_backend.Database.Laws.{pure-ok}
use golang_backend.Database.Logs.{InsertAuditParams, insert_audit}
use golang_backend.Audit.Writer.{
  Mode, required, optional, never, Actor, Policy, Change, audit_params, write, write_mode,
  write_required, write_optional,
}
use golang_backend.Audit.Laws.{insert_audit-Logged, insert_audit_cases}

abbrev pub OnlyLogs : Db → Db → Type 0
OnlyLogs d d' = (rows : List ActivityLog) × (d' ≡ record d { logs = rows })

pub OnlyLogs-trans : (d d' d'' : Db) → OnlyLogs d d' → OnlyLogs d' d'' → OnlyLogs d d''
OnlyLogs-trans d d' d'' (rows, e) (rows', e') = (rows', ground arith)

pub OnlyLogs-same : (d d' : Db) → d' ≡ d → OnlyLogs d d'
OnlyLogs-same d d' e = (d.logs, ground arith)

-- what does not look at the log holds beside any log
pub OnlyLogs-keeps {ℓ} :
    (P : Db → Type ℓ)
    → ((d : Db) (rows : List ActivityLog) → P d → P (record d { logs = rows }))
    → (d d' : Db) → OnlyLogs d d'
    → P d
    → P d'
OnlyLogs-keeps P blind d d' (rows, e) p = rw e (blind d rows p)

module _ (run : Run) where
  pub write_required-OnlyLogs :
      (mode : Mode) (a : InsertAuditParams) (w : World) {w' : World}
      → write_required run mode (write_mode run mode a) w ≡ (ok tt, w')
      → OnlyLogs w.db w'.db
  unfolding write_required write_mode
  write_required-OnlyLogs required a w {w'} h =
      let (id, e) = insert_audit-Logged run a w h in (w'.db.logs, ground arith)
  write_required-OnlyLogs optional a w h = OnlyLogs-same _ _ (ap World.db (sym (pure-ok tt w h).1))
  write_required-OnlyLogs never a w h = OnlyLogs-same _ _ (ap World.db (sym (pure-ok tt w h).1))

  attempted : (m : M (Unit {0})) (w : World) → ((attempt m >>= λ _. pure tt) w).1.db ≡ (m w).1.db
  unfolding attempt pure ◌>>=◌
  attempted m w = refl

  optional_end :
      (m : M (Unit {0})) (w : World) → (write_optional run optional m w).1.db ≡ (m w).1.db
  unfolding write_optional
  optional_end m w = attempted m w

  write_optional-OnlyLogs :
      (mode : Mode) (a : InsertAuditParams) (w : World)
      → OnlyLogs w.db (write_optional run mode (write_mode run mode a) w).1.db
  unfolding write_optional write_mode pure
  write_optional-OnlyLogs required a w = OnlyLogs-same _ _ refl
  write_optional-OnlyLogs never a w = OnlyLogs-same _ _ refl
  write_optional-OnlyLogs optional a w = elim (insert_audit_cases run a w) [
    | inl same ↦ OnlyLogs-same _ _ (attempted (insert_audit run a) w ∙ same)
    | inr logged ↦ (_, attempted (insert_audit run a) w ∙ logged)
  ]

  -- `Write` behind a transaction, of any policy
  pub optional_write-OnlyLogs :
      (p : Policy) (actor : Option Actor) (behavior : String) (c : Change) (w : World)
      → OnlyLogs w.db (write_optional run p.mode (write run p actor behavior c) w).1.db
  unfolding write
  optional_write-OnlyLogs p actor behavior c w =
      write_optional-OnlyLogs p.mode (audit_params p actor behavior c) w

  -- `Write` inside a transaction, of any policy
  pub required_write-OnlyLogs :
      (p : Policy) (actor : Option Actor) (behavior : String) (c : Change) (w : World) {w' : World}
      → write_required run p.mode (write run p actor behavior c) w ≡ (ok tt, w')
      → OnlyLogs w.db w'.db
  unfolding write
  required_write-OnlyLogs p actor behavior c w h =
      write_required-OnlyLogs p.mode (audit_params p actor behavior c) w h
