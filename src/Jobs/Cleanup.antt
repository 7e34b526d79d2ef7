-- ===== src/Jobs/Cleanup.antt =====
-- internal/jobs/cleanup.go: `Cleanup`. The counts that it prints and hands to the metrics are its answer.
use golang_backend.Base.{ℕ, ◌-◌, ◌*◌, String, Bool, true, false, List, [], length, if◌then◌else◌}
use golang_backend.Database.Action.{Run, M, pure, ◌>>=◌, ◌>>◌, for_each, transaction}
use golang_backend.Database.Outbox.{
  cleanup_families, cleanup_email, cleanup_audit, delete_family, delete_email, delete_audit,
}

-- the fields of `config.Operations` that a cleanup reads
pub record Retention : Type 0 where
  pub session_days : ℕ
  pub outbox_days : ℕ
  pub audit_days : ℕ
  pub audit_enabled : Bool
  pub batch_size : ℕ

pub record Counts : Type 0 where
  pub family_count : ℕ
  pub email_count : ℕ
  pub log_count : ℕ

-- `now.Add(-days * 24 * time.Hour)`; an instant before the epoch, like the epoch, lies before all rows
abbrev pub cutoff : ℕ → ℕ → ℕ
cutoff now days = now - days * 86400000

module _ (c : Retention) (run : Run) where
  unfoldable pub find_logs : M (List String)
  find_logs =
      if c.audit_enabled
      then cleanup_audit run (cutoff run.now c.audit_days) c.batch_size
      else pure []

  unfoldable pub delete_found : List String → List String → List String → M (Unit {0})
  delete_found families emails logs = do
    for_each families (delete_family run)
    for_each emails (delete_email run)
    for_each logs (delete_audit run)

  unfoldable pub delete_if : Bool → List String → List String → List String → M (Unit {0})
  delete_if true families emails logs = delete_found families emails logs
  delete_if false families emails logs = pure tt

  unfoldable pub cleanup_body : Bool → M Counts
  cleanup_body apply = do
    families ← cleanup_families run (cutoff run.now c.session_days) c.batch_size
    emails ← cleanup_email run (cutoff run.now c.outbox_days) c.batch_size
    logs ← find_logs
    delete_if apply families emails logs
    pure (record {
      family_count = length families;
      email_count = length emails;
      log_count = length logs;
    })

  unfoldable pub cleanup : Bool → M Counts
  cleanup apply = transaction run (cleanup_body apply)
