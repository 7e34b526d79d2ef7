-- ===== src/Mysql/Outbox.antt =====
-- internal/db/mysql/sqlc/jobs.sql.go: the statements on queued mails, and those of the cleanup.
use golang_backend.Base.{
  ℕ, ◌+◌, ◌*◌, ◌/◌, String, Bool, ◌&&◌, ◌||◌, not, Option, none, some, List, ◌∷◌, ◌==◌, string_eq,
  false, nat_eq, if◌then◌else◌, any, keep_if, update_where, map, length,
}
use golang_backend.Database.Tables.{Db, EmailJob, RefreshFamily, ActivityLog}
use golang_backend.Database.Action.{Result, ok, err, Run, M, statement, query, query_row, exec}
use golang_backend.Database.Outbox.{
  EnqueueEmailParams, CompleteEmailParams, RenewEmailParams, new_job, claim_job, complete_job,
  renewable, renew_job, first_claimable, job_at, batch, family_is_old, job_is_old, log_is_old,
  remove_family, is_over, oldest,
}
use golang_backend.Mysql.Errors.{duplicate_entry, no_referenced_row, data_too_long, too_long}

-- `recipient varchar(255)`, `title varchar(160)`, `body varchar(4000)`
unfoldable pub insert_job : ℕ → EnqueueEmailParams → Db → Result (Unit {0} × Db)
insert_job now a d =
    if too_long 255 a.recipient || (too_long 160 a.title || too_long 4000 a.body)
    then err data_too_long
    else if any (λ j. j.id == a.id || j.notification_id == a.notification_id) d.email_jobs
    then err duplicate_entry
    else if any (λ n. n.id == a.notification_id) d.notifications
    then ok (tt, record d { email_jobs = new_job now a ∷ d.email_jobs })
    else err no_referenced_row

abbrev pub leased_until : Option ℕ → ℕ → Bool
leased_until none until = false
leased_until (some t) until = t == until

-- `:execrows` counts the rows that change, not those that the WHERE selects
unfoldable pub renew_rows : ℕ → RenewEmailParams → Db → Result (ℕ × Db)
renew_rows now a d = ok (
  length (
      keep_if (λ j. renewable now a j && not (leased_until j.lease_until a.lease_until))
        d.email_jobs),
  record d { email_jobs = update_where (renewable now a) (renew_job a.lease_until) d.email_jobs },
)

-- `CAST(… AS DATETIME)` rounds to the second
abbrev pub to_second : ℕ → ℕ
to_second t = (t + 500) / 1000 * 1000

module _ (run : Run) where
  unfoldable pub claimable_email : ℕ → M EmailJob
  claimable_email now = query_row run (first_claimable now)

  unfoldable pub claim_email : String → String → ℕ → M (Unit {0})
  claim_email id lease until = exec run λ d. record d {
    email_jobs = update_where (λ j. j.id == id) (claim_job lease until) d.email_jobs;
  }

  unfoldable pub lock_email : String → M EmailJob
  lock_email id = query_row run (job_at id)

  unfoldable pub complete_email : CompleteEmailParams → M (Unit {0})
  complete_email a =
      exec run λ d. record d {
        email_jobs = update_where (λ j. j.id == a.id) (complete_job a) d.email_jobs;
      }

  unfoldable pub renew_email : RenewEmailParams → M ℕ
  renew_email a = statement run (renew_rows run.now a)

  unfoldable pub enqueue_email : EnqueueEmailParams → M (Unit {0})
  enqueue_email a = statement run (insert_job run.now a)

  unfoldable pub cleanup_families : ℕ → ℕ → M (List String)
  cleanup_families cutoff size =
      query run (λ d. batch size (map RefreshFamily.id (keep_if (family_is_old cutoff) d.families)))

  unfoldable pub cleanup_email : ℕ → ℕ → M (List String)
  cleanup_email cutoff size =
      query run (λ d. batch size (map EmailJob.id (keep_if (job_is_old cutoff) d.email_jobs)))

  unfoldable pub cleanup_audit : ℕ → ℕ → M (List String)
  cleanup_audit cutoff size =
      query run (λ d. batch size (map ActivityLog.id (keep_if (log_is_old cutoff) d.logs)))

  unfoldable pub delete_family : String → M (Unit {0})
  delete_family id = exec run (remove_family id)

  unfoldable pub delete_email : String → M (Unit {0})
  delete_email id =
      exec run λ d. record d { email_jobs = keep_if (λ j. not (j.id == id)) d.email_jobs }

  unfoldable pub delete_audit : String → M (Unit {0})
  delete_audit id = exec run λ d. record d { logs = keep_if (λ l. not (l.id == id)) d.logs }

  unfoldable pub email_backlog_count : M ℕ
  email_backlog_count = query run (λ d. length (keep_if (λ j. not (is_over j.status)) d.email_jobs))

  unfoldable pub email_backlog_oldest : M ℕ
  email_backlog_oldest =
      query run λ d. to_second (oldest run.now (keep_if (λ j. not (is_over j.status)) d.email_jobs))
