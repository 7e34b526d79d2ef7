-- ===== src/Mysql/Refinement/Outbox.antt =====
-- internal/db/mysql_adapter.go: the methods on queued mails and those of the cleanup.
use golang_backend.Base.{
  ℕ, ◌≡◌, refl, false, not, ◌&&◌, ◌||◌, arith, ◌==◌, string_eq, nat_eq, any, length-keep_if-and,
  update_where, keep_if, length, map,
}
use golang_backend.Library.{Library}
use golang_backend.Database.Postgres.{postgres}
use golang_backend.Mysql.Errors.{too_long}
use golang_backend.Mysql.Adapter.{mysql_queries}
use golang_backend.Mysql.Refinement.Uuids.{some_uuid-Implements, uuid-Implements}
use golang_backend.Database.Uuid.{by_some_uuid, by_uuid}
use golang_backend.Mysql.Simulation.{
  SameRows, change_agrees, row_agrees, rows_agree, statement-Implements,
}
use golang_backend.Mysql.Refinement.Errors.{db-duplicate, db-no_referenced}
use golang_backend.Database.Tables.{Db, EmailJob, RefreshFamily, ActivityLog}
use golang_backend.Database.Outbox as Postgres
use golang_backend.Database.Outbox.{
  EnqueueEmailParams, CompleteEmailParams, RenewEmailParams, renewable, renew_job, is_over,
  claim_job, complete_job, batch, family_is_old, job_is_old, log_is_old,
}
use golang_backend.Mysql.Outbox
use golang_backend.Mysql.Notices
use golang_backend.Mysql.Outbox.{leased_until}
use golang_backend.Mysql.Conditions.{MailFits, LeaseMoves}
use golang_backend.Mysql.Contract.{MailMethods}

insert_job-SameRows :
    (now : ℕ) (a : EnqueueEmailParams) (d : Db)
    → (too_long 255 a.recipient || (too_long 160 a.title || too_long 4000 a.body)) ≡ false
    → SameRows (Outbox.insert_job now a d) (Postgres.insert_job now a d)
unfolding Outbox.insert_job Postgres.insert_job
insert_job-SameRows now a d fits = ground (arith, db-duplicate, db-no_referenced)

renew-SameRows :
    (now : ℕ) (a : RenewEmailParams) (d : Db)
    → any (λ j. renewable now a j && leased_until j.lease_until a.lease_until) d.email_jobs ≡ false
    → SameRows (Outbox.renew_rows now a d) (Postgres.renew_jobs now a d)
unfolding Outbox.renew_rows Postgres.renew_jobs
renew-SameRows now a d h = (
  length-keep_if-and (renewable now a) (λ j. leased_until j.lease_until a.lease_until) d.email_jobs
      h,
  refl,
)

module _ (lib : Library) where
  pub mail_methods : MailMethods lib (mysql_queries lib) (postgres lib)
  unfolding Postgres.claim_email Outbox.claim_email Postgres.claimable_email Outbox.claimable_email
      Postgres.cleanup_audit Outbox.cleanup_audit Postgres.cleanup_email Outbox.cleanup_email
      Postgres.cleanup_families Outbox.cleanup_families Postgres.complete_email
      Outbox.complete_email Postgres.delete_audit Outbox.delete_audit Postgres.delete_email
      Outbox.delete_email Postgres.delete_family Outbox.delete_family Postgres.email_backlog_count
      Outbox.email_backlog_count Postgres.enqueue_email Outbox.enqueue_email Postgres.lock_email
      Outbox.lock_email Postgres.renew_email Outbox.renew_email
      Postgres.set_notification_email_status Notices.set_notification_email_status
  mail_methods = record {
    claim_email = λ id lease until.
        uuid-Implements lib
          (λ run k1. by_uuid lib run (λ k2. Postgres.claim_email run k1 k2 until) lease) id
          (uuid-Implements lib (λ run k2. Postgres.claim_email run id k2 until) lease
            (λ run w pre.
              change_agrees run
                (λ d. record d {
                  email_jobs = update_where (λ j. j.id == id) (claim_job lease until) d.email_jobs;
                })
                w));
    claimable_email = λ now run w pre. row_agrees run (Postgres.first_claimable now) w;
    cleanup_audit = λ cutoff size run w pre.
        rows_agree run (λ d. batch size (map ActivityLog.id (keep_if (log_is_old cutoff) d.logs)))
          w;
    cleanup_email = λ cutoff size run w pre.
        rows_agree run
          (λ d. batch size (map EmailJob.id (keep_if (job_is_old cutoff) d.email_jobs))) w;
    cleanup_families = λ cutoff size run w pre.
        rows_agree run
          (λ d. batch size (map RefreshFamily.id (keep_if (family_is_old cutoff) d.families))) w;
    complete_email = λ a.
        uuid-Implements lib (λ run k1. Postgres.complete_email run (record a { id = k1 })) a.id
          (λ run w pre.
            change_agrees run
              (λ d. record d {
                email_jobs = update_where (λ j. j.id == a.id) (complete_job a) d.email_jobs;
              })
              w);
    delete_audit = λ id.
        uuid-Implements lib (λ run k1. Postgres.delete_audit run k1) id
          (λ run w pre.
            change_agrees run (λ d. record d { logs = keep_if (λ l. not (l.id == id)) d.logs }) w);
    delete_email = λ id.
        uuid-Implements lib (λ run k1. Postgres.delete_email run k1) id
          (λ run w pre.
            change_agrees run
              (λ d. record d { email_jobs = keep_if (λ j. not (j.id == id)) d.email_jobs }) w);
    delete_family = λ id.
        uuid-Implements lib (λ run k1. Postgres.delete_family run k1) id
          (λ run w pre. change_agrees run (Postgres.remove_family id) w);
    email_backlog_count = λ run w pre.
        rows_agree run (λ d. length (keep_if (λ j. not (is_over j.status)) d.email_jobs)) w;
    enqueue_email = λ a.
        uuid-Implements lib
          (λ run k1.
            by_uuid lib run
              (λ k2. Postgres.enqueue_email run (record a { id = k1; notification_id = k2 }))
              a.notification_id)
          a.id
          (uuid-Implements lib
            (λ run k2. Postgres.enqueue_email run (record a { id = a.id; notification_id = k2 }))
            a.notification_id
            (statement-Implements (MailFits a) (λ now. Outbox.insert_job now a)
              (λ now. Postgres.insert_job now a)
              λ run w fits. insert_job-SameRows run.now a w.db fits));
    lock_email = λ id.
        uuid-Implements lib (λ run k1. Postgres.lock_email run k1) id
          (λ run w pre. row_agrees run (Postgres.job_at id) w);
    renew_email = λ a.
        uuid-Implements lib
          (λ run k1.
            by_some_uuid lib run
              (λ k2. Postgres.renew_email run (record a { id = k1; lease_id = k2 })) a.lease_id)
          a.id
          (some_uuid-Implements lib
            (λ run k2. Postgres.renew_email run (record a { id = a.id; lease_id = k2 })) a.lease_id
            (statement-Implements (LeaseMoves a) (λ now. Outbox.renew_rows now a)
              (λ now. Postgres.renew_jobs now a)
              λ run w moves. renew-SameRows run.now a w.db moves));
    set_notification_email_status = λ id status.
        uuid-Implements lib (λ run k1. Postgres.set_notification_email_status run k1 status) id
          (λ run w pre.
            change_agrees run
              (λ d. record d {
                notifications =
                    update_where (λ n. n.id == id) (λ n. record n { email_status = status })
                      d.notifications;
              })
              w);
  }
