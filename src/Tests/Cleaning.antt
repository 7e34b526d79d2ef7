-- ===== src/Tests/Cleaning.antt =====
-- internal/jobs/cleanup.go: one mail that was delivered long ago goes, and a waiting one stays.
use golang_backend.Base.{◌≡◌, refl, true, false, some, [], ◌∷◌, string_eq, In, inl, inr}
use golang_backend.Database.Tables.{EmailJob, sent}
use golang_backend.Database.Action.{ok, World}
use golang_backend.Jobs.Cleanup.{Retention, Counts, cleanup}
use golang_backend.Jobs.Retention.{cleaned, cleanup-ok}
use golang_backend.Jobs.Spared.{cleanup-In}
use golang_backend.Tests.Fixtures.{mail, world, run_at}

abbrev month : Retention
month = record {
  session_days = 60;
  outbox_days = 30;
  audit_days = 365;
  audit_enabled = false;
  batch_size = 500;
}

abbrev delivered : EmailJob
delivered = record mail {
  id = "old";
  notification_id = "before";
  status = sent;
  completed_at = some 20;
}

abbrev with_old : World
with_old = record world { db = record world.db { email_jobs = delivered ∷ mail ∷ [] } }

abbrev one_mail : Counts
one_mail = record { family_count = 0; email_count = 1; log_count = 0 }

abbrev after : World
after = (cleanup month (run_at 2592000100) true with_old).1

cleans : cleanup month (run_at 2592000100) true with_old ≡ (ok one_mail, after)
unfolding golang_backend.Database.Action.exec golang_backend.Database.Action.for_each
    golang_backend.Database.Action.pure golang_backend.Database.Action.query
    golang_backend.Database.Action.statement golang_backend.Database.Action.transaction
    golang_backend.Database.Outbox.cleanup_audit golang_backend.Database.Outbox.cleanup_email
    golang_backend.Database.Outbox.cleanup_families golang_backend.Database.Outbox.delete_audit
    golang_backend.Database.Outbox.delete_email golang_backend.Database.Outbox.delete_family
    golang_backend.Database.Outbox.remove_family golang_backend.Fault.db
    golang_backend.Jobs.Cleanup.cleanup golang_backend.Jobs.Cleanup.cleanup_body
    golang_backend.Jobs.Cleanup.delete_found golang_backend.Jobs.Cleanup.delete_if
    golang_backend.Jobs.Cleanup.find_logs golang_backend.Database.Action.◌>>=◌
    golang_backend.Base.string_eq
cleans = refl

cleanup-ok_example : after.db ≡ cleaned month (run_at 2592000100) true with_old.db
cleanup-ok_example = cleanup-ok month (run_at 2592000100) true with_old cleans

cleanup-In_example : In mail after.db.email_jobs
unfolding string_eq
cleanup-In_example =
    cleanup-In month (run_at 2592000100) true with_old mail cleans refl (inr (inl refl)) (inl refl)
