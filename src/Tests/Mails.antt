-- ===== src/Tests/Mails.antt =====
-- Queued mails of internal/jobs and notifications of internal/notification.
use golang_backend.Base.{inl, inr, ◌≡◌, refl, arith, some, none, [], ◌∷◌, true}
use golang_backend.Database.Tables.{EmailJob, processing, sent, awaiting}
use golang_backend.Database.Action.{ok, World}
use golang_backend.Jobs.Worker.{claim, finish}
use golang_backend.Jobs.Lifecycle.{JobsOk}
use golang_backend.Jobs.Claims.{Claimed, claim-Claimed}
use golang_backend.Jobs.Progress.{quiet, claim-progress}
use golang_backend.Jobs.Leases.{claim-excludes}
use golang_backend.Jobs.Outcome.{Settled, finish-Settled}
use golang_backend.Jobs.Steps.{Steps, claimed, finished, stay, next, Steps-JobsOk}
use golang_backend.Notification.Service.{Item, CreateInput, create}
use golang_backend.Notification.Counters.{Behind}
use golang_backend.Notification.Laws.{Added, create-Added, create-Behind}
use golang_backend.Tests.Fixtures.{lib, run_at, limits, audited, actor, world, mail}

abbrev mine : EmailJob
mine = record mail {
  status = processing;
  attempts = 1;
  lease_id = some "0";
  lease_until = some 60100;
}

abbrev taken : World
taken = (claim limits (run_at 100) world).1

claims : claim limits (run_at 100) world ≡ (ok (some mine), taken)
unfolding golang_backend.Database.Action.attempt golang_backend.Database.Action.draw
    golang_backend.Database.Action.exec golang_backend.Database.Action.pure
    golang_backend.Database.Action.query_row golang_backend.Database.Action.transaction
    golang_backend.Database.Outbox.claim_email golang_backend.Database.Outbox.claimable_email
    golang_backend.Database.Outbox.first_claimable golang_backend.Database.Outbox.job_at
    golang_backend.Database.Outbox.lock_email golang_backend.Fault.decimal
    golang_backend.Jobs.Worker.claim golang_backend.Jobs.Worker.claim_body
    golang_backend.Jobs.Worker.claim_found golang_backend.Jobs.Worker.take_lease
    golang_backend.Database.Action.◌>>=◌ golang_backend.Base.string_eq golang_backend.Base.nat_eq
claims = refl

claim-Claimed_example : Claimed limits (run_at 100) "0" mine world.db taken.db
unfolding golang_backend.Fault.decimal golang_backend.Base.nat_eq
claim-Claimed_example = claim-Claimed limits (run_at 100) world refl claims

abbrev over : World
over = (finish limits (run_at 200) mine true taken).1

finishes : finish limits (run_at 200) mine true taken ≡ (ok (some sent), over)
unfolding golang_backend.Database.Action.attempt golang_backend.Database.Action.draw
    golang_backend.Database.Action.exec golang_backend.Database.Action.pure
    golang_backend.Database.Action.query_row golang_backend.Database.Action.transaction
    golang_backend.Database.Outbox.claim_email golang_backend.Database.Outbox.claimable_email
    golang_backend.Database.Outbox.complete_email golang_backend.Database.Outbox.first_claimable
    golang_backend.Database.Outbox.job_at golang_backend.Database.Outbox.lock_email
    golang_backend.Database.Outbox.set_notification_email_status golang_backend.Fault.decimal
    golang_backend.Jobs.Worker.claim golang_backend.Jobs.Worker.claim_body
    golang_backend.Jobs.Worker.claim_found golang_backend.Jobs.Worker.end_job
    golang_backend.Jobs.Worker.finish golang_backend.Jobs.Worker.finish_body
    golang_backend.Jobs.Worker.settle_found golang_backend.Jobs.Worker.take_lease
    golang_backend.Database.Action.◌>>=◌ golang_backend.Base.string_eq golang_backend.Base.nat_eq
finishes = refl

finish-Settled_example : Settled limits (run_at 200) mine true (some sent) taken.db over.db
finish-Settled_example = finish-Settled limits (run_at 200) mine true taken (some sent) finishes

abbrev stale : EmailJob
stale = record mine { lease_id = some "old" }

stale_finishes :
    finish limits (run_at 200) stale true taken
    ≡ (ok none, (finish limits (run_at 200) stale true taken).1)
unfolding golang_backend.Database.Action.attempt golang_backend.Database.Action.draw
    golang_backend.Database.Action.exec golang_backend.Database.Action.pure
    golang_backend.Database.Action.query_row golang_backend.Database.Action.transaction
    golang_backend.Database.Outbox.claim_email golang_backend.Database.Outbox.claimable_email
    golang_backend.Database.Outbox.first_claimable golang_backend.Database.Outbox.job_at
    golang_backend.Database.Outbox.lock_email golang_backend.Fault.decimal
    golang_backend.Jobs.Worker.claim golang_backend.Jobs.Worker.claim_body
    golang_backend.Jobs.Worker.claim_found golang_backend.Jobs.Worker.finish
    golang_backend.Jobs.Worker.finish_body golang_backend.Jobs.Worker.settle_found
    golang_backend.Jobs.Worker.take_lease golang_backend.Database.Action.◌>>=◌
    golang_backend.Base.string_eq golang_backend.Base.nat_eq
stale_finishes = refl

claim-excludes_example : (finish limits (run_at 200) stale true taken).1.db ≡ taken.db
unfolding golang_backend.Base.string_eq
claim-excludes_example =
    claim-excludes limits (run_at 100) (run_at 200) world taken mine stale true (ok none) refl
      claims refl refl refl stale_finishes

steps : Steps limits world.db over.db
steps =
    next world.db taken.db over.db
      (next world.db world.db taken.db (stay world.db)
        (claimed (run_at 100) world (ok (some mine)) taken claims))
      (finished (run_at 200) mine true taken (ok (some sent)) over finishes)

Steps-JobsOk_example : JobsOk 5 over.db.email_jobs
Steps-JobsOk_example = Steps-JobsOk limits world.db over.db steps (refl, refl)

abbrev input : CreateInput
input = record { recipient_id = "bob"; title = " news "; body = "text"; send_email = true }

abbrev told : World
told = (create lib (run_at 100) true audited actor input world).1

abbrev item : Item
item = record {
  id = "0";
  recipient_id = "bob";
  title = "news";
  body = "text";
  email_status = awaiting;
  read_at = none;
  created_at = 100;
}

creates : create lib (run_at 100) true audited actor input world ≡ (ok item, told)
unfolding golang_backend.Audit.Writer.mutate golang_backend.Audit.Writer.write
    golang_backend.Database.Action.attempt golang_backend.Database.Action.check
    golang_backend.Database.Action.draw golang_backend.Database.Action.exec
    golang_backend.Database.Action.pure golang_backend.Database.Action.query_row
    golang_backend.Database.Action.transaction golang_backend.Database.Action.wrap
    golang_backend.Database.Logs.insert_audit golang_backend.Database.Notices.counter_at
    golang_backend.Database.Notices.create_notification
    golang_backend.Database.Notices.ensure_notification_counter
    golang_backend.Database.Notices.find_notification
    golang_backend.Database.Notices.increment_notification_counter
    golang_backend.Database.Notices.insert_counter
    golang_backend.Database.Notices.insert_notification
    golang_backend.Database.Notices.notification_at
    golang_backend.Database.Notices.notification_sequence
    golang_backend.Database.Outbox.enqueue_email golang_backend.Database.Outbox.insert_job
    golang_backend.Database.Users.active_user golang_backend.Database.Users.find_active_user_by_id
    golang_backend.Database.Users.lock_user golang_backend.Fault.name
    golang_backend.Notification.Service.create golang_backend.Notification.Service.create_body
    golang_backend.Notification.Service.input_is_bad golang_backend.Notification.Service.project
    golang_backend.Database.Action.◌>>=◌ golang_backend.Base.string_eq
creates = refl

create-Added_example : Added lib (run_at 100) true input item world.db told.db
create-Added_example = create-Added lib (run_at 100) true audited actor input world creates

create-Behind_example : Behind "bob" told.db
unfolding golang_backend.Base.string_eq
create-Behind_example =
    create-Behind lib (run_at 100) true audited actor input world "bob" refl creates

claim-progress_example :
    (mine : EmailJob) × (claim limits (quiet (run_at 100)) world
      ≡ (ok (some mine), (claim limits (quiet (run_at 100)) world).1))
    × Claimed limits
        (quiet (run_at 100))
        "0"
        mine
        world.db
        (claim limits (quiet (run_at 100)) world).1.db
unfolding golang_backend.Database.Outbox.first_claimable golang_backend.Base.string_eq
    golang_backend.Base.nat_eq golang_backend.Fault.decimal
claim-progress_example =
    claim-progress limits (run_at 100) world mail refl (inl refl) (inl (refl, omega arith))
      (inr (inr (omega arith)), tt)
