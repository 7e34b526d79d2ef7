-- ===== src/Jobs/Steps.antt =====
-- internal/jobs/worker.go: the steps of the workers in any order, and what they keep.
use golang_backend.Base.{◌≡◌, Bool, Option, string_eq}
use golang_backend.Database.Tables.{Db, EmailJob, JobStatus}
use golang_backend.Database.Action.{Result, ok, Run, World}
use golang_backend.Database.Outbox.{EnqueueEmailParams, enqueue_email}
use golang_backend.Jobs.Worker.{Limits, claim, renew, finish}
use golang_backend.Jobs.Lifecycle.{JobsOk}
use golang_backend.Jobs.Keeps.{claim-Keeps, renew-Keeps, finish-Keeps, enqueue-Keeps}

-- one step of some worker, or of the service that queues a mail, at any instant and with any failures;
-- a worker finishes or renews a job with the copy that it took when it claimed it, however old
pub data Step (limits : Limits) : Db → Db → Type 0 where
  claimed :
      (run : Run) (w : World) (r : Result (Option EmailJob)) (w' : World)
      → claim limits run w ≡ (r, w')
      → Step limits w.db w'.db
  renewed :
      (run : Run) (stopped : Bool) (job : EmailJob) (w : World) (r : Result (Option Bool))
      (w' : World)
      → renew limits run stopped job w ≡ (r, w')
      → Step limits w.db w'.db
  finished :
      (run : Run) (job : EmailJob) (success : Bool) (w : World) (r : Result (Option JobStatus))
      (w' : World)
      → finish limits run job success w ≡ (r, w')
      → Step limits w.db w'.db
  enqueued :
      (run : Run) (a : EnqueueEmailParams) (w w' : World)
      → enqueue_email run a w ≡ (ok tt, w')
      → Step limits w.db w'.db

pub data Steps (limits : Limits) : Db → Db → Type 0 where
  stay : (d : Db) → Steps limits d d
  next : (d d' d'' : Db) → Steps limits d d' → Step limits d' d'' → Steps limits d d''

Step-JobsOk :
    (limits : Limits) (d d' : Db)
    → Step limits d d'
    → JobsOk limits.max_attempts d.email_jobs
    → JobsOk limits.max_attempts d'.email_jobs
Step-JobsOk limits d d' (claimed run w r w' h) = claim-Keeps limits run w r h
Step-JobsOk limits d d' (renewed run stopped job w r w' h) = renew-Keeps limits run stopped job w h
Step-JobsOk limits d d' (finished run job success w r w' h) =
    finish-Keeps limits run job success w r h
Step-JobsOk limits d d' (enqueued run a w w' h) = enqueue-Keeps limits run a w h

-- Whatever the workers do in whatever order, at whatever instants and with whatever failures: if the
-- names of the queued mails are distinct, no mail has been tried more often than the limit and the
-- lease and the completion of each agree with its status, then all this holds afterwards.
pub Steps-JobsOk :
    (limits : Limits) (d d' : Db)
    → Steps limits d d'
    → JobsOk limits.max_attempts d.email_jobs
    → JobsOk limits.max_attempts d'.email_jobs
Steps-JobsOk limits d d' (stay _) good = good
Steps-JobsOk limits d d' (next _ d1 _ before step) good =
    Step-JobsOk limits d1 d' step (Steps-JobsOk limits d d1 before good)
