-- ===== src/Jobs/Leases.antt =====
-- internal/jobs/worker.go: what the end of a delivery does to a mail, and whom a lease keeps out.
use golang_backend.Base.{
  some_same, ℕ, ◌+◌, ◌≡◌, refl, sym, ◌∙◌, ap, subst, Bool, true, false, not, ◌||◌, Option, none,
  some, arith, ◌==◌, string_eq, leb, if◌then◌else◌, update_where,
}
use golang_backend.Database.Tables.{Db, EmailJob, JobStatus, pending}
use golang_backend.Database.Action.{Result, ok, err, Run, World}
use golang_backend.Database.Laws.{
  bind-ok, pure-ok, if-ok, transaction-ok, transaction_failed, result_of,
}
use golang_backend.Database.Outbox.{CompleteEmailParams, complete_job, job_at, lock_email, is_lease}
use golang_backend.Auth.Session.{optional_row}
use golang_backend.Auth.Families.{optional_row-some, optional_row-same}
use golang_backend.Jobs.Worker.{
  Limits, retry_delay, claim, end_job, retry_job, settle_job, settle_found, finish_body, finish,
  holds_lease, outcome_status,
}
use golang_backend.Jobs.Lifecycle.{distinct_ids}
use golang_backend.Jobs.Keeps.{complete_email-ok, set_status-ok}
use golang_backend.Jobs.Claims.{claim-Claimed}

module _ (limits : Limits) (run : Run) where
  -- the row that a delivery ends with
  abbrev pub settlement : EmailJob → Bool → CompleteEmailParams
  settlement job success =
      if success || leb limits.max_attempts job.attempts
      then record {
        id = job.id;
        status = outcome_status limits run success;
        available_at = run.now;
        completed_at = some run.now;
      }
      else record {
        id = job.id;
        status = pending;
        available_at = run.now + retry_delay job.attempts;
        completed_at = none;
      }

  -- nothing, or the settlement of a row that is under the job's lease, as the code tests it
  abbrev pub Closed : EmailJob → Bool → Option JobStatus → Db → Db → Type 0
  Closed job success none d d' = d' ≡ d
  Closed job success (some status) d d' =
      (current : EmailJob) × (job_at job.id d ≡ some current)
      × (holds_lease run.now job current ≡ true)
      × (status ≡ (settlement job success).status)
      × (d'.email_jobs
          ≡ update_where (λ j. j.id == job.id) (complete_job (settlement job success)) d.email_jobs)

  end_job-ok :
      (job : EmailJob) (success : Bool) (w : World) {r : Option JobStatus} {w' : World}
      → (success || leb limits.max_attempts job.attempts) ≡ true
      → end_job limits run job success w ≡ (ok r, w')
      → (r ≡ some (settlement job success).status)
        × (w'.db.email_jobs
            ≡ update_where
                (λ j. j.id == job.id)
                (complete_job (settlement job success))
                w.db.email_jobs)
  unfolding end_job
  end_job-ok job success w over h = bind-ok _ _ w h λ _ w1 first h1.
      bind-ok _ _ w1 h1 λ _ w2 second end.
        let (value, last) = pure-ok _ w2 end in
        let e =
          ap (λ (v : World). v.db.email_jobs) (sym last)
          ∙ set_status-ok limits run _ _ w1 second
          ∙ ap Db.email_jobs (complete_email-ok limits run _ w first) in
        rw over (sym value, e)

  retry_job-ok :
      (job : EmailJob) (success : Bool) (w : World) {r : Option JobStatus} {w' : World}
      → (success || leb limits.max_attempts job.attempts) ≡ false
      → retry_job limits run job w ≡ (ok r, w')
      → (r ≡ some (settlement job success).status)
        × (w'.db.email_jobs
            ≡ update_where
                (λ j. j.id == job.id)
                (complete_job (settlement job success))
                w.db.email_jobs)
  unfolding retry_job
  retry_job-ok job success w again h = bind-ok _ _ w h λ _ w1 first end.
      let (value, last) = pure-ok _ w1 end in
      let e =
        ap (λ (v : World). v.db.email_jobs) (sym last)
        ∙ ap Db.email_jobs (complete_email-ok limits run _ w first) in
      rw again (sym value, e)

  settled :
      (job current : EmailJob) (success : Bool) (r : Option JobStatus) (d d' : Db)
      → job_at job.id d ≡ some current
      → not (holds_lease run.now job current) ≡ false
      → (r ≡ some (settlement job success).status)
        × (d'.email_jobs
            ≡ update_where
                (λ j. j.id == job.id)
                (complete_job (settlement job success))
                d.email_jobs)
      → Closed job success r d d'
  settled job current success r d d' at_id held (value, rows) =
      subst (λ r. Closed job success r d d') (sym value) (current, at_id, ground arith, refl, rows)

  settle_job-Closed :
      (job current : EmailJob) (success : Bool) (w : World) (r : Option JobStatus) {w' : World}
      → job_at job.id w.db ≡ some current
      → settle_job limits run job success current w ≡ (ok r, w')
      → Closed job success r w.db w'.db
  unfolding settle_job
  settle_job-Closed job current success w r {w'} at_id h =
      if-ok (not (holds_lease run.now job current)) _ _ w h
        (λ _ end.
          let (value, last) = pure-ok none w end in
          subst (λ r. Closed job success r w.db w'.db) value (ap World.db (sym last)))
        λ held go. settled job current success r w.db w'.db at_id held (
          if-ok (success || leb limits.max_attempts job.attempts) _ _ w go
            (λ over ran. end_job-ok job success w over ran)
            (λ again ran. retry_job-ok job success w again ran))

  settle_found-Closed :
      (job : EmailJob) (success : Bool) (found : Option EmailJob) (w w1 : World)
      (r : Option JobStatus) {w' : World}
      → optional_row (lock_email run job.id) w ≡ (ok found, w1)
      → settle_found limits run job success found w1 ≡ (ok r, w')
      → Closed job success r w.db w'.db
  unfolding settle_found lock_email
  settle_found-Closed job success none w w1 r {w'} looked h =
      let (value, last) = pure-ok none w1 h in
      subst (λ r. Closed job success r w.db w'.db) value
        (ap World.db (sym last) ∙ optional_row-same run (job_at job.id) w looked)
  settle_found-Closed job success (some current) w w1 r {w'} looked h =
      let (at_id, same) = optional_row-some run (job_at job.id) w looked in
      subst (λ d. Closed job success r d w'.db) same
        (settle_job-Closed job current success w1 r (ap (job_at job.id) same ∙ at_id) h)

  pub finish-Closed :
      (job : EmailJob) (success : Bool) (w : World) (r : Option JobStatus) {w' : World}
      → finish limits run job success w ≡ (ok r, w')
      → Closed job success r w.db w'.db
  unfolding finish finish_body
  finish-Closed job success w r {w'} h = transaction-ok run _ w h λ v u before ran after.
      bind-ok _ _ v ran λ found v1 looked rest. subst (Closed job success r w.db) after (
        subst (λ d. Closed job success r d u.db) before
          (settle_found-Closed job success found v v1 r looked rest))

  finish-same :
      (job : EmailJob) (success : Bool) (w : World) (r : Result (Option JobStatus)) {w' : World}
      → ((current : EmailJob)
          → job_at job.id w.db ≡ some current
          → holds_lease run.now job current ≡ false)
      → finish limits run job success w ≡ (r, w')
      → w'.db ≡ w.db
  unfolding finish
  finish-same job success w (ok none) unheld h = finish-Closed job success w none h
  finish-same job success w (ok (some status)) unheld h =
      let (current, at_id, held, _, _) = finish-Closed job success w (some status) h in
      absurd (cc (sym held ∙ unheld current at_id))
  finish-same job success w (err e) unheld h =
      ap (λ (x : Result (Option JobStatus) × World). x.1.db) (sym h)
      ∙ transaction_failed run _ w e (result_of h)

other_lease :
    (now : ℕ) (theirs mine : EmailJob)
    → is_lease mine.lease_id theirs.lease_id ≡ false
    → holds_lease now theirs mine ≡ false
other_lease now theirs mine h = ground arith

-- Once a worker has claimed a mail, the end of a delivery with a copy of the mail that was taken under
-- another lease changes nothing, whether that delivery succeeded or not.
pub claim-excludes :
    (limits : Limits) (run run' : Run) (w v : World) (mine theirs : EmailJob) (success : Bool)
    (r : Result (Option JobStatus)) {w' v' : World}
    → distinct_ids w.db.email_jobs ≡ true
    → claim limits run w ≡ (ok (some mine), w')
    → v.db ≡ w'.db
    → theirs.id ≡ mine.id
    → is_lease mine.lease_id theirs.lease_id ≡ false
    → finish limits run' theirs success v ≡ (r, v')
    → v'.db ≡ v.db
claim-excludes limits run run' w v mine theirs success r {w'} distinct claims same id_eq other
      ends =
    let done = claim-Claimed limits run w distinct claims in
    let at_id = ap (λ i. job_at i v.db) id_eq ∙ ap (job_at mine.id) same ∙ done.stored in
    finish-same limits run' theirs success v r
      (λ current found.
        subst (λ j. holds_lease run'.now theirs j ≡ false) (some_same (sym at_id ∙ found))
          (other_lease run'.now theirs mine other))
      ends
