-- ===== src/Jobs/Keeps.antt =====
-- internal/jobs/worker.go: each transaction of a worker keeps the queued mails in order.
use golang_backend.Base.{
  ℕ, String, ◌≡◌, refl, sym, ◌∙◌, ap, subst, Bool, true, false, not, ◌||◌, Option, none, some, ◌∷◌,
  arith, ◌==◌, string_eq, leb, update_where, find_first, ◌⊎◌, inl, inr,
}
use golang_backend.Database.Tables.{Db, EmailJob, JobStatus, EmailStatus}
use golang_backend.Database.Action.{
  Result, ok, err, Run, World, M, pure, attempt, ◌>>=◌, transaction, statement,
}
use golang_backend.Database.Laws.{
  bind-ok, pure-ok, if-ok, transaction-ok, transaction_failed, result_of, statement-ok,
}
use golang_backend.Database.Effects.{exec-ok, query_row-ok, draw-same}
use golang_backend.Database.Outbox.{
  CompleteEmailParams, EnqueueEmailParams, RenewEmailParams, complete_job, claim_job, renewable,
  renew_job, renew_jobs, insert_job, new_job, job_at, is_over, claimable, first_claimable,
  claimable_email, complete_email, set_notification_email_status, claim_email, lock_email,
  renew_email, enqueue_email,
}
use golang_backend.Auth.Session.{optional_row}
use golang_backend.Auth.Families.{optional_row-some, optional_row-same}
use golang_backend.Jobs.Worker.{
  Limits, give_up, take_lease, claim_found, claim_body, claim, renew, end_job, retry_job,
  settle_job, settle_found, finish_body, finish, holds_lease, lease_end, outcome_status,
}
use golang_backend.Jobs.Lifecycle.{JobsOk, first_claimable-In, In-job_at}
use golang_backend.Jobs.Rows.{settles, complete-JobsOk, claim-JobsOk, renew-JobsOk, enqueue-JobsOk}

-- the queued mails are in order after it, if they are before it
abbrev Keeps : ℕ → Db → Db → Type 0
Keeps max d d' = JobsOk max d.email_jobs → JobsOk max d'.email_jobs

module _ (limits : Limits) (run : Run) where
  pub complete_email-ok :
      (a : CompleteEmailParams) (w : World) {w' : World}
      → complete_email run a w ≡ (ok tt, w')
      → w'.db ≡ record w.db {
        email_jobs = update_where (λ j. j.id == a.id) (complete_job a) w.db.email_jobs;
      }
  unfolding complete_email
  complete_email-ok a w h = exec-ok run _ w h

  pub set_status-ok :
      (id : String) (status : EmailStatus) (w : World) {w' : World}
      → set_notification_email_status run id status w ≡ (ok tt, w')
      → w'.db.email_jobs ≡ w.db.email_jobs
  unfolding set_notification_email_status
  set_status-ok id status w h = ap Db.email_jobs (exec-ok run _ w h)

  completed :
      (a : CompleteEmailParams) (w : World) {w' : World}
      → settles a ≡ true
      → complete_email run a w ≡ (ok tt, w')
      → Keeps limits.max_attempts w.db w'.db
  completed a w h done good =
      subst (JobsOk limits.max_attempts) (sym (ap Db.email_jobs (complete_email-ok a w done)))
        (complete-JobsOk limits.max_attempts a w.db.email_jobs h good)

  give_up-Keeps :
      (job : EmailJob) (w : World) {r : Option EmailJob} {w' : World}
      → give_up limits run job w ≡ (ok r, w')
      → Keeps limits.max_attempts w.db w'.db
  unfolding give_up
  give_up-Keeps job w h good = bind-ok _ _ w h λ _ w1 first h1. bind-ok _ _ w1 h1 λ _ w2 second end.
      subst (JobsOk limits.max_attempts)
        (sym (
          ap (λ (v : World). v.db.email_jobs) (sym (pure-ok _ w2 end).1)
          ∙ set_status-ok _ _ w1 second))
        (completed _ w refl first good)

  take_lease-Keeps :
      (job : EmailJob) (w : World) {r : Option EmailJob} {w' : World}
      → job_at job.id w.db ≡ some job
      → leb limits.max_attempts job.attempts ≡ false
      → is_over job.status ≡ false
      → take_lease limits run job w ≡ (ok r, w')
      → Keeps limits.max_attempts w.db w'.db
  unfolding take_lease claim_email lock_email job_at
  take_lease-Keeps job w at_id left live h good = bind-ok _ _ w h λ lease w1 drawn h1.
      bind-ok _ _ w1 h1 λ _ w2 claimed h2. bind-ok _ _ w2 h2 λ row w3 read end.
        let e =
          ap (λ (v : World). v.db.email_jobs) (sym (pure-ok _ w3 end).1)
          ∙ ap Db.email_jobs (query_row-ok run _ w2 read).1
          ∙ ap Db.email_jobs (exec-ok run _ w1 claimed)
          ∙ ap
              (λ (d : Db).
                update_where (λ j. j.id == job.id) (claim_job lease (lease_end limits run))
                  d.email_jobs)
              (draw-same run w drawn) in
        subst (JobsOk limits.max_attempts) (sym e) (
          claim-JobsOk limits.max_attempts (lease_end limits run) lease job w.db.email_jobs at_id
            left live good)

  claimable_live :
      (now : ℕ) (job : EmailJob) → claimable now job ≡ true → is_over job.status ≡ false
  claimable_live now job h = ground arith

  claim_found-Keeps :
      (found : Option EmailJob) (w w1 : World) {r : Option EmailJob} {w' : World}
      → optional_row (claimable_email run run.now) w ≡ (ok found, w1)
      → claim_found limits run found w1 ≡ (ok r, w')
      → Keeps limits.max_attempts w.db w'.db
  unfolding claim_found claimable_email job_at
  claim_found-Keeps none w w1 looked h good =
      subst (JobsOk limits.max_attempts)
        (ap Db.email_jobs (sym (optional_row-same run (first_claimable run.now) w looked))
          ∙ ap (λ (v : World). v.db.email_jobs) (pure-ok _ w1 h).1)
        good
  claim_found-Keeps (some job) w w1 {r} {w'} looked h good =
      let (first, same) = optional_row-some run (first_claimable run.now) w looked in
      let (member, due) = first_claimable-In run.now w.db job first in
      let good1 = subst (JobsOk limits.max_attempts) (ap Db.email_jobs (sym same)) good in
      let at_id =
        ap (λ (d : Db). find_first (λ j. j.id == job.id) d.email_jobs) same
        ∙ In-job_at w.db.email_jobs job good.0 member in
      if-ok (leb limits.max_attempts job.attempts) _ _ w1 h
        (λ spent go. give_up-Keeps job w1 go good1)
        (λ left go. take_lease-Keeps job w1 at_id left (claimable_live run.now job due) go good1)

  -- a transaction keeps what its body keeps, whether it commits or not
  transaction-Keeps :
      {A : Type 0} (body : M A) (w : World) (r : Result A) {w' : World}
      → ((v u : World) (a : A) → body v ≡ (ok a, u) → Keeps limits.max_attempts v.db u.db)
      → transaction run body w ≡ (r, w')
      → Keeps limits.max_attempts w.db w'.db
  transaction-Keeps body w (ok a) {w'} keeps h good =
      transaction-ok run body w h λ v u before ran after.
        subst (JobsOk limits.max_attempts) (ap Db.email_jobs after) (
          keeps v u a ran (subst (JobsOk limits.max_attempts) (ap Db.email_jobs (sym before)) good))
  transaction-Keeps body w (err e) {w'} keeps h good =
      let back = transaction_failed run body w e (result_of h) in
      subst (JobsOk limits.max_attempts)
        (ap Db.email_jobs (sym back) ∙ ap (λ (x : Result _ × World). x.1.db.email_jobs) h) good

  pub claim-Keeps :
      (w : World) (r : Result (Option EmailJob)) {w' : World}
      → claim limits run w ≡ (r, w')
      → Keeps limits.max_attempts w.db w'.db
  unfolding claim claim_body
  claim-Keeps w r h =
      transaction-Keeps _ w r
        (λ v u a ran.
          bind-ok _ _ v ran λ found v1 looked rest. claim_found-Keeps found v v1 looked rest)
        h

  outcome_settles :
      (success : Bool) (id : String) (at_time over : ℕ)
      → settles (record {
        id = id;
        status = outcome_status limits run success;
        available_at = at_time;
        completed_at = some over;
      })
        ≡ true
  outcome_settles true id at_time over = refl
  outcome_settles false id at_time over = refl

  end_job-Keeps :
      (job : EmailJob) (success : Bool) (w : World) {r : Option JobStatus} {w' : World}
      → end_job limits run job success w ≡ (ok r, w')
      → Keeps limits.max_attempts w.db w'.db
  unfolding end_job
  end_job-Keeps job success w h good = bind-ok _ _ w h λ _ w1 first h1.
      bind-ok _ _ w1 h1 λ _ w2 second end.
        subst (JobsOk limits.max_attempts)
          (sym (
            ap (λ (v : World). v.db.email_jobs) (sym (pure-ok _ w2 end).1)
            ∙ set_status-ok _ _ w1 second))
          (completed _ w (outcome_settles success job.id run.now run.now) first good)

  retry_job-Keeps :
      (job : EmailJob) (w : World) {r : Option JobStatus} {w' : World}
      → retry_job limits run job w ≡ (ok r, w')
      → Keeps limits.max_attempts w.db w'.db
  unfolding retry_job
  retry_job-Keeps job w h good = bind-ok _ _ w h λ _ w1 first end.
      subst (JobsOk limits.max_attempts) (ap (λ (v : World). v.db.email_jobs) (pure-ok _ w1 end).1)
        (completed _ w refl first good)

  settle_job-Keeps :
      (job current : EmailJob) (success : Bool) (w : World) {r : Option JobStatus} {w' : World}
      → settle_job limits run job success current w ≡ (ok r, w')
      → Keeps limits.max_attempts w.db w'.db
  unfolding settle_job
  settle_job-Keeps job current success w h good =
      if-ok (not (holds_lease run.now job current)) _ _ w h
        (λ _ end.
          subst (JobsOk limits.max_attempts)
            (ap (λ (v : World). v.db.email_jobs) (pure-ok none w end).1) good)
        λ _ go.
          if-ok (success || leb limits.max_attempts job.attempts) _ _ w go
            (λ _ over. end_job-Keeps job success w over good)
            (λ _ again. retry_job-Keeps job w again good)

  settle_found-Keeps :
      (job : EmailJob) (success : Bool) (found : Option EmailJob) (w : World) {r : Option JobStatus}
      {w' : World}
      → settle_found limits run job success found w ≡ (ok r, w')
      → Keeps limits.max_attempts w.db w'.db
  unfolding settle_found
  settle_found-Keeps job success none w h good =
      subst (JobsOk limits.max_attempts) (ap (λ (v : World). v.db.email_jobs) (pure-ok _ w h).1)
        good
  settle_found-Keeps job success (some current) w h good =
      settle_job-Keeps job current success w h good

  pub finish-Keeps :
      (job : EmailJob) (success : Bool) (w : World) (r : Result (Option JobStatus)) {w' : World}
      → finish limits run job success w ≡ (r, w')
      → Keeps limits.max_attempts w.db w'.db
  unfolding finish finish_body lock_email
  finish-Keeps job success w r h =
      transaction-Keeps _ w r
        (λ v u a ran good. bind-ok _ _ v ran λ found v1 looked rest.
          settle_found-Keeps job success found v1 rest (
            subst (JobsOk limits.max_attempts)
              (ap Db.email_jobs (sym (optional_row-same run (job_at job.id) v looked))) good))
        h

  renewed_rows :
      (a : RenewEmailParams) (w : World)
      → ((attempt (renew_email run a) w).1.db.email_jobs ≡ w.db.email_jobs)
        ⊎ ((attempt (renew_email run a) w).1.db.email_jobs
            ≡ update_where (renewable run.now a) (renew_job a.lease_until) w.db.email_jobs)
  unfolding attempt renew_email renew_jobs statement
  renewed_rows a w = ground arith

  pub renew-Keeps :
      (stopped : Bool) (job : EmailJob) (w : World) {r : Result (Option Bool)} {w' : World}
      → renew limits run stopped job w ≡ (r, w')
      → Keeps limits.max_attempts w.db w'.db
  unfolding renew ◌>>=◌ pure attempt
  renew-Keeps stopped job w {r} {w'} h good =
      let a : RenewEmailParams = record {
        id = job.id;
        lease_id = job.lease_id;
        lease_until = lease_end limits run;
      } in
      let last = ap (λ (x : Result (Option Bool) × World). x.1.db.email_jobs) h in
      elim (renewed_rows a w) [
        | inl same ↦ subst (JobsOk limits.max_attempts) (sym same ∙ last) good
        | inr e ↦
            subst (JobsOk limits.max_attempts) (sym e ∙ last)
              (renew-JobsOk limits.max_attempts run.now a w.db.email_jobs good)
      ]

  pub enqueue-Keeps :
      (a : EnqueueEmailParams) (w : World) {w' : World}
      → enqueue_email run a w ≡ (ok tt, w')
      → Keeps limits.max_attempts w.db w'.db
  unfolding enqueue_email insert_job
  enqueue-Keeps a w h good =
      let done = statement-ok run (insert_job run.now a) w h in
      subst (JobsOk limits.max_attempts) {x = new_job run.now a ∷ w.db.email_jobs} (ground arith)
        (enqueue-JobsOk limits.max_attempts run.now a w.db.email_jobs (ground arith) good)
