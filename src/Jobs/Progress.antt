-- ===== src/Jobs/Progress.antt =====
-- internal/jobs/worker.go, `claim`: a mail that is due is claimed.
use golang_backend.Base.{
  In, ◌≡◌, refl, ap, ◌+◌, suc, true, false, Option, none, some, arith, string_eq, leb, ◌∙◌,
}
use golang_backend.Database.Tables.{EmailJob}
use golang_backend.Database.Action.{
  Result, ok, Run, World, M, pure, attempt, draw, statement, query_row, exec, transaction, ◌>>=◌,
  continue,
}
use golang_backend.Database.Outbox.{
  claim_job, job_at, first_claimable, claimable_email, claim_email, lock_email,
}
use golang_backend.Auth.Session.{optional_row}
use golang_backend.Jobs.Worker.{Limits, take_lease, claim_found, claim_body, claim, lease_end}
use golang_backend.Jobs.Due.{Due}
use golang_backend.Jobs.Available.{Spare, available_lem}
use golang_backend.Jobs.Lifecycle.{distinct_ids, first_claimable-In, In-job_at}
use golang_backend.Jobs.Claims.{Claimed, find-update_where, claim-Claimed}

-- a run at an instant, with texts to draw, whose calls of the database do not fail
abbrev pub quiet : Run → Run
quiet run = record run { faults = λ n. none }

module _ (limits : Limits) (run : Run) where
  looked_up :
      (w : World) (job : EmailJob)
      → first_claimable run.now w.db ≡ some job
      → optional_row (claimable_email (quiet run) run.now) w
        ≡ (ok (some job), record w { calls = w.calls + 1 })
  unfolding optional_row attempt claimable_email query_row statement pure ◌>>=◌
  looked_up w job h = ground (arith, h)

  leased :
      (job : EmailJob) (w : World)
      → job_at job.id w.db ≡ some job
      → (take_lease limits (quiet run) job w).0
        ≡ ok (some (claim_job (run.fresh w.drawn) (lease_end limits run) job))
  unfolding take_lease draw claim_email exec lock_email query_row statement pure ◌>>=◌ job_at
  leased job w h =
      let f = claim_job (run.fresh w.drawn) (lease_end limits run) in
      ground (arith, find-update_where job.id f w.db.email_jobs job (λ j. refl) h)

  body_claims :
      (w : World) (job : EmailJob)
      → first_claimable run.now w.db ≡ some job
      → job_at job.id w.db ≡ some job
      → leb limits.max_attempts job.attempts ≡ false
      → (claim_body limits (quiet run) w).0
        ≡ ok (some (claim_job (run.fresh w.drawn) (lease_end limits run) job))
  unfolding claim_body claim_found ◌>>=◌
  body_claims w job first at left =
      ap
        (λ (x : Result (Option EmailJob) × World).
          (continue x.0 (claim_found limits (quiet run)) x.1).0)
        (looked_up w job first)
      ∙ ground (arith, leased job (record w { calls = w.calls + 1 }) at, left)

  committed :
      {A : Type 0} (body : M A) (w : World) (a : A)
      → (body (record w { calls = suc w.calls })).0 ≡ ok a
      → (transaction (quiet run) body w).0 ≡ ok a
  unfolding transaction
  committed body w a h = ground (arith, h)

  -- Where no call of the database fails, the ids of the mails differ and some mail is due such that every
  -- mail that is due and available no later has an attempt left: a worker that looks for a mail does get
  -- one that is due, none being available earlier, and stores it as being processed, with one
  -- attempt more and under the lease that was drawn for it.
  pub claim-progress :
      (w : World) (job : EmailJob)
      → distinct_ids w.db.email_jobs ≡ true
      → In job w.db.email_jobs
      → Due run.now job
      → Spare run.now limits.max_attempts job.available_at w.db.email_jobs
      → (mine : EmailJob) × (claim limits (quiet run) w
          ≡ (ok (some mine), (claim limits (quiet run) w).1))
        × Claimed limits (quiet run) (run.fresh w.drawn) mine w.db (claim limits (quiet run) w).1.db
  unfolding claim job_at
  claim-progress w due_job distinct there due spare =
      let (job, first, left) =
        available_lem run.now limits.max_attempts w.db due_job there due spare in
      let mine = claim_job (run.fresh w.drawn) (lease_end limits run) job in
      let at =
        In-job_at w.db.email_jobs job distinct (first_claimable-In run.now w.db job first).0 in
      let done =
        committed (claim_body limits (quiet run)) w (some mine)
          (body_claims (record w { calls = suc w.calls }) job first at (ground (arith, left))) in
      let end = ap (λ r. (r, (claim limits (quiet run) w).1)) done in
      (mine, end, claim-Claimed limits (quiet run) w distinct end)
