-- ===== src/Jobs/Worker.antt =====
-- internal/jobs/worker.go: `claim`, `deliver`. An instant is in milliseconds. The metrics, the spans and
-- the timeouts are not modelled; of `Run`, an endless loop of goroutines, the body is `claim` and `deliver`.
use golang_backend.Base.{
  ℕ, zero, suc, ◌+◌, ◌-◌, ◌*◌, Bool, true, false, not, ◌&&◌, ◌||◌, Option, none, some, List, [],
  ◌∷◌, ◌==◌, string_eq, nat_eq, leb, if◌then◌else◌,
}
use golang_backend.Database.Tables.{
  EmailJob, JobStatus, pending, sent, failed, EmailStatus, delivered, undelivered,
}
use golang_backend.Database.Action.{
  Result, ok, err, Run, M, pure, attempt, ◌>>=◌, ◌>>◌, draw, transaction,
}
use golang_backend.Database.Outbox.{
  is_processing, is_lease, lies_ahead, claimable_email, claim_email, lock_email, complete_email,
  renew_email, set_notification_email_status,
}
use golang_backend.Auth.Session.{optional_row}

-- `config.Operations`, as far as the worker reads it
pub record Limits : Type 0 where
  pub lease_seconds : ℕ
  pub max_attempts : ℕ

abbrev pub retries : List ℕ
retries = 5000 ∷ 30000 ∷ 120000 ∷ 600000 ∷ []

-- the entry at the index, or the last one
abbrev pub entry_or_last : List ℕ → ℕ → ℕ
entry_or_last [] n = 0
entry_or_last (x ∷ []) n = x
entry_or_last (x ∷ y ∷ ys) zero = x
entry_or_last (x ∷ y ∷ ys) (suc n) = entry_or_last (y ∷ ys) n

-- `retries[index]`, with the index kept in range: `attempts - 1` stops at 0 on ℕ
unfoldable pub retry_delay : ℕ → ℕ
retry_delay attempts = entry_or_last retries (attempts - 1)

-- `current.Status != "PROCESSING" || … || !current.LeaseUntil.Time.After(now)`, negated
abbrev pub holds_lease : ℕ → EmailJob → EmailJob → Bool
holds_lease now job current =
    is_processing current.status
    && (is_lease current.lease_id job.lease_id && lies_ahead now current.lease_until)

abbrev after_renewal : Bool → Result ℕ → Option Bool
after_renewal stopped (ok n) = if n == 1 then none else some false
after_renewal stopped (err e) = some stopped

module _ (limits : Limits) (run : Run) where
  abbrev pub lease_end : ℕ
  lease_end = run.now + limits.lease_seconds * 1000

  -- a job that has no attempt left
  unfoldable pub give_up : EmailJob → M (Option EmailJob)
  give_up job = do
    complete_email run (record {
      id = job.id;
      status = failed;
      available_at = job.available_at;
      completed_at = some run.now;
    })
    set_notification_email_status run job.notification_id undelivered
    pure none

  unfoldable pub take_lease : EmailJob → M (Option EmailJob)
  take_lease job = do
    lease ← draw run
    claim_email run job.id lease lease_end
    claimed ← lock_email run job.id
    pure (some claimed)

  -- the transaction of `claim` behind the search
  unfoldable pub claim_found : Option EmailJob → M (Option EmailJob)
  claim_found none = pure none
  claim_found (some job) =
      if leb limits.max_attempts job.attempts then give_up job else take_lease job

  unfoldable pub claim_body : M (Option EmailJob)
  unfolding optional_row
  claim_body = do found ← optional_row (claimable_email run run.now); claim_found found

  -- `claim`
  unfoldable pub claim : M (Option EmailJob)
  claim = transaction run claim_body

  -- one tick of the renewal: what it sends on `renewed` before it returns, and `none` where it goes on;
  -- `stopped` is `renewCtx.Err() != nil` after the call
  unfoldable pub renew : Bool → EmailJob → M (Option Bool)
  renew stopped job = do
    count ←
        attempt (
          renew_email run
            (record { id = job.id; lease_id = job.lease_id; lease_until = lease_end }))
    pure (after_renewal stopped count)

  abbrev pub outcome_status : Bool → JobStatus
  outcome_status true = sent
  outcome_status false = failed

  abbrev pub outcome_notice : Bool → EmailStatus
  outcome_notice true = delivered
  outcome_notice false = undelivered

  unfoldable pub end_job : EmailJob → Bool → M (Option JobStatus)
  end_job job success = do
    complete_email run (record {
      id = job.id;
      status = outcome_status success;
      available_at = run.now;
      completed_at = some run.now;
    })
    set_notification_email_status run job.notification_id (outcome_notice success)
    pure (some (outcome_status success))

  unfoldable pub retry_job : EmailJob → M (Option JobStatus)
  unfolding retry_delay
  retry_job job = do
    complete_email run (record {
      id = job.id;
      status = pending;
      available_at = run.now + retry_delay job.attempts;
      completed_at = none;
    })
    pure (some pending)

  -- the transaction at the end of `deliver`, on the row that it has locked; with the outcome's status
  unfoldable pub settle_job : EmailJob → Bool → EmailJob → M (Option JobStatus)
  settle_job job success current =
      if not (holds_lease run.now job current)
      then pure none
      else if success || leb limits.max_attempts job.attempts
      then end_job job success
      else retry_job job

  unfoldable pub settle_found : EmailJob → Bool → Option EmailJob → M (Option JobStatus)
  unfolding settle_job
  settle_found job success none = pure none
  settle_found job success (some current) = settle_job job success current

  unfoldable pub finish_body : EmailJob → Bool → M (Option JobStatus)
  unfolding optional_row
  finish_body job success = do
    found ← optional_row (lock_email run job.id)
    settle_found job success found

  -- the end of `deliver`, after `Send` has succeeded or not
  unfoldable pub finish : EmailJob → Bool → M (Option JobStatus)
  finish job success = transaction run (finish_body job success)

module _ (limits : Limits) where
  -- the ticks of the renewal at their instants, each with whether the context is done after its call, up
  -- to the first that returns or to `renewCtx.Done()`
  unfoldable pub renewals : Run → List (ℕ × Bool) → EmailJob → M Bool
  renewals run [] job = pure true
  renewals run ((t, stopped) ∷ ts) job = do
    sent_back ← renew limits (record run { now = t }) stopped job
    elim sent_back [ none ↦ renewals run ts job | some renewed ↦ pure renewed ]

  -- `deliver`: `success` is what `Send` answers, at the run's instant, after the ticks
  unfoldable pub deliver : Run → List (ℕ × Bool) → Bool → EmailJob → M (Option JobStatus)
  deliver run ticks success job = do
    renewed ← renewals run ticks job
    elim renewed [ true ↦ finish limits run job success | false ↦ pure none ]
