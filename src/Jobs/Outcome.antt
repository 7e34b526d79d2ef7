-- ===== src/Jobs/Outcome.antt =====
-- internal/jobs/worker.go, the end of `deliver`: what becomes of a mail, said without the code's tests.
use golang_backend.Base.{
  both, ℕ, zero, suc, ◌+◌, ◌-◌, ◌≤◌, ◌<◌, String, ◌≡◌, refl, sym, ap, Bool, true, false, ◌⊎◌, inl,
  inr, Option, none, some, arith, ◌==◌, string_eq, ==→eq, nat_eq, leb, update_where, Bool-cases,
}
use golang_backend.Database.Tables.{Db, EmailJob, JobStatus, pending, processing, sent, failed}
use golang_backend.Database.Action.{ok, Run, World}
use golang_backend.Database.Outbox.{job_at, is_lease, lies_ahead}
use golang_backend.Jobs.Due.{is_processing_lem}
use golang_backend.Jobs.Worker.{Limits, retry_delay, finish, holds_lease, retries, entry_or_last}
use golang_backend.Jobs.Leases.{settlement, finish-Closed}

-- how long a mail waits after so many attempts
abbrev pub waits : ℕ → ℕ
waits zero = 5000
waits (suc zero) = 5000
waits (suc (suc zero)) = 30000
waits (suc (suc (suc zero))) = 120000
waits (suc (suc (suc (suc n)))) = 600000

retry_delay_lem : (n : ℕ) → retry_delay n ≡ waits n
unfolding retry_delay
retry_delay_lem zero = refl
retry_delay_lem (suc zero) = refl
retry_delay_lem (suc (suc zero)) = refl
retry_delay_lem (suc (suc (suc zero))) = refl
retry_delay_lem (suc (suc (suc (suc n)))) =
    let e : suc (suc (suc (suc n))) - 1 ≡ suc (suc (suc n)) = omega arith in
    ap (entry_or_last retries) e

-- what becomes of a mail: its status, when it may be taken, when it was completed
pub record Outcome : Type 0 where
  pub status : JobStatus
  pub available_at : ℕ
  pub completed_at : Option ℕ

abbrev pub with_outcome : Outcome → EmailJob → EmailJob
with_outcome e j = record j {
  status = e.status;
  available_at = e.available_at;
  completed_at = e.completed_at;
  lease_id = none;
  lease_until = none;
}

is_lease_lem :
    (a b : Option String) → is_lease a b ≡ true → (l : String) × (a ≡ some l) × (b ≡ some l)
is_lease_lem none b h = absurd (cc h)
is_lease_lem (some l) none h = absurd (cc h)
is_lease_lem (some l) (some m) h = (l, refl, ap some (sym (==→eq l m h)))

lies_ahead_lem :
    (now : ℕ) (o : Option ℕ) → lies_ahead now o ≡ true → (t : ℕ) × (o ≡ some t) × (now < t)
lies_ahead_lem now none h = absurd (cc h)
lies_ahead_lem now (some t) h = (t, refl, ground arith)

-- a row that is processed under the lease of a copy of it, and the lease has not run out
abbrev pub Held : ℕ → EmailJob → EmailJob → Type 0
Held now job current =
    (current.status ≡ processing)
    × ((l : String) × (current.lease_id ≡ some l) × (job.lease_id ≡ some l))
    × ((t : ℕ) × (current.lease_until ≡ some t) × (now < t))

holds_lease-Held :
    (now : ℕ) (job current : EmailJob) → holds_lease now job current ≡ true → Held now job current
holds_lease-Held now job current h =
    let (kept, rest) = both _ _ h in
    let (leased, ahead) = both _ _ rest in
    (
      is_processing_lem current.status kept,
      is_lease_lem current.lease_id job.lease_id leased,
      lies_ahead_lem now current.lease_until ahead,
    )

module _ (limits : Limits) (run : Run) where
  -- the outcome of a delivery that succeeded or not, by the attempts that the mail has had
  abbrev pub IsOutcome : EmailJob → Bool → Outcome → Type 0
  IsOutcome job success e =
      ((success ≡ true)
        × (e ≡ record { status = sent; available_at = run.now; completed_at = some run.now }))
      ⊎ ((success ≡ false)
          × (limits.max_attempts ≤ job.attempts)
          × (e ≡ record { status = failed; available_at = run.now; completed_at = some run.now }))
      ⊎ ((success ≡ false)
          × (job.attempts < limits.max_attempts)
          × (e ≡ record {
            status = pending;
            available_at = run.now + waits job.attempts;
            completed_at = none;
          }))

  -- what the end of a delivery does: nothing, or the outcome on a row that is held
  abbrev pub Settled : EmailJob → Bool → Option JobStatus → Db → Db → Type 0
  Settled job success none d d' = d' ≡ d
  Settled job success (some status) d d' =
      (current : EmailJob) × (job_at job.id d ≡ some current)
      × Held run.now job current
      × ((e : Outcome) × IsOutcome job success e
          × (status ≡ e.status)
          × (d'.email_jobs ≡ update_where (λ j. j.id == job.id) (with_outcome e) d.email_jobs))

  abbrev outcome : EmailJob → Bool → Outcome
  outcome job success =
      let a = settlement limits run job success in
      record { status = a.status; available_at = a.available_at; completed_at = a.completed_at }

  outcome-IsOutcome :
      (job : EmailJob) (success : Bool) → IsOutcome job success (outcome job success)
  outcome-IsOutcome job true = inl (refl, refl)
  outcome-IsOutcome job false = elim (Bool-cases (leb limits.max_attempts job.attempts)) [
    | inl last ↦ inr (inl (refl, ground (arith, last), rw last refl))
    | inr more ↦
        inr (inr (refl, ground (arith, more), rw (more, retry_delay_lem job.attempts) refl))
  ]

  -- The end of a delivery changes no table, or the mail is still being processed under the lease with
  -- which the worker took it and that lease has not run out. In this case it is sent after a success,
  -- failed after a failure that was the last attempt, and otherwise waits for 5 seconds after the
  -- first attempt, 30 after the second, 2 minutes after the third and 10 minutes after a later one;
  -- it is under no lease then, and every mail of another id is as before.
  pub finish-Settled :
      (job : EmailJob) (success : Bool) (w : World) (r : Option JobStatus) {w' : World}
      → finish limits run job success w ≡ (ok r, w')
      → Settled job success r w.db w'.db
  finish-Settled job success w none h = finish-Closed limits run job success w none h
  finish-Settled job success w (some status) h =
      let (current, at_id, held, status_is, rows) =
        finish-Closed limits run job success w (some status) h in
      (
        current,
        at_id,
        holds_lease-Held run.now job current held,
        (outcome job success, outcome-IsOutcome job success, status_is, rows),
      )
