-- ===== src/Jobs/Rows.antt =====
-- internal/db/sqlc/jobs.sql.go: the writes on queued mails keep the rows in order.
use golang_backend.Base.{
  ℕ, suc, String, ◌≡◌, refl, ◌∙◌, Bool, true, false, not, ◌&&◌, ◌||◌, none, some, List, [], ◌∷◌,
  arith, ◌==◌, string_eq, leb, all, any, find_first, update_where, all-update_where,
}
use golang_backend.Database.Tables.{EmailJob, pending, processing, sent, failed}
use golang_backend.Database.Outbox.{
  is_over, claim_job, complete_job, CompleteEmailParams, renew_job, renewable, RenewEmailParams,
  new_job, EnqueueEmailParams,
}
use golang_backend.Jobs.Lifecycle.{job_ok, distinct_ids, JobsOk, same_id_passes}

module _ (q : EmailJob → Bool) (f : EmailJob → EmailJob)
    (same : (j : EmailJob) → (f j).id ≡ j.id) where
  any_id-update_where :
      (id : String) (js : List EmailJob)
      → any (λ i. i.id == id) (update_where q f js) ≡ any (λ i. i.id == id) js
  any_id-update_where id [] = refl
  any_id-update_where id (j ∷ js) = ground (arith, any_id-update_where id js, same j)

  pub distinct-update_where :
      (js : List EmailJob) → distinct_ids (update_where q f js) ≡ distinct_ids js
  distinct-update_where [] = refl
  distinct-update_where (j ∷ js) =
      ground (arith, any_id-update_where j.id js, distinct-update_where js, same j)

always : (q : EmailJob → Bool) (js : List EmailJob) → all (λ j. not (q j) || true) js ≡ true
always q [] = refl
always q (j ∷ js) = ground (arith, always q js)

-- a status that ends a job or makes it wait, with what belongs to it
abbrev pub settles : CompleteEmailParams → Bool
settles a = elim a.status [
  | pending ↦ elim a.completed_at [ none ↦ true | some t ↦ false ]
  | processing ↦ false
  | sent ↦ elim a.completed_at [ none ↦ false | some t ↦ true ]
  | failed ↦ elim a.completed_at [ none ↦ false | some t ↦ true ]
]

complete_job_ok :
    (max : ℕ) (a : CompleteEmailParams) (j : EmailJob)
    → settles a ≡ true
    → job_ok max j ≡ true
    → job_ok max (complete_job a j) ≡ true
complete_job_ok max a j h k = ground arith

pub complete-JobsOk :
    (max : ℕ) (a : CompleteEmailParams) (js : List EmailJob)
    → settles a ≡ true
    → JobsOk max js
    → JobsOk max (update_where (λ j. j.id == a.id) (complete_job a) js)
complete-JobsOk max a js h (distinct, rows) =
    let q : EmailJob → Bool = λ j. j.id == a.id in
    (
      distinct-update_where q (complete_job a) (λ j. refl) js ∙ distinct,
      all-update_where (job_ok max) q (λ j. true) (complete_job a) js
          (λ j good _ _. complete_job_ok max a j h good) rows (always q js),
    )

claim_job_ok :
    (max until : ℕ) (lease : String) (j : EmailJob)
    → job_ok max j ≡ true
    → (leb (suc j.attempts) max && not (is_over j.status)) ≡ true
    → job_ok max (claim_job lease until j) ≡ true
claim_job_ok max until lease j h k = ground arith

pub claim-JobsOk :
    (max until : ℕ) (lease : String) (job : EmailJob) (js : List EmailJob)
    → find_first (λ j. j.id == job.id) js ≡ some job
    → leb max job.attempts ≡ false
    → is_over job.status ≡ false
    → JobsOk max js
    → JobsOk max (update_where (λ j. j.id == job.id) (claim_job lease until) js)
claim-JobsOk max until lease job js found left live (distinct, rows) =
    let q : EmailJob → Bool = λ j. j.id == job.id in
    let r : EmailJob → Bool = λ j. leb (suc j.attempts) max && not (is_over j.status) in
    (
      distinct-update_where q (claim_job lease until) (λ j. refl) js ∙ distinct,
      all-update_where (job_ok max) q r (claim_job lease until) js
          (λ j good _ more. claim_job_ok max until lease j good more) rows
          (same_id_passes r js job distinct found (ground arith)),
    )

renew_job_ok :
    (max now : ℕ) (a : RenewEmailParams) (j : EmailJob)
    → job_ok max j ≡ true
    → renewable now a j ≡ true
    → job_ok max (renew_job a.lease_until j) ≡ true
renew_job_ok max now a j h k = ground arith

pub renew-JobsOk :
    (max now : ℕ) (a : RenewEmailParams) (js : List EmailJob)
    → JobsOk max js
    → JobsOk max (update_where (renewable now a) (renew_job a.lease_until) js)
renew-JobsOk max now a js (distinct, rows) = (
  distinct-update_where (renewable now a) (renew_job a.lease_until) (λ j. refl) js ∙ distinct,
  all-update_where (job_ok max) (renewable now a) (λ j. true) (renew_job a.lease_until) js
      (λ j good due _. renew_job_ok max now a j good due) rows (always (renewable now a) js),
)

pub enqueue-JobsOk :
    (max now : ℕ) (a : EnqueueEmailParams) (js : List EmailJob)
    → any (λ j. j.id == a.id || j.notification_id == a.notification_id) js ≡ false
    → JobsOk max js
    → JobsOk max (new_job now a ∷ js)
enqueue-JobsOk max now a js free (distinct, rows) = (ground (arith, no_id js free), ground arith)
  where
    no_id :
        (js : List EmailJob)
        → any (λ j. j.id == a.id || j.notification_id == a.notification_id) js ≡ false
        → any (λ j. j.id == a.id) js ≡ false
    no_id [] h = refl
    no_id (j ∷ js) h = ground (arith, no_id js)
