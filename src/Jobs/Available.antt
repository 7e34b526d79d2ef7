-- ===== src/Jobs/Available.antt =====
-- internal/jobs/worker.go, `claim`: where a mail is due, one is found that has an attempt left.
use golang_backend.Base.{
  ℕ, In, ◌≤◌, ◌<◌, subst, ◌≡◌, refl, sym, ap, ◌∙◌, ◌⊎◌, inl, inr, true, some, List, [], ◌∷◌, arith,
  nat_eq, if◌then◌else◌, keep_if, insert_by, sort_by, Bool-cases,
}
use golang_backend.Database.Tables.{Db, EmailJob}
use golang_backend.Database.Outbox.{claimable, job_order, head_of, first_claimable}
use golang_backend.Jobs.Lifecycle.{first_claimable-In}
use golang_backend.Jobs.Due.{Due, Earliest, Due-claimable, first_claimable-Due}

-- every mail that is due, and available at an instant or before it, has an attempt left
abbrev pub Spare : ℕ → ℕ → ℕ → List EmailJob → Type 0
Spare now max end [] = Unit {0}
Spare now max end (j ∷ js) =
    ((Due now j → ⊥) ⊎ ((end < j.available_at) ⊎ (j.attempts < max))) × Spare now max end js

head_some :
    (x : EmailJob) (ys : List EmailJob)
    → (f : EmailJob) × (head_of (insert_by job_order x ys) ≡ some f)
head_some x [] = (x, refl)
head_some x (y ∷ ys) = elim (Bool-cases (job_order x y)) [
  | inl before ↦ (x, ground (arith, before))
  | inr after ↦ (y, ground (arith, after))
]

found_among :
    (now : ℕ) (js : List EmailJob) (job : EmailJob)
    → In job js
    → claimable now job ≡ true
    → (f : EmailJob) × (head_of (sort_by job_order (keep_if (claimable now) js)) ≡ some f)
found_among now [] job there due = absurd there
found_among now (j ∷ js) job there due = elim (Bool-cases (claimable now j)) [
  | inl first ↦
      let (f, h) = head_some j (sort_by job_order (keep_if (claimable now) js)) in
      (
        f,
        ap
              (λ b. head_of (
                sort_by job_order
                  (if b then j ∷ keep_if (claimable now) js else keep_if (claimable now) js)))
              first
            ∙ h,
      )
  | inr passed ↦ elim there [
    | inl e ↦ absurd (cc (sym passed ∙ ap (claimable now) (sym e) ∙ due))
    | inr behind ↦
        let (f, h) = found_among now js job behind due in
        (
          f,
          ap
                (λ b. head_of (
                  sort_by job_order
                    (if b then j ∷ keep_if (claimable now) js else keep_if (claimable now) js)))
                passed
              ∙ h,
        )
  ]
]

Earliest-In :
    (now start : ℕ) (js : List EmailJob) (job : EmailJob)
    → Earliest now start js
    → In job js
    → Due now job
    → start ≤ job.available_at
Earliest-In now start [] job h there due = absurd there
Earliest-In now start (j ∷ js) job (inl free, h) (inl e) due = absurd (free (subst (Due now) e due))
Earliest-In now start (j ∷ js) job (inr le, h) (inl e) due = ground (arith, le, e)
Earliest-In now start (j ∷ js) job (_, h) (inr there) due = Earliest-In now start js job h there due

Spare-In :
    (now max end : ℕ) (js : List EmailJob) (f : EmailJob)
    → Spare now max end js
    → In f js
    → Due now f
    → f.available_at ≤ end
    → f.attempts < max
Spare-In now max end [] f h there due le = absurd there
Spare-In now max end (j ∷ js) f (inl free, h) (inl e) due le = absurd (free (subst (Due now) e due))
Spare-In now max end (j ∷ js) f (inr (inl late), h) (inl e) due le =
    absurd (omega (arith, late, subst (λ (k : EmailJob). k.available_at ≤ end) e le))
Spare-In now max end (j ∷ js) f (inr (inr left), h) (inl e) due le =
    subst (λ (k : EmailJob). k.attempts < max) (sym e) left
Spare-In now max end (j ∷ js) f (_, h) (inr there) due le = Spare-In now max end js f h there due le

-- a mail that is due is taken, or another one that is due no later, with an attempt left
pub available_lem :
    (now max : ℕ) (d : Db) (job : EmailJob)
    → In job d.email_jobs
    → Due now job
    → Spare now max job.available_at d.email_jobs
    → (f : EmailJob) × (first_claimable now d ≡ some f) × (f.attempts < max)
unfolding first_claimable
available_lem now max d job there due spare =
    let (f, h) = found_among now d.email_jobs job there (Due-claimable now job due) in
    let (f_due, earliest) = first_claimable-Due now d f h in
    let f_in = (first_claimable-In now d f h).0 in
    let le = Earliest-In now f.available_at d.email_jobs job earliest there due in
    (f, h, Spare-In now max job.available_at d.email_jobs f spare f_in f_due le)
