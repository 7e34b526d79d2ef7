-- ===== src/Jobs/Due.antt =====
-- internal/db/sqlc/outbox.sql.go, `ClaimableEmail`: which mails are due, and which is the earliest.
use golang_backend.Base.{
  some_same, ℕ, ◌≤◌, ◌≡◌, refl, sym, ap, ◌∙◌, ◌⊎◌, inl, inr, Bool, true, false, ◌&&◌, Option, none,
  some, List, [], ◌∷◌, arith, ◌==◌, nat_eq, leb, if◌then◌else◌, keep_if, all, insert_by, sort_by,
  Bool-cases,
}
use golang_backend.Database.Tables.{Db, EmailJob, JobStatus, pending, processing, sent, failed}
use golang_backend.Database.Outbox.{
  is_pending, is_processing, has_come, claimable, job_order, head_of, first_claimable,
}
use golang_backend.Jobs.Lifecycle.{first_claimable-In}

-- a mail that a worker may take: one that waits and whose time has come, or one whose lease has run out
abbrev pub Due : ℕ → EmailJob → Type 0
Due now j =
    ((j.status ≡ pending) × (j.available_at ≤ now))
    ⊎ ((j.status ≡ processing) × ((t : ℕ) × (j.lease_until ≡ some t) × (t ≤ now)))

-- no mail that is due is available before an instant
abbrev pub Earliest : ℕ → ℕ → List EmailJob → Type 0
Earliest now start [] = Unit {0}
Earliest now start (j ∷ js) = ((Due now j → ⊥) ⊎ (start ≤ j.available_at)) × Earliest now start js

is_pending_lem : (s : JobStatus) → is_pending s ≡ true → s ≡ pending
is_pending_lem pending h = refl
is_pending_lem processing h = absurd (cc h)
is_pending_lem sent h = absurd (cc h)
is_pending_lem failed h = absurd (cc h)

pub is_processing_lem : (s : JobStatus) → is_processing s ≡ true → s ≡ processing
is_processing_lem processing h = refl
is_processing_lem pending h = absurd (cc h)
is_processing_lem sent h = absurd (cc h)
is_processing_lem failed h = absurd (cc h)

has_come_lem : (now : ℕ) (o : Option ℕ) → has_come now o ≡ true → (t : ℕ) × (o ≡ some t) × (t ≤ now)
has_come_lem now none h = absurd (cc h)
has_come_lem now (some t) h = (t, refl, ground arith)

claimable-Due : (now : ℕ) (j : EmailJob) → claimable now j ≡ true → Due now j
claimable-Due now j h = elim (Bool-cases (is_pending j.status && leb j.available_at now)) [
  | inl waits ↦ inl (is_pending_lem j.status (ground (arith, waits)), ground (arith, waits))
  | inr other ↦ inr (
    is_processing_lem j.status (ground (arith, other, h)),
    has_come_lem now j.lease_until (ground (arith, other, h)),
  )
]

pub Due-claimable : (now : ℕ) (j : EmailJob) → Due now j → claimable now j ≡ true
Due-claimable now j (inl (waits, come)) = rw waits (ground (arith, come))
Due-claimable now j (inr (taken, (t, until, over))) = rw taken rw until (ground (arith, over))

abbrev from : ℕ → EmailJob → Bool
from start j = leb start j.available_at

all_from : (a b : ℕ) (js : List EmailJob) → a ≤ b → all (from b) js ≡ true → all (from a) js ≡ true
all_from a b [] h k = refl
all_from a b (j ∷ js) h k = ground (arith, all_from a b js h)

all-insert_by :
    (p : EmailJob → Bool) (x : EmailJob) (ys : List EmailJob)
    → all p (insert_by job_order x ys) ≡ (p x && all p ys)
all-insert_by p x [] = refl
all-insert_by p x (y ∷ ys) = ground (arith, all-insert_by p x ys)

all-sort_by : (p : EmailJob → Bool) (xs : List EmailJob) → all p (sort_by job_order xs) ≡ all p xs
all-sort_by p [] = refl
all-sort_by p (x ∷ xs) =
    all-insert_by p x (sort_by job_order xs) ∙ ap (λ b. p x && b) (all-sort_by p xs)

abbrev HeadFirst : List EmailJob → Type 0
HeadFirst js = (j : EmailJob) → head_of js ≡ some j → all (from j.available_at) js ≡ true

ordered : (x y : EmailJob) → job_order x y ≡ true → x.available_at ≤ y.available_at
ordered x y h = elim (Bool-cases (x.available_at == y.available_at)) [
  | inl same ↦ ground (arith, same)
  | inr apart ↦ ground (arith, apart, h)
]

unordered : (x y : EmailJob) → job_order x y ≡ false → y.available_at ≤ x.available_at
unordered x y h = elim (Bool-cases (x.available_at == y.available_at)) [
  | inl same ↦ ground (arith, same)
  | inr apart ↦ ground (arith, apart, h)
]

insert_by-HeadFirst :
    (x : EmailJob) (ys : List EmailJob) → HeadFirst ys → HeadFirst (insert_by job_order x ys)
insert_by-HeadFirst x [] first j h = ground (arith, h)
insert_by-HeadFirst x (y ∷ ys) first j h =
    let rest : all (from y.available_at) (y ∷ ys) ≡ true = first y refl in
    elim (Bool-cases (job_order x y)) [
      | inl before ↦
          let e : x ≡ j = some_same (
            sym (ap (λ b. head_of (if b then x ∷ y ∷ ys else y ∷ insert_by job_order x ys)) before)
            ∙ h) in
          let le = ordered x y before in
          ap (λ (k : EmailJob). all (from k.available_at) (insert_by job_order x (y ∷ ys))) (sym e)
          ∙ all-insert_by (from x.available_at) x (y ∷ ys)
          ∙ ground (arith, le, all_from x.available_at y.available_at ys le, rest)
      | inr after ↦
          let e : y ≡ j = some_same (
            sym (ap (λ b. head_of (if b then x ∷ y ∷ ys else y ∷ insert_by job_order x ys)) after)
            ∙ h) in
          let le = unordered x y after in
          ap (λ (k : EmailJob). all (from k.available_at) (insert_by job_order x (y ∷ ys))) (sym e)
          ∙ all-insert_by (from y.available_at) x (y ∷ ys)
          ∙ ground (arith, le, rest)
    ]

sort_by-HeadFirst : (xs : List EmailJob) → HeadFirst (sort_by job_order xs)
sort_by-HeadFirst [] j h = refl
sort_by-HeadFirst (x ∷ xs) j h =
    insert_by-HeadFirst x (sort_by job_order xs) (sort_by-HeadFirst xs) j h

keep_if-Earliest :
    (now start : ℕ) (js : List EmailJob)
    → all (from start) (keep_if (claimable now) js) ≡ true
    → Earliest now start js
keep_if-Earliest now start [] h = tt
keep_if-Earliest now start (j ∷ js) h = elim (Bool-cases (claimable now j)) [
  | inl due ↦ (inr (ground (arith, due, h)), keep_if-Earliest now start js (ground (arith, due, h)))
  | inr free ↦ (
    inl (λ due. cc (sym free ∙ Due-claimable now j due)),
    keep_if-Earliest now start js (ground (arith, free, h)),
  )
]

pub first_claimable-Due :
    (now : ℕ) (d : Db) (j : EmailJob)
    → first_claimable now d ≡ some j
    → Due now j × Earliest now j.available_at d.email_jobs
unfolding first_claimable
first_claimable-Due now d j h =
    let rows = keep_if (claimable now) d.email_jobs in
    (
      claimable-Due now j (first_claimable-In now d j h).1,
      keep_if-Earliest now j.available_at d.email_jobs
          (sym (all-sort_by (from j.available_at) rows) ∙ sort_by-HeadFirst rows j h),
    )
