-- ===== src/Jobs/Lifecycle.antt =====
-- internal/jobs/worker.go: what every step of a worker keeps of the queued mails.
use golang_backend.Base.{
  some_same, ℕ, String, ◌≡◌, refl, sym, ◌∙◌, ap, Bool, true, false, not, ◌&&◌, ◌||◌, Option, none,
  some, List, [], ◌∷◌, arith, ◌==◌, string_eq, leb, if◌then◌else◌, all, any, find_first, keep_if,
  sort_by, inl, inr, ==→eq, In, In-sort_by, In-keep_if,
}
use golang_backend.Database.Tables.{Db, EmailJob, pending, processing, sent, failed}
use golang_backend.Database.Outbox.{claimable, head_of, first_claimable, job_order}

abbrev is_none : {A : Type 0} → Option A → Bool
is_none none = true
is_none (some a) = false

-- the columns of a row agree with its status, and its attempts are within the limit
abbrev pub job_ok : ℕ → EmailJob → Bool
job_ok max j = leb j.attempts max && elim j.status [
  | pending ↦ is_none j.lease_id && (is_none j.lease_until && is_none j.completed_at)
  | processing ↦
      not (is_none j.lease_id)
      && (not (is_none j.lease_until) && (is_none j.completed_at && leb 1 j.attempts))
  | sent ↦ is_none j.lease_id && (is_none j.lease_until && not (is_none j.completed_at))
  | failed ↦ is_none j.lease_id && (is_none j.lease_until && not (is_none j.completed_at))
]

-- the primary key
abbrev pub distinct_ids : List EmailJob → Bool
distinct_ids [] = true
distinct_ids (j ∷ js) = not (any (λ i. i.id == j.id) js) && distinct_ids js

abbrev pub JobsOk : ℕ → List EmailJob → Type 0
JobsOk max js = (distinct_ids js ≡ true) × (all (job_ok max) js ≡ true)

-- of two rows with one name there is one
In-id : (js : List EmailJob) (j : EmailJob) → In j js → any (λ i. i.id == j.id) js ≡ true
In-id [] j h = absurd h
In-id (i ∷ js) j (inl e) = ground (arith, e)
In-id (i ∷ js) j (inr h) = ground (arith, In-id js j h)

in_tail :
    (i j : EmailJob) (js : List EmailJob) (b : Bool)
    → (i.id == j.id) ≡ b
    → any (λ x. x.id == i.id) js ≡ false
    → any (λ x. x.id == j.id) js ≡ true
    → find_first (λ x. x.id == j.id) js ≡ some j
    → (if b then some i else find_first (λ x. x.id == j.id) js) ≡ some j
in_tail i j js true e none_there there rest =
    absurd (cc (sym none_there ∙ ap (λ id. any (λ x. x.id == id) js) (==→eq i.id j.id e) ∙ there))
in_tail i j js false e none_there there rest = rest

pub In-job_at :
    (js : List EmailJob) (j : EmailJob)
    → distinct_ids js ≡ true
    → In j js
    → find_first (λ i. i.id == j.id) js ≡ some j
In-job_at [] j d h = absurd h
In-job_at (i ∷ js) j d (inl e) = ground (arith, e)
In-job_at (i ∷ js) j d (inr h) =
    in_tail i j js (i.id == j.id) refl (ground arith) (In-id js j h)
      (In-job_at js j (ground arith) h)

none_passes :
    (p : EmailJob → Bool) (js : List EmailJob) (id : String)
    → any (λ i. i.id == id) js ≡ false
    → all (λ i. not (i.id == id) || p i) js ≡ true
none_passes p [] id h = refl
none_passes p (i ∷ js) id h = ground (arith, none_passes p js id)

passes_tail :
    (p : EmailJob → Bool) (i j : EmailJob) (js : List EmailJob) (b : Bool)
    → (i.id == j.id) ≡ b
    → any (λ x. x.id == i.id) js ≡ false
    → (if b then some i else find_first (λ x. x.id == j.id) js) ≡ some j
    → p j ≡ true
    → (find_first (λ x. x.id == j.id) js ≡ some j → all (λ x. not (x.id == j.id) || p x) js ≡ true)
    → ((not b || p i) && all (λ x. not (x.id == j.id) || p x) js) ≡ true
passes_tail p i j js true e none_there h k rest =
    let free = ap (λ id. any (λ x. x.id == id) js) (sym (==→eq i.id j.id e)) ∙ none_there in
    ground (arith, none_passes p js j.id free, ap p (some_same h))
passes_tail p i j js false e none_there h k rest = rest h

-- a test that the row passes is passed by every row of its name
pub same_id_passes :
    (p : EmailJob → Bool) (js : List EmailJob) (j : EmailJob)
    → distinct_ids js ≡ true
    → find_first (λ i. i.id == j.id) js ≡ some j
    → p j ≡ true
    → all (λ i. not (i.id == j.id) || p i) js ≡ true
same_id_passes p [] j d h k = refl
same_id_passes p (i ∷ js) j d h k =
    passes_tail p i j js (i.id == j.id) refl (ground arith) h k
      (λ found. same_id_passes p js j (ground arith) found k)

head_of-In : (js : List EmailJob) (j : EmailJob) → head_of js ≡ some j → In j js
head_of-In [] j h = absurd (cc h)
head_of-In (i ∷ js) j h = inl (cc h)

pub first_claimable-In :
    (now : ℕ) (d : Db) (j : EmailJob)
    → first_claimable now d ≡ some j
    → In j d.email_jobs × (claimable now j ≡ true)
unfolding first_claimable
first_claimable-In now d j h =
    let rows = keep_if (claimable now) d.email_jobs in
    In-keep_if (claimable now) d.email_jobs j
      (In-sort_by job_order rows j (head_of-In (sort_by job_order rows) j h))
