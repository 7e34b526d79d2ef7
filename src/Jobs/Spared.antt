-- ===== src/Jobs/Spared.antt =====
-- internal/jobs/cleanup.go: the mails that a cleanup leaves in the table.
use golang_backend.Base.{
  ℕ, zero, suc, ◌+◌, ◌*◌, ◌≤◌, String, ◌≡◌, ◌⊎◌, none, some, refl, sym, ◌∙◌, ap, subst, Bool, true,
  false, not, List, [], ◌∷◌, arith, ◌==◌, string_eq, if◌then◌else◌, keep_if, map, take, contains,
  contains-sort_by, text_le, sort_by, In, inl, inr, any,
}
use golang_backend.Database.Tables.{Db, EmailJob, pending, processing}
use golang_backend.Database.Action.{ok, Run, World}
use golang_backend.Database.Outbox.{batch, job_is_old}
use golang_backend.Jobs.Lifecycle.{distinct_ids}
use golang_backend.Jobs.Cleanup.{Retention, Counts, cutoff, cleanup}
use golang_backend.Jobs.Retention.{without, cleaned, cleanup-ok}

contains-take :
    (n : ℕ) (ids : List String) (a : String)
    → contains ids a ≡ false
    → contains (take n ids) a ≡ false
contains-take zero ids a h = refl
contains-take (suc n) [] a h = refl
contains-take (suc n) (id ∷ ids) a h = ground (arith, contains-take n ids a)

contains-batch :
    (n : ℕ) (ids : List String) (a : String)
    → contains ids a ≡ false
    → contains (batch n ids) a ≡ false
contains-batch n ids a h =
    contains-take n (sort_by text_le ids) a (contains-sort_by text_le ids a ∙ h)

-- a name that no row has is not among the names of some of them
unnamed :
    (p : EmailJob → Bool) (id : String) (js : List EmailJob)
    → any (λ i. i.id == id) js ≡ false
    → contains (map EmailJob.id (keep_if p js)) id ≡ false
unnamed p id [] h = refl
unnamed p id (i ∷ js) h = ground (arith, unnamed p id js)

other_name :
    (id : String) (js : List EmailJob) (j : EmailJob)
    → any (λ i. i.id == id) js ≡ false
    → In j js
    → (j.id == id) ≡ false
other_name id [] j h i = absurd i
other_name id (k ∷ js) j h (inl e) = ground (arith, e)
other_name id (k ∷ js) j h (inr i) = ground (arith, other_name id js j (ground arith) i)

not_chosen :
    (p : EmailJob → Bool) (js : List EmailJob) (j : EmailJob)
    → distinct_ids js ≡ true
    → In j js
    → p j ≡ false
    → contains (map EmailJob.id (keep_if p js)) j.id ≡ false
not_chosen p [] j d m h = absurd m
not_chosen p (i ∷ js) j d (inl e) h = ground (arith, e, ap p e, unnamed p i.id js)
not_chosen p (i ∷ js) j d (inr m) h =
    ground (arith, other_name i.id js j (ground arith) m, not_chosen p js j (ground arith) m h)

behind :
    (b : Bool) (i : EmailJob) (js : List EmailJob) (j : EmailJob)
    → In j js
    → In j (if not b then i ∷ js else js)
behind true i js j m = m
behind false i js j m = inr m

In-without :
    (ids : List String) (js : List EmailJob) (j : EmailJob)
    → In j js
    → contains ids j.id ≡ false
    → In j (without EmailJob.id ids js)
In-without ids [] j m h = absurd m
In-without ids (i ∷ js) j (inl e) h =
    rw (ap (λ (k : EmailJob). contains ids k.id) (sym e) ∙ h) (inl e)
In-without ids (i ∷ js) j (inr m) h = behind (contains ids i.id) i _ j (In-without ids js j m h)

-- a mail that is not to be deleted
abbrev pub Wanted : ℕ → ℕ → EmailJob → Type 0
Wanted now days j =
    (j.status ≡ pending)
    ⊎ (j.status ≡ processing)
    ⊎ (j.completed_at ≡ none)
    ⊎ ((t : ℕ) × (j.completed_at ≡ some t) × (now ≤ t + days * 86400000))

Wanted-recent :
    (now days : ℕ) (j : EmailJob) → Wanted now days j → job_is_old (cutoff now days) j ≡ false
Wanted-recent now days j (inl waits) = rw waits refl
Wanted-recent now days j (inr (inl taken)) = rw taken refl
Wanted-recent now days j (inr (inr (inl never))) = ground (arith, never)
Wanted-recent now days j (inr (inr (inr (t, at, late)))) = ground (arith, at, late)

module _ (c : Retention) (run : Run) where
  kept :
      (apply : Bool) (d : Db) (j : EmailJob)
      → distinct_ids d.email_jobs ≡ true
      → In j d.email_jobs
      → job_is_old (cutoff run.now c.outbox_days) j ≡ false
      → In j (cleaned c run apply d).email_jobs
  kept false d j distinct there recent = there
  kept true d j distinct there recent =
      In-without _ d.email_jobs j there
        (contains-batch c.batch_size _ j.id (not_chosen _ d.email_jobs j distinct there recent))

  -- A cleanup that succeeds, applied or not, keeps every queued mail, of those whose ids differ from
  -- one another, that waits, is being processed, has no instant of completion, or was completed no more
  -- than the retention's days ago, and keeps it as it is.
  pub cleanup-In :
      (apply : Bool) (w : World) {counts : Counts} {w' : World} (j : EmailJob)
      → cleanup c run apply w ≡ (ok counts, w')
      → distinct_ids w.db.email_jobs ≡ true
      → In j w.db.email_jobs
      → Wanted run.now c.outbox_days j
      → In j w'.db.email_jobs
  cleanup-In apply w {counts} {w'} j h distinct there wanted =
      subst (λ d. In j (Db.email_jobs d)) (sym (cleanup-ok c run apply w h))
        (kept apply w.db j distinct there (Wanted-recent run.now c.outbox_days j wanted))
