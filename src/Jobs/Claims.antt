-- ===== src/Jobs/Claims.antt =====
-- internal/jobs/worker.go, `claim`: what a claim takes and what it does to the mail.
use golang_backend.Base.{
  some_same, ◌<◌, ◌+◌, ◌*◌, suc, In, String, ◌≡◌, refl, sym, ◌∙◌, ap, subst, true, false, Option,
  none, some, List, [], ◌∷◌, arith, ◌==◌, string_eq, leb, update_where, find_first,
}
use golang_backend.Database.Tables.{Db, EmailJob, processing}
use golang_backend.Database.Action.{
  ok, Run, World, M, draw, transaction, query_row, statement, attempt, raise, pure, ◌>>=◌,
}
use golang_backend.Database.Laws.{bind-ok, pure-ok, if-ok}
use golang_backend.Database.Effects.{exec-ok, query_row-ok, draw-same}
use golang_backend.Database.Outbox.{
  job_at, first_claimable, claimable_email, claim_email, lock_email,
}
use golang_backend.Auth.Session.{optional_row}
use golang_backend.Auth.Families.{optional_row-some}
use golang_backend.Jobs.Worker.{Limits, give_up, take_lease, claim_found, claim_body, claim}
use golang_backend.Jobs.Due.{Due, Earliest, first_claimable-Due}
use golang_backend.Jobs.Lifecycle.{distinct_ids, first_claimable-In, In-job_at}

pub find-update_where :
    (id : String) (f : EmailJob → EmailJob) (js : List EmailJob) (job : EmailJob)
    → ((j : EmailJob) → (f j).id ≡ j.id)
    → find_first (λ j. j.id == id) js ≡ some job
    → find_first (λ j. j.id == id) (update_where (λ j. j.id == id) f js) ≡ some (f job)
find-update_where id f [] job same h = absurd (cc h)
find-update_where id f (j ∷ js) job same h =
    ground (arith, find-update_where id f js job same, same j)

draw-fresh :
    (run : Run) (w : World) {a : String} {w' : World}
    → draw run w ≡ (ok a, w')
    → run.fresh w.drawn ≡ a
unfolding draw
draw-fresh run w h = ground arith

optional_row-drawn :
    {A : Type 0} (run : Run) (f : Db → Option A) (w : World) {r : Option A} {w' : World}
    → optional_row (query_row run f) w ≡ (ok r, w')
    → w'.drawn ≡ w.drawn
unfolding optional_row query_row statement attempt raise pure ◌>>=◌
optional_row-drawn run f w h = ground arith

-- the body of a transaction that succeeds starts with the texts that are not drawn yet
drawn_inside {ℓ} :
    {P : Type ℓ} {A : Type 0} (run : Run) (body : M A) (w : World) {a : A} {w' : World}
    → transaction run body w ≡ (ok a, w')
    → ((v u : World) → v.drawn ≡ w.drawn → v.db ≡ w.db → body v ≡ (ok a, u) → u.db ≡ w'.db → P)
    → P
unfolding transaction
drawn_inside run body w h k =
    let v : World = record w { calls = suc w.calls } in
    k v (body v).1 refl refl (ground arith) (ground arith)

module _ (limits : Limits) (run : Run) where
  -- the row of a mail that is taken: it is processed, tried once more, and leased from now on
  abbrev pub taken_row : String → EmailJob → EmailJob
  taken_row lease job = record job {
    status = processing;
    attempts = suc job.attempts;
    lease_id = some lease;
    lease_until = some (run.now + limits.lease_seconds * 1000);
  }

  -- what a claim that takes a mail under a lease does to it
  pub record Claimed (lease : String) (mine : EmailJob) (d d' : Db) : Type 0 where
    pub job : EmailJob
    pub job_in : In job d.email_jobs
    pub was_due : Due run.now job
    pub was_earliest : Earliest run.now job.available_at d.email_jobs
    pub attempts_left : job.attempts < limits.max_attempts
    pub is_mine : mine ≡ taken_row lease job
    pub stored : job_at mine.id d' ≡ some mine
    pub rows : d'.email_jobs ≡ update_where (λ j. j.id == job.id) (taken_row lease) d.email_jobs

  take_lease-Claimed :
      (job : EmailJob) (d : Db) (w : World) {r : Option EmailJob} {w' : World}
      → w.db ≡ d
      → first_claimable run.now d ≡ some job
      → job_at job.id d ≡ some job
      → leb limits.max_attempts job.attempts ≡ false
      → take_lease limits run job w ≡ (ok r, w')
      → (mine : EmailJob) × (r ≡ some mine) × Claimed (run.fresh w.drawn) mine d w'.db
  unfolding take_lease claim_email lock_email job_at
  take_lease-Claimed job d w {r} {w'} start first at_id left h =
      bind-ok _ _ w h λ lease w1 drawn h1. bind-ok _ _ w1 h1 λ _ w2 claimed h2.
        bind-ok _ _ w2 h2 λ row w3 read end.
          let (value, last) = pure-ok _ w3 end in
          let lease_is : run.fresh w.drawn ≡ lease = draw-fresh run w drawn in
          let (found, same) = query_row-ok run _ w2 read in
          let f = taken_row lease in
          let rows_eq : w2.db.email_jobs ≡ update_where (λ j. j.id == job.id) f d.email_jobs =
            ap Db.email_jobs (exec-ok run _ w1 claimed)
            ∙ ap (λ (d : Db). update_where (λ j. j.id == job.id) f d.email_jobs)
                (draw-same run w drawn ∙ start) in
          let after : w'.db.email_jobs ≡ w2.db.email_jobs =
            ap (λ (v : World). v.db.email_jobs) (sym last) ∙ ap Db.email_jobs same in
          let updated = find-update_where job.id f d.email_jobs job (λ j. refl) at_id in
          let row_eq =
            some_same (sym found ∙ ap (find_first (λ j. j.id == job.id)) rows_eq ∙ updated) in
          let mine = f job in
          let (due, earliest) = first_claimable-Due run.now d job first in
          (
            mine,
            sym value ∙ ap some row_eq,
            subst (λ l. Claimed l mine d w'.db) (sym lease_is)
                (record {
                  job = job;
                  job_in = (first_claimable-In run.now d job first).0;
                  was_due = due;
                  was_earliest = earliest;
                  attempts_left = ground arith;
                  is_mine = refl;
                  stored = ap (find_first (λ j. j.id == job.id)) (after ∙ rows_eq) ∙ updated;
                  rows = after ∙ rows_eq;
                }),
          )

  give_up-none :
      (job : EmailJob) (w : World) {r : Option EmailJob} {w' : World}
      → give_up limits run job w ≡ (ok r, w')
      → r ≡ none
  unfolding give_up
  give_up-none job w h =
      bind-ok _ _ w h λ _ w1 first h1. bind-ok _ _ w1 h1 λ _ w2 second end. sym (pure-ok _ w2 end).0

  claim_found-Claimed :
      (found : Option EmailJob) (w w1 : World) {mine : EmailJob} {w' : World}
      → distinct_ids w.db.email_jobs ≡ true
      → optional_row (claimable_email run run.now) w ≡ (ok found, w1)
      → claim_found limits run found w1 ≡ (ok (some mine), w')
      → Claimed (run.fresh w.drawn) mine w.db w'.db
  unfolding claim_found claimable_email job_at
  claim_found-Claimed none w w1 distinct looked h = absurd (cc (pure-ok none w1 h).0)
  claim_found-Claimed (some job) w w1 {mine} {w'} distinct looked h =
      let (first, same) = optional_row-some run (first_claimable run.now) w looked in
      let (member, _) = first_claimable-In run.now w.db job first in
      if-ok (leb limits.max_attempts job.attempts) _ _ w1 h
        (λ spent go. absurd (cc (give_up-none job w1 go)))
        λ left go.
          let (m, is, done) =
            take_lease-Claimed job w.db w1 same first
              (In-job_at w.db.email_jobs job distinct member) left go in
          let drawn = optional_row-drawn run (first_claimable run.now) w looked in
          subst (λ n. Claimed (run.fresh n) mine w.db w'.db) drawn
            (subst (λ m. Claimed (run.fresh w1.drawn) m w.db w'.db) (some_same (sym is)) done)

  -- Where the ids of the mails differ, a claim that takes a mail takes one that waits and whose time has
  -- come, or that is being processed under a lease that has run out; no mail that is due is available
  -- earlier, and this one has an attempt left. It is stored as being processed, with one attempt more,
  -- under the lease that was drawn for it and up to the lease's length from now; no other mail is
  -- changed.
  pub claim-Claimed :
      (w : World) {mine : EmailJob} {w' : World}
      → distinct_ids w.db.email_jobs ≡ true
      → claim limits run w ≡ (ok (some mine), w')
      → Claimed (run.fresh w.drawn) mine w.db w'.db
  unfolding claim claim_body
  claim-Claimed w {mine} {w'} distinct h =
      drawn_inside run (claim_body limits run) w h λ v u start before ran after.
        bind-ok _ _ v ran λ found v1 looked rest.
          let done =
            claim_found-Claimed found v v1
              (ap (λ (d : Db). distinct_ids d.email_jobs) before ∙ distinct) looked rest in
          subst (Claimed (run.fresh w.drawn) mine w.db) after (
            subst (λ d. Claimed (run.fresh w.drawn) mine d u.db) before
              (subst (λ n. Claimed (run.fresh n) mine v.db u.db) start done))
