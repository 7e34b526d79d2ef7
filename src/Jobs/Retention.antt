-- ===== src/Jobs/Retention.antt =====
-- internal/jobs/cleanup.go: what a cleanup removes, and what it spares.
use golang_backend.Base.{
  String, ◌≡◌, refl, sym, ◌∙◌, ap, Bool, true, false, not, List, [], ◌∷◌, arith, ◌==◌, string_eq,
  if◌then◌else◌, keep_if, map, contains,
}
use golang_backend.Database.Tables.{Db, RefreshFamily, AuthRefreshToken, EmailJob, ActivityLog}
use golang_backend.Database.Action.{ok, Run, World, for_each, exec}
use golang_backend.Database.Laws.{bind-ok, if-ok, pure-ok, transaction-ok}
use golang_backend.Database.Effects.{query-ok, exec-ok}
use golang_backend.Database.Outbox.{
  batch, family_is_old, job_is_old, log_is_old, remove_family, cleanup_families, cleanup_email,
  cleanup_audit, delete_family, delete_email, delete_audit,
}
use golang_backend.Jobs.Cleanup.{
  Retention, Counts, cutoff, find_logs, delete_found, delete_if, cleanup_body, cleanup,
}

-- a table without the rows that some names refer to
abbrev pub without : {A : Type 0} → (A → String) → List String → List A → List A
without name ids rows = keep_if (λ a. not (contains ids (name a))) rows

without-none : {A : Type 0} (name : A → String) (rows : List A) → without name [] rows ≡ rows
without-none name [] = refl
without-none name (a ∷ rows) = ap (λ rs. a ∷ rs) (without-none name rows)

without-more :
    {A : Type 0} (name : A → String) (id : String) (ids : List String) (rows : List A)
    → without name ids (keep_if (λ a. not (name a == id)) rows) ≡ without name (id ∷ ids) rows
without-more name id ids [] = refl
without-more name id ids (a ∷ rows) = ground (arith, without-more name id ids rows)

-- the loops of the cleanup
apply_all : (String → Db → Db) → List String → Db → Db
apply_all f [] d = d
apply_all f (id ∷ ids) d = apply_all f ids (f id d)

for_each-exec :
    (run : Run) (f : String → Db → Db) (ids : List String) (w : World) {w' : World}
    → for_each ids (λ id. exec run (f id)) w ≡ (ok tt, w')
    → w'.db ≡ apply_all f ids w.db
unfolding for_each apply_all
for_each-exec run f [] w h = ap World.db (sym (pure-ok tt w h).1)
for_each-exec run f (id ∷ ids) w h = bind-ok _ _ w h λ _ w1 first rest.
    for_each-exec run f ids w1 rest ∙ ap (apply_all f ids) (exec-ok run (f id) w first)

remove_email : String → Db → Db
remove_email id d = record d { email_jobs = keep_if (λ j. not (j.id == id)) d.email_jobs }

remove_log : String → Db → Db
remove_log id d = record d { logs = keep_if (λ l. not (l.id == id)) d.logs }

both :
    (d : Db) {fs gs : List RefreshFamily} {ts us : List AuthRefreshToken}
    → fs ≡ gs
    → ts ≡ us
    → record d { families = fs; tokens = ts } ≡ record d { families = gs; tokens = us }
both d {fs} {gs} {ts} {us} f t =
    ap (λ x. record d { families = x; tokens = ts }) f
    ∙ ap (λ x. record d { families = gs; tokens = x }) t

families_removed :
    (ids : List String) (d : Db)
    → apply_all remove_family ids d ≡ record d {
      families = without RefreshFamily.id ids d.families;
      tokens = without AuthRefreshToken.family_id ids d.tokens;
    }
unfolding apply_all remove_family
families_removed [] d =
    both d (sym (without-none RefreshFamily.id d.families))
      (sym (without-none AuthRefreshToken.family_id d.tokens))
families_removed (id ∷ ids) d =
    families_removed ids (remove_family id d)
    ∙ both d (without-more RefreshFamily.id id ids d.families)
        (without-more AuthRefreshToken.family_id id ids d.tokens)

emails_removed :
    (ids : List String) (d : Db)
    → apply_all remove_email ids d ≡ record d { email_jobs = without EmailJob.id ids d.email_jobs }
unfolding apply_all remove_email
emails_removed [] d =
    ap (λ js. record d { email_jobs = js }) (sym (without-none EmailJob.id d.email_jobs))
emails_removed (id ∷ ids) d =
    emails_removed ids (remove_email id d)
    ∙ ap (λ js. record d { email_jobs = js }) (without-more EmailJob.id id ids d.email_jobs)

logs_removed :
    (ids : List String) (d : Db)
    → apply_all remove_log ids d ≡ record d { logs = without ActivityLog.id ids d.logs }
unfolding apply_all remove_log
logs_removed [] d = ap (λ ls. record d { logs = ls }) (sym (without-none ActivityLog.id d.logs))
logs_removed (id ∷ ids) d =
    logs_removed ids (remove_log id d)
    ∙ ap (λ ls. record d { logs = ls }) (without-more ActivityLog.id id ids d.logs)

-- the tables without some families, mails and records
abbrev removed : List String → List String → List String → Db → Db
removed families emails logs d = record d {
  families = without RefreshFamily.id families d.families;
  tokens = without AuthRefreshToken.family_id families d.tokens;
  email_jobs = without EmailJob.id emails d.email_jobs;
  logs = without ActivityLog.id logs d.logs;
}

module _ (c : Retention) (run : Run) where
  -- the batches of a cleanup
  abbrev old_families : Db → List String
  old_families d =
      batch c.batch_size
        (map RefreshFamily.id (keep_if (family_is_old (cutoff run.now c.session_days)) d.families))

  abbrev old_emails : Db → List String
  old_emails d =
      batch c.batch_size
        (map EmailJob.id (keep_if (job_is_old (cutoff run.now c.outbox_days)) d.email_jobs))

  abbrev old_logs : Db → List String
  old_logs d =
      if c.audit_enabled
      then batch c.batch_size
          (map ActivityLog.id (keep_if (log_is_old (cutoff run.now c.audit_days)) d.logs))
      else []

  -- the tables without the batches
  abbrev pub cleaned : Bool → Db → Db
  cleaned false d = d
  cleaned true d = removed (old_families d) (old_emails d) (old_logs d) d

  find_logs-ok :
      (w : World) {ids : List String} {w' : World}
      → find_logs c run w ≡ (ok ids, w')
      → (old_logs w.db ≡ ids) × (w'.db ≡ w.db)
  unfolding find_logs cleanup_audit
  find_logs-ok w h =
      if-ok c.audit_enabled _ _ w h
        (λ on found. let (ids_eq, same) = query-ok run _ w found in (rw on ids_eq, same))
        λ off end. let (value, last) = pure-ok _ w end in (rw off value, ap World.db (sym last))

  delete_found-ok :
      (families emails logs : List String) (w : World) {w' : World}
      → delete_found c run families emails logs w ≡ (ok tt, w')
      → w'.db ≡ removed families emails logs w.db
  unfolding delete_found delete_family delete_email delete_audit remove_email remove_log
  delete_found-ok families emails logs w h = bind-ok _ _ w h λ _ w1 first h1.
      bind-ok _ _ w1 h1 λ _ w2 second third.
        let e1 =
          for_each-exec run remove_family families w first ∙ families_removed families w.db in
        let e2 = for_each-exec run remove_email emails w1 second ∙ emails_removed emails w1.db in
        let e3 = for_each-exec run remove_log logs w2 third ∙ logs_removed logs w2.db in
        let without_logs : Db → Db = λ d. record d { logs = without ActivityLog.id logs d.logs } in
        let without_emails : Db → Db =
          λ d. record d { email_jobs = without EmailJob.id emails d.email_jobs } in
        e3 ∙ ap without_logs (e2 ∙ ap without_emails e1)

  delete_if-ok :
      (apply : Bool) (families emails logs : List String) (d : Db) (w : World) {w' : World}
      → old_families d ≡ families
      → old_emails d ≡ emails
      → old_logs d ≡ logs
      → w.db ≡ d
      → delete_if c run apply families emails logs w ≡ (ok tt, w')
      → w'.db ≡ cleaned apply d
  unfolding delete_if
  delete_if-ok true families emails logs d w f e l same h =
      delete_found-ok families emails logs w h
      ∙ ap (removed families emails logs) same
      ∙ sym (ap (λ x. removed families emails x d) l)
      ∙ sym (ap (λ x. removed families x (old_logs d) d) e)
      ∙ sym (ap (λ x. removed x (old_emails d) (old_logs d) d) f)
  delete_if-ok false families emails logs d w f e l same h =
      ap World.db (sym (pure-ok tt w h).1) ∙ same

  cleanup_body-ok :
      (apply : Bool) (w : World) {counts : Counts} {w' : World}
      → cleanup_body c run apply w ≡ (ok counts, w')
      → w'.db ≡ cleaned apply w.db
  unfolding cleanup_body cleanup_families cleanup_email
  cleanup_body-ok apply w h = bind-ok _ _ w h λ families w1 r1 h1.
      bind-ok _ _ w1 h1 λ emails w2 r2 h2. bind-ok _ _ w2 h2 λ logs w3 r3 h3.
        bind-ok _ _ w3 h3 λ _ w4 done end.
          let (f, e1) = query-ok run _ w r1 in
          let (e, e2) = query-ok run _ w1 r2 in
          let (l, e3) = find_logs-ok w2 r3 in
          let (_, last) = pure-ok _ w4 end in
          ap World.db (sym last)
          ∙ delete_if-ok apply families emails logs w.db w3 f (ap old_emails (sym e1) ∙ e)
              (ap old_logs (sym (e2 ∙ e1)) ∙ l) (e3 ∙ e2 ∙ e1) done

  -- A cleanup that succeeds leaves the tables as they are unless it is told to apply itself; then it
  -- takes out of them one batch each of the families that ended before their cutoff with their tokens, of
  -- the mails that were done before theirs, and, if the audit is to be cleaned, of the records made
  -- before theirs, and nothing else.
  pub cleanup-ok :
      (apply : Bool) (w : World) {counts : Counts} {w' : World}
      → cleanup c run apply w ≡ (ok counts, w')
      → w'.db ≡ cleaned apply w.db
  unfolding cleanup
  cleanup-ok apply w h =
      transaction-ok run _ w h λ v u before body after.
        sym after ∙ cleanup_body-ok apply v body ∙ ap (cleaned apply) before
