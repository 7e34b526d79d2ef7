-- ===== src/Database/Outbox.antt =====
-- internal/db/sqlc/jobs.sql.go: the statements on queued mails, and those of the cleanup.
use golang_backend.Base.{
  ℕ, suc, String, Bool, true, false, not, ◌&&◌, ◌||◌, Option, none, some, List, [], ◌∷◌, ◌==◌,
  string_eq, nat_eq, ltb, leb, if◌then◌else◌, any, keep_if, find_first, update_where, sort_by,
  text_le, take, length, map,
}
use golang_backend.Fault.{pg}
use golang_backend.Database.Tables.{
  Db, EmailJob, JobStatus, pending, processing, sent, failed, EmailStatus, RefreshFamily,
  ActivityLog,
}
use golang_backend.Database.Action.{Result, ok, err, Run, M, statement, query, query_row, exec}

abbrev pub is_pending : JobStatus → Bool
is_pending pending = true
is_pending _ = false

abbrev pub is_processing : JobStatus → Bool
is_processing processing = true
is_processing _ = false

-- `status IN ('SENT','FAILED')`
abbrev pub is_over : JobStatus → Bool
is_over sent = true
is_over failed = true
is_over _ = false

-- an instant that is there and has come
abbrev pub has_come : ℕ → Option ℕ → Bool
has_come now none = false
has_come now (some t) = leb t now

-- an instant that is there and lies ahead
abbrev pub lies_ahead : ℕ → Option ℕ → Bool
lies_ahead now none = false
lies_ahead now (some t) = ltb now t

abbrev pub is_lease : Option String → Option String → Bool
is_lease (some a) (some b) = a == b
is_lease _ _ = false

-- `(status='PENDING' AND available_at<=$1) OR (status='PROCESSING' AND lease_until<=$1)`
abbrev pub claimable : ℕ → EmailJob → Bool
claimable now j =
    (is_pending j.status && leb j.available_at now)
    || (is_processing j.status && has_come now j.lease_until)

-- `ORDER BY available_at,id`
abbrev pub job_order : EmailJob → EmailJob → Bool
job_order i j =
    if i.available_at == j.available_at
    then text_le i.id j.id
    else leb i.available_at j.available_at

abbrev pub head_of {ℓ} : {A : Type ℓ} → List A → Option A
head_of [] = none
head_of (x ∷ xs) = some x

unfoldable pub first_claimable : ℕ → Db → Option EmailJob
first_claimable now d = head_of (sort_by job_order (keep_if (claimable now) d.email_jobs))

unfoldable pub job_at : String → Db → Option EmailJob
job_at id d = find_first (λ j. j.id == id) d.email_jobs

abbrev pub claim_job : String → ℕ → EmailJob → EmailJob
claim_job lease until j = record j {
  status = processing;
  attempts = suc j.attempts;
  lease_id = some lease;
  lease_until = some until;
}

pub record CompleteEmailParams : Type 0 where
  pub id : String
  pub status : JobStatus
  pub available_at : ℕ
  pub completed_at : Option ℕ

abbrev pub complete_job : CompleteEmailParams → EmailJob → EmailJob
complete_job a j = record j {
  status = a.status;
  available_at = a.available_at;
  completed_at = a.completed_at;
  lease_id = none;
  lease_until = none;
}

pub record RenewEmailParams : Type 0 where
  pub id : String
  pub lease_id : Option String
  pub lease_until : ℕ

-- `id=$2 AND lease_id=$3 AND status='PROCESSING' AND lease_until > now()`
abbrev pub renewable : ℕ → RenewEmailParams → EmailJob → Bool
renewable now a j =
    j.id == a.id
    && (is_lease j.lease_id a.lease_id && (is_processing j.status && lies_ahead now j.lease_until))

abbrev pub renew_job : ℕ → EmailJob → EmailJob
renew_job until j = record j { lease_until = some until }

unfoldable pub renew_jobs : ℕ → RenewEmailParams → Db → Result (ℕ × Db)
renew_jobs now a d = ok (
  length (keep_if (renewable now a) d.email_jobs),
  record d { email_jobs = update_where (renewable now a) (renew_job a.lease_until) d.email_jobs },
)

pub record EnqueueEmailParams : Type 0 where
  pub id : String
  pub notification_id : String
  pub recipient : String
  pub title : String
  pub body : String

-- the columns that the INSERT leaves out have their defaults
abbrev pub new_job : ℕ → EnqueueEmailParams → EmailJob
new_job now a = record {
  id = a.id;
  notification_id = a.notification_id;
  recipient = a.recipient;
  title = a.title;
  body = a.body;
  status = pending;
  attempts = 0;
  available_at = now;
  lease_id = none;
  lease_until = none;
  completed_at = none;
  created_at = now;
}

unfoldable pub insert_job : ℕ → EnqueueEmailParams → Db → Result (Unit {0} × Db)
insert_job now a d =
    if any (λ j. j.id == a.id || j.notification_id == a.notification_id) d.email_jobs
    then err (pg "23505")
    else if any (λ n. n.id == a.notification_id) d.notifications
    then ok (tt, record d { email_jobs = new_job now a ∷ d.email_jobs })
    else err (pg "23503")

-- `revoked_at < $1 OR (revoked_at IS NULL AND expires_at < $1)`
abbrev pub family_is_old : ℕ → RefreshFamily → Bool
family_is_old cutoff f = elim f.revoked_at [
  | none ↦ ltb f.expires_at cutoff
  | some t ↦ ltb t cutoff
]

abbrev ended_before : ℕ → Option ℕ → Bool
ended_before cutoff none = false
ended_before cutoff (some t) = ltb t cutoff

-- `status IN ('SENT','FAILED') AND completed_at < $1`
abbrev pub job_is_old : ℕ → EmailJob → Bool
job_is_old cutoff j = is_over j.status && ended_before cutoff j.completed_at

abbrev pub log_is_old : ℕ → ActivityLog → Bool
log_is_old cutoff l = ltb l.created_at cutoff

-- `ORDER BY id LIMIT $2`, of the names
abbrev pub batch : ℕ → List String → List String
batch size ids = take size (sort_by text_le ids)

-- `ON DELETE CASCADE` of the tokens
unfoldable pub remove_family : String → Db → Db
remove_family id d = record d {
  families = keep_if (λ f. not (f.id == id)) d.families;
  tokens = keep_if (λ t. not (t.family_id == id)) d.tokens;
}

-- `MIN(created_at)`, or an instant where there is no row
abbrev pub oldest : ℕ → List EmailJob → ℕ
oldest now [] = now
oldest now (j ∷ []) = j.created_at
oldest now (j ∷ k ∷ js) =
    let rest = oldest now (k ∷ js) in if leb j.created_at rest then j.created_at else rest

module _ (run : Run) where
  unfoldable pub claimable_email : ℕ → M EmailJob
  claimable_email now = query_row run (first_claimable now)

  unfoldable pub claim_email : String → String → ℕ → M (Unit {0})
  claim_email id lease until = exec run λ d. record d {
    email_jobs = update_where (λ j. j.id == id) (claim_job lease until) d.email_jobs;
  }

  unfoldable pub lock_email : String → M EmailJob
  lock_email id = query_row run (job_at id)

  unfoldable pub complete_email : CompleteEmailParams → M (Unit {0})
  complete_email a =
      exec run λ d. record d {
        email_jobs = update_where (λ j. j.id == a.id) (complete_job a) d.email_jobs;
      }

  unfoldable pub renew_email : RenewEmailParams → M ℕ
  renew_email a = statement run (renew_jobs run.now a)

  unfoldable pub enqueue_email : EnqueueEmailParams → M (Unit {0})
  enqueue_email a = statement run (insert_job run.now a)

  unfoldable pub set_notification_email_status : String → EmailStatus → M (Unit {0})
  set_notification_email_status id status = exec run λ d. record d {
    notifications =
        update_where (λ n. n.id == id) (λ n. record n { email_status = status }) d.notifications;
  }

  unfoldable pub cleanup_families : ℕ → ℕ → M (List String)
  cleanup_families cutoff size =
      query run (λ d. batch size (map RefreshFamily.id (keep_if (family_is_old cutoff) d.families)))

  unfoldable pub cleanup_email : ℕ → ℕ → M (List String)
  cleanup_email cutoff size =
      query run (λ d. batch size (map EmailJob.id (keep_if (job_is_old cutoff) d.email_jobs)))

  unfoldable pub cleanup_audit : ℕ → ℕ → M (List String)
  cleanup_audit cutoff size =
      query run (λ d. batch size (map ActivityLog.id (keep_if (log_is_old cutoff) d.logs)))

  unfoldable pub delete_family : String → M (Unit {0})
  delete_family id = exec run (remove_family id)

  unfoldable pub delete_email : String → M (Unit {0})
  delete_email id =
      exec run λ d. record d { email_jobs = keep_if (λ j. not (j.id == id)) d.email_jobs }

  unfoldable pub delete_audit : String → M (Unit {0})
  delete_audit id = exec run λ d. record d { logs = keep_if (λ l. not (l.id == id)) d.logs }

  -- `count(*) … WHERE status IN ('PENDING','PROCESSING')`
  unfoldable pub email_backlog_count : M ℕ
  email_backlog_count = query run (λ d. length (keep_if (λ j. not (is_over j.status)) d.email_jobs))

  -- `COALESCE(MIN(created_at), now())` of the same rows
  unfoldable pub email_backlog_oldest : M ℕ
  email_backlog_oldest =
      query run (λ d. oldest run.now (keep_if (λ j. not (is_over j.status)) d.email_jobs))
