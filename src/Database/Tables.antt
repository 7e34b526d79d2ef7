-- ===== src/Database/Tables.antt =====
-- internal/db/sqlc/models.go: the rows, with the columns that the migrations declare NOT NULL as
-- plain values and the others as options. An instant is a number of milliseconds since the epoch.
use golang_backend.Base.{ℕ, String, Option, List, []}
use golang_backend.Json.{Json}

pub record Role : Type 0 where
  pub id : String
  pub name : String
  pub created_at : ℕ
  pub updated_at : ℕ

pub record Permission : Type 0 where
  pub id : String
  pub name : String
  pub created_at : ℕ
  pub updated_at : ℕ

pub record RolePermission : Type 0 where
  pub role_id : String
  pub permission_id : String

pub record User : Type 0 where
  pub id : String
  pub email : String
  pub password : String
  pub role_id : String
  pub deleted_at : Option ℕ
  pub created_at : ℕ
  pub updated_at : ℕ

pub record RefreshFamily : Type 0 where
  pub id : String
  pub user_id : String
  pub created_at : ℕ
  pub expires_at : ℕ
  pub revoked_at : Option ℕ

pub record AuthRefreshToken : Type 0 where
  pub id : String
  pub family_id : String
  pub user_id : String
  pub token_hash : String
  pub expires_at : ℕ
  pub created_at : ℕ
  pub revoked_at : Option ℕ

pub record ActivityLog : Type 0 where
  pub id : String
  pub behavior : String
  pub module_name : String
  pub entity_id : Option String
  pub user_id : Option String
  pub actor_id_snapshot : Option String
  pub before : Option Json
  pub after : Option Json
  pub request_id : Option String
  pub endpoint_id : Option String
  pub created_at : ℕ

-- the CHECK on `email_jobs.status`
pub data JobStatus : Type 0 where
  pending processing sent failed : JobStatus

-- the CHECK on `notifications.email_status`
pub data EmailStatus : Type 0 where
  not_requested awaiting delivered undelivered : EmailStatus

pub record Notification : Type 0 where
  pub id : String
  pub recipient_id : String
  pub actor_id : Option String
  pub title : String
  pub body : String
  pub email_status : EmailStatus
  pub read_at : Option ℕ
  pub created_at : ℕ
  pub sequence : ℕ

pub record NotificationCounter : Type 0 where
  pub recipient_id : String
  pub sequence : ℕ

pub record EmailJob : Type 0 where
  pub id : String
  pub notification_id : String
  pub recipient : String
  pub title : String
  pub body : String
  pub status : JobStatus
  pub attempts : ℕ
  pub available_at : ℕ
  pub lease_id : Option String
  pub lease_until : Option ℕ
  pub completed_at : Option ℕ
  pub created_at : ℕ

-- the CHECK on `stored_files.status`; a size is one that the CHECK lets through
pub data FileStatus : Type 0 where
  ready in_progress : FileStatus

pub record StoredFile : Type 0 where
  pub id : String
  pub storage : String
  pub status : FileStatus
  pub object_key : String
  pub original_name : String
  pub mime_type : String
  pub size : ℕ
  pub uploader_id : Option String
  pub created_at : ℕ

pub record Db : Type 0 where
  pub roles : List Role
  pub permissions : List Permission
  pub role_permissions : List RolePermission
  pub users : List User
  pub families : List RefreshFamily
  pub tokens : List AuthRefreshToken
  pub logs : List ActivityLog
  pub notifications : List Notification
  pub counters : List NotificationCounter
  pub email_jobs : List EmailJob
  pub files : List StoredFile

abbrev pub empty_db : Db
empty_db = record {
  roles = [];
  permissions = [];
  role_permissions = [];
  users = [];
  families = [];
  tokens = [];
  logs = [];
  notifications = [];
  counters = [];
  email_jobs = [];
  files = [];
}
