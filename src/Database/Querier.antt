-- ===== src/Database/Querier.antt =====
-- internal/db/sqlc/querier.go: the interface `Querier` of the services to a database. The fields have
-- the methods' names.
use golang_backend.Base.{ℕ, String, Bool, List}
use golang_backend.Database.Tables.{
  Role, Permission, User, RefreshFamily, AuthRefreshToken, Notification, EmailStatus, EmailJob,
  StoredFile,
}
use golang_backend.Database.Action.{M}
use golang_backend.Database.Users.{CreateUserParams, UpdateUserParams, ListUsersParams}
use golang_backend.Database.Sessions.{CreateRefreshFamilyParams, CreateAuthRefreshTokenParams}
use golang_backend.Database.Outbox.{EnqueueEmailParams, CompleteEmailParams, RenewEmailParams}
use golang_backend.Database.Notices.{
  CreateNotificationParams, NotificationPageParams, NotificationBacklogParams,
}
use golang_backend.Database.Files.{CreateFileParams}
use golang_backend.Database.Seeds.{SeedUserParams}
use golang_backend.Database.Logs.{InsertAuditParams}

pub record Querier : Type 0 where
  pub assign_role_permission : String → String → M (Unit {0})
  pub claim_email : String → String → ℕ → M (Unit {0})
  pub claimable_email : ℕ → M EmailJob
  pub cleanup_audit : ℕ → ℕ → M (List String)
  pub cleanup_email : ℕ → ℕ → M (List String)
  pub cleanup_families : ℕ → ℕ → M (List String)
  pub clear_role_permissions : String → M (Unit {0})
  pub complete_email : CompleteEmailParams → M (Unit {0})
  pub count_active_permission_holders : String → M ℕ
  pub count_users : String → M ℕ
  pub create_auth_refresh_token : CreateAuthRefreshTokenParams → M (Unit {0})
  pub create_file : CreateFileParams → M StoredFile
  pub create_notification : CreateNotificationParams → M (Unit {0})
  pub create_permission : String → M Permission
  pub create_refresh_family : CreateRefreshFamilyParams → M (Unit {0})
  pub create_role : String → M Role
  pub create_user : CreateUserParams → M User
  pub delete_audit : String → M (Unit {0})
  pub delete_email : String → M (Unit {0})
  pub delete_expired_auth_refresh_tokens : String → M (Unit {0})
  pub delete_family : String → M (Unit {0})
  pub delete_permission : String → M (Unit {0})
  pub delete_role : String → M (Unit {0})
  pub email_backlog_count : M ℕ
  pub email_backlog_oldest : M ℕ
  pub enqueue_email : EnqueueEmailParams → M (Unit {0})
  pub ensure_notification_counter : String → M (Unit {0})
  pub file_referenced : String → String → M Bool
  pub find_active_user_by_email : String → M User
  pub find_active_user_by_id : String → M User
  pub find_auth_refresh_token_by_hash : String → M AuthRefreshToken
  pub find_file : String → M StoredFile
  pub find_notification : String → M Notification
  pub find_permission : String → M Permission
  pub find_role : String → M Role
  pub find_role_by_name : String → M Role
  pub find_user : String → M User
  pub increment_notification_counter : String → M (Unit {0})
  pub insert_audit : InsertAuditParams → M (Unit {0})
  pub list_own_notifications : String → Bool → M (List Notification)
  pub list_permissions : M (List Permission)
  pub list_role_ids_with_permission_name : String → M (List String)
  pub list_role_permission_ids : String → M (List String)
  pub list_role_permissions : String → M (List Permission)
  pub list_roles : M (List Role)
  pub list_users : ListUsersParams → M (List User)
  pub lock_email : String → M EmailJob
  pub lock_own_notification : String → String → M Notification
  pub lock_permission : String → M Permission
  pub lock_permission_by_name : String → M (List String)
  pub lock_refresh_family : String → M RefreshFamily
  pub lock_role : String → M Role
  pub lock_user : String → M User
  pub lookup_auth_refresh_token : String → M AuthRefreshToken
  pub notification_backlog : NotificationBacklogParams → M (List Notification)
  pub notification_cursor : String → String → M ℕ
  pub notification_page : NotificationPageParams → M (List Notification)
  pub notification_sequence : String → M ℕ
  pub read_notification : String → M (Unit {0})
  pub renew_email : RenewEmailParams → M ℕ
  pub revoke_auth_refresh_family : String → M (Unit {0})
  pub revoke_auth_refresh_token : String → M ℕ
  pub revoke_refresh_family_record : String → M (Unit {0})
  pub revoke_user_auth_refresh_tokens : String → M (Unit {0})
  pub revoke_user_refresh_families : String → M (Unit {0})
  pub seed_admin_permissions : M (Unit {0})
  pub seed_permission : String → M (Unit {0})
  pub seed_role : String → M (Unit {0})
  pub seed_user : SeedUserParams → M (Unit {0})
  pub set_notification_email_status : String → EmailStatus → M (Unit {0})
  pub soft_delete_user : String → M (Unit {0})
  pub update_permission : String → String → M Permission
  pub update_role : String → String → M Role
  pub update_user : UpdateUserParams → M User
  pub user_has_permission : String → String → M Bool
