-- ===== src/Mysql/Contract.antt =====
-- internal/db/mysql_adapter.go: what the adapter owes to its clients, for each method of `Querier` but
-- `EmailBacklogOldest`, whose instant MySQL rounds to the second.
use golang_backend.Base.{ℕ, String, Bool}
use golang_backend.Library.{Library}
use golang_backend.Database.Tables.{EmailStatus}
use golang_backend.Database.Action.{Run, World, M}
use golang_backend.Database.Users.{CreateUserParams, UpdateUserParams, ListUsersParams}
use golang_backend.Database.Sessions.{CreateRefreshFamilyParams, CreateAuthRefreshTokenParams}
use golang_backend.Database.Outbox.{EnqueueEmailParams, CompleteEmailParams, RenewEmailParams}
use golang_backend.Database.Notices.{
  CreateNotificationParams, NotificationPageParams, NotificationBacklogParams,
}
use golang_backend.Database.Files.{CreateFileParams}
use golang_backend.Database.Seeds.{SeedUserParams}
use golang_backend.Database.Logs.{InsertAuditParams}
use golang_backend.Database.Querier.{Querier}
use golang_backend.Mysql.Simulation.{Always, Implements}
use golang_backend.Mysql.Conditions.{
  Fits, UserFits, UpdateFits, PageAsked, FileFits, NoticeFits, MailFits, LogFits, LeaseMoves,
  NewRole, NewPermission, NewUser, Spelled, SomeSpelled,
}

module _ (lib : Library) (m p : Run → Querier) where
  -- one method of the two
  abbrev pub Meets : {A : Type 0} → (Run → World → Type 0) → (Querier → M A) → Type 0
  Meets Pre method = Implements Pre (λ run. method (m run)) (λ run. method (p run))

  pub record RoleMethods : Type 0 where
    pub assign_role_permission :
        (id : String) (name : String)
        → Meets (Spelled lib id (Spelled lib name Always)) (λ q. q.assign_role_permission id name)
    pub clear_role_permissions :
        (id : String) → Meets (Spelled lib id Always) (λ q. q.clear_role_permissions id)
    pub create_role : (name : String) → Meets (Fits 64 name) (λ q. q.create_role name)
    pub delete_role : (id : String) → Meets (Spelled lib id Always) (λ q. q.delete_role id)
    pub find_role : (id : String) → Meets (Spelled lib id Always) (λ q. q.find_role id)
    pub find_role_by_name : (id : String) → Meets Always (λ q. q.find_role_by_name id)
    pub list_role_permission_ids :
        (id : String) → Meets (Spelled lib id Always) (λ q. q.list_role_permission_ids id)
    pub list_role_permissions :
        (id : String) → Meets (Spelled lib id Always) (λ q. q.list_role_permissions id)
    pub list_roles : Meets Always (λ q. q.list_roles)
    pub lock_role : (id : String) → Meets (Spelled lib id Always) (λ q. q.lock_role id)
    pub update_role :
        (id : String) (name : String)
        → Meets (Spelled lib id (Fits 64 name)) (λ q. q.update_role id name)

  pub record PermissionMethods : Type 0 where
    pub count_active_permission_holders :
        (id : String) → Meets Always (λ q. q.count_active_permission_holders id)
    pub create_permission : (name : String) → Meets (Fits 128 name) (λ q. q.create_permission name)
    pub delete_permission :
        (id : String) → Meets (Spelled lib id Always) (λ q. q.delete_permission id)
    pub find_permission : (id : String) → Meets (Spelled lib id Always) (λ q. q.find_permission id)
    pub list_permissions : Meets Always (λ q. q.list_permissions)
    pub list_role_ids_with_permission_name :
        (id : String) → Meets Always (λ q. q.list_role_ids_with_permission_name id)
    pub lock_permission : (id : String) → Meets (Spelled lib id Always) (λ q. q.lock_permission id)
    pub lock_permission_by_name : (id : String) → Meets Always (λ q. q.lock_permission_by_name id)
    pub update_permission :
        (id : String) (name : String)
        → Meets (Spelled lib id (Fits 128 name)) (λ q. q.update_permission id name)

  pub record UserMethods : Type 0 where
    pub count_users : (id : String) → Meets Always (λ q. q.count_users id)
    pub create_user :
        (a : CreateUserParams)
        → Meets (Spelled lib a.role_id (UserFits lib a)) (λ q. q.create_user a)
    pub find_active_user_by_email :
        (id : String) → Meets Always (λ q. q.find_active_user_by_email id)
    pub find_active_user_by_id :
        (id : String) → Meets (Spelled lib id Always) (λ q. q.find_active_user_by_id id)
    pub find_user : (id : String) → Meets (Spelled lib id Always) (λ q. q.find_user id)
    pub list_users : (a : ListUsersParams) → Meets (PageAsked a) (λ q. q.list_users a)
    pub lock_user : (id : String) → Meets (Spelled lib id Always) (λ q. q.lock_user id)
    pub soft_delete_user :
        (id : String) → Meets (Spelled lib id Always) (λ q. q.soft_delete_user id)
    pub update_user :
        (a : UpdateUserParams)
        → Meets
            (Spelled lib a.id (SomeSpelled lib a.role_id (UpdateFits lib a)))
            (λ q. q.update_user a)

  pub record SessionMethods : Type 0 where
    pub create_auth_refresh_token :
        (a : CreateAuthRefreshTokenParams)
        → Meets
            (Spelled lib a.family_id (Spelled lib a.user_id Always))
            (λ q. q.create_auth_refresh_token a)
    pub create_refresh_family :
        (a : CreateRefreshFamilyParams)
        → Meets (Spelled lib a.id (Spelled lib a.user_id Always)) (λ q. q.create_refresh_family a)
    pub delete_expired_auth_refresh_tokens :
        (id : String) → Meets (Spelled lib id Always) (λ q. q.delete_expired_auth_refresh_tokens id)
    pub find_auth_refresh_token_by_hash :
        (id : String) → Meets Always (λ q. q.find_auth_refresh_token_by_hash id)
    pub lock_refresh_family :
        (id : String) → Meets (Spelled lib id Always) (λ q. q.lock_refresh_family id)
    pub lookup_auth_refresh_token :
        (id : String) → Meets Always (λ q. q.lookup_auth_refresh_token id)
    pub revoke_auth_refresh_family :
        (id : String) → Meets (Spelled lib id Always) (λ q. q.revoke_auth_refresh_family id)
    pub revoke_auth_refresh_token :
        (id : String) → Meets (Spelled lib id Always) (λ q. q.revoke_auth_refresh_token id)
    pub revoke_refresh_family_record :
        (id : String) → Meets (Spelled lib id Always) (λ q. q.revoke_refresh_family_record id)
    pub revoke_user_auth_refresh_tokens :
        (id : String) → Meets (Spelled lib id Always) (λ q. q.revoke_user_auth_refresh_tokens id)
    pub revoke_user_refresh_families :
        (id : String) → Meets (Spelled lib id Always) (λ q. q.revoke_user_refresh_families id)
    pub user_has_permission :
        (id : String) (name : String)
        → Meets (Spelled lib id Always) (λ q. q.user_has_permission id name)

  pub record MailMethods : Type 0 where
    pub claim_email :
        (id : String) (name : String) (cutoff : ℕ)
        → Meets (Spelled lib id (Spelled lib name Always)) (λ q. q.claim_email id name cutoff)
    pub claimable_email : (cutoff : ℕ) → Meets Always (λ q. q.claimable_email cutoff)
    pub cleanup_audit : (cutoff : ℕ) (size : ℕ) → Meets Always (λ q. q.cleanup_audit cutoff size)
    pub cleanup_email : (cutoff : ℕ) (size : ℕ) → Meets Always (λ q. q.cleanup_email cutoff size)
    pub cleanup_families :
        (cutoff : ℕ) (size : ℕ) → Meets Always (λ q. q.cleanup_families cutoff size)
    pub complete_email :
        (a : CompleteEmailParams) → Meets (Spelled lib a.id Always) (λ q. q.complete_email a)
    pub delete_audit : (id : String) → Meets (Spelled lib id Always) (λ q. q.delete_audit id)
    pub delete_email : (id : String) → Meets (Spelled lib id Always) (λ q. q.delete_email id)
    pub delete_family : (id : String) → Meets (Spelled lib id Always) (λ q. q.delete_family id)
    pub email_backlog_count : Meets Always (λ q. q.email_backlog_count)
    pub enqueue_email :
        (a : EnqueueEmailParams)
        → Meets
            (Spelled lib a.id (Spelled lib a.notification_id (MailFits a)))
            (λ q. q.enqueue_email a)
    pub lock_email : (id : String) → Meets (Spelled lib id Always) (λ q. q.lock_email id)
    pub renew_email :
        (a : RenewEmailParams)
        → Meets
            (Spelled lib a.id (SomeSpelled lib a.lease_id (LeaseMoves a)))
            (λ q. q.renew_email a)
    pub set_notification_email_status :
        (id : String) (status : EmailStatus)
        → Meets (Spelled lib id Always) (λ q. q.set_notification_email_status id status)

  pub record NoticeMethods : Type 0 where
    pub create_notification :
        (a : CreateNotificationParams)
        → Meets
            (Spelled lib a.id
              (Spelled lib a.recipient_id (SomeSpelled lib a.actor_id (NoticeFits a))))
            (λ q. q.create_notification a)
    pub ensure_notification_counter :
        (id : String) → Meets (Spelled lib id Always) (λ q. q.ensure_notification_counter id)
    pub find_notification :
        (id : String) → Meets (Spelled lib id Always) (λ q. q.find_notification id)
    pub increment_notification_counter :
        (id : String) → Meets (Spelled lib id Always) (λ q. q.increment_notification_counter id)
    pub list_own_notifications :
        (id : String) (b : Bool)
        → Meets (Spelled lib id Always) (λ q. q.list_own_notifications id b)
    pub lock_own_notification :
        (id : String) (name : String)
        → Meets (Spelled lib id (Spelled lib name Always)) (λ q. q.lock_own_notification id name)
    pub notification_backlog :
        (a : NotificationBacklogParams)
        → Meets (Spelled lib a.recipient_id Always) (λ q. q.notification_backlog a)
    pub notification_cursor :
        (id : String) (name : String)
        → Meets (Spelled lib id (Spelled lib name Always)) (λ q. q.notification_cursor id name)
    pub notification_page :
        (a : NotificationPageParams)
        → Meets (Spelled lib a.recipient_id Always) (λ q. q.notification_page a)
    pub notification_sequence :
        (id : String) → Meets (Spelled lib id Always) (λ q. q.notification_sequence id)
    pub read_notification :
        (id : String) → Meets (Spelled lib id Always) (λ q. q.read_notification id)

  pub record FileMethods : Type 0 where
    pub create_file :
        (a : CreateFileParams)
        → Meets (SomeSpelled lib a.uploader_id (FileFits a)) (λ q. q.create_file a)
    pub file_referenced :
        (id : String) (name : String) → Meets Always (λ q. q.file_referenced id name)
    pub find_file : (id : String) → Meets (Spelled lib id Always) (λ q. q.find_file id)
    pub insert_audit :
        (a : InsertAuditParams)
        → Meets (SomeSpelled lib a.user_id (LogFits a)) (λ q. q.insert_audit a)

  pub record SeedMethods : Type 0 where
    pub seed_admin_permissions : Meets Always (λ q. q.seed_admin_permissions)
    pub seed_permission : (name : String) → Meets (NewPermission name) (λ q. q.seed_permission name)
    pub seed_role : (name : String) → Meets (NewRole name) (λ q. q.seed_role name)
    pub seed_user : (a : SeedUserParams) → Meets (NewUser lib a) (λ q. q.seed_user a)

  -- every method of one does what that of the other promises
  pub record Refines : Type 0 where
    pub roles : RoleMethods
    pub permissions : PermissionMethods
    pub users : UserMethods
    pub sessions : SessionMethods
    pub mails : MailMethods
    pub notices : NoticeMethods
    pub files : FileMethods
    pub seeds : SeedMethods
