-- ===== src/Mysql/Adapter.antt =====
-- internal/db/mysql_adapter.go: the methods of `mysqlQueries`, which offer the statements of MySQL as
-- the interface `Querier`. A conversion between the two row types, whose fields are the same, is left out.
-- The ids are char(36) in the collation utf8mb4_bin: they are compared character by character, case
-- included; the collation passes over spaces at the end of a text, which no id has.
use golang_backend.Base.{ℕ, String, Bool, true, false, List, ◌==◌, string_eq, if◌then◌else◌}
use golang_backend.Library.{Library}
use golang_backend.Database.Tables.{Role, Permission, User, StoredFile, Notification}
use golang_backend.Database.Action.{Run, M, draw, ◌>>=◌, ◌>>◌}
use golang_backend.Database.Users.{CreateUserParams, UpdateUserParams, ListUsersParams}
use golang_backend.Database.Notices.{NotificationPageParams, NotificationBacklogParams}
use golang_backend.Database.Files.{CreateFileParams}
use golang_backend.Database.Querier.{Querier}
use golang_backend.Mysql.Roles
use golang_backend.Mysql.Permissions
use golang_backend.Mysql.Users
use golang_backend.Mysql.Sessions
use golang_backend.Mysql.Outbox
use golang_backend.Mysql.Notices
use golang_backend.Mysql.Files
use golang_backend.Mysql.Logs

-- a flag as MySQL's statements take it
abbrev pub flag : Bool → ℕ
flag true = 1
flag false = 0

abbrev pub key_of : String → ℕ
key_of sort_by = if sort_by == "email" then 1 else if sort_by == "updatedAt" then 3 else 2

abbrev pub users_params : ListUsersParams → Users.ListUsersParams
users_params a = record {
  search = a.search;
  sort_key = key_of a.sort_by;
  descending = flag (a.direction == "desc");
  limit = a.page_limit;
  offset = a.page_offset;
}

abbrev pub page_params : NotificationPageParams → Notices.NotificationPageParams
page_params a = record {
  recipient_id = a.recipient_id;
  has_cursor = flag a.has_cursor;
  sequence = a.sequence;
}

abbrev pub backlog_params : NotificationBacklogParams → Notices.NotificationBacklogParams
backlog_params a = record {
  recipient_id = a.recipient_id;
  has_cursor = flag a.has_cursor;
  sequence = a.sequence;
  unread_only = flag a.unread_only;
}

module _ (lib : Library) (run : Run) where
  unfoldable pub create_role : String → M Role
  create_role name = do id ← draw run; Roles.create_role run id name; Roles.find_role run id

  unfoldable pub create_permission : String → M Permission
  create_permission name = do
    id ← draw run
    Permissions.create_permission run id name
    Permissions.find_permission run id

  unfoldable pub create_user : CreateUserParams → M User
  create_user a = do
    id ← draw run
    Users.create_user lib.lower run id a.email a.password a.role_id
    Users.find_user run id

  unfoldable pub create_file : CreateFileParams → M StoredFile
  create_file a = do id ← draw run; Files.create_file run id a; Files.find_file run id

  unfoldable pub update_role : String → String → M Role
  update_role id name = do Roles.update_role run id name; Roles.find_role run id

  unfoldable pub update_permission : String → String → M Permission
  update_permission id name = do
    Permissions.update_permission run id name
    Permissions.find_permission run id

  unfoldable pub update_user : UpdateUserParams → M User
  update_user a = do
    Users.update_user lib.lower run a.id a.email a.role_id
    Users.find_user run a.id

  unfoldable pub list_users : ListUsersParams → M (List User)
  list_users a = Users.list_users lib.lower lib.sql_like run (users_params a)

  unfoldable pub list_own_notifications : String → Bool → M (List Notification)
  list_own_notifications recipient unread =
      Notices.list_own_notifications run recipient (flag unread)

  unfoldable pub notification_page : NotificationPageParams → M (List Notification)
  notification_page a = Notices.notification_page run (page_params a)

  unfoldable pub notification_backlog : NotificationBacklogParams → M (List Notification)
  notification_backlog a = Notices.notification_backlog run (backlog_params a)

  -- all its methods; those that are not above hand their arguments on
  abbrev pub mysql_queries : Querier
  mysql_queries = record {
    assign_role_permission = Roles.assign_role_permission run;
    claim_email = Outbox.claim_email run;
    claimable_email = Outbox.claimable_email run;
    cleanup_audit = Outbox.cleanup_audit run;
    cleanup_email = Outbox.cleanup_email run;
    cleanup_families = Outbox.cleanup_families run;
    clear_role_permissions = Roles.clear_role_permissions run;
    complete_email = Outbox.complete_email run;
    count_active_permission_holders = Permissions.count_active_permission_holders run;
    count_users = Users.count_users lib.lower lib.sql_like run;
    create_auth_refresh_token = Sessions.create_auth_refresh_token run;
    create_file = create_file;
    create_notification = Notices.create_notification run;
    create_permission = create_permission;
    create_refresh_family = Sessions.create_refresh_family run;
    create_role = create_role;
    create_user = create_user;
    delete_audit = Outbox.delete_audit run;
    delete_email = Outbox.delete_email run;
    delete_expired_auth_refresh_tokens = Sessions.delete_expired_auth_refresh_tokens run;
    delete_family = Outbox.delete_family run;
    delete_permission = Permissions.delete_permission run;
    delete_role = Roles.delete_role run;
    email_backlog_count = Outbox.email_backlog_count run;
    email_backlog_oldest = Outbox.email_backlog_oldest run;
    enqueue_email = Outbox.enqueue_email run;
    ensure_notification_counter = Notices.ensure_notification_counter run;
    file_referenced = Files.file_referenced run;
    find_active_user_by_email = Users.find_active_user_by_email run;
    find_active_user_by_id = Users.find_active_user_by_id run;
    find_auth_refresh_token_by_hash = Sessions.find_auth_refresh_token_by_hash run;
    find_file = Files.find_file run;
    find_notification = Notices.find_notification run;
    find_permission = Permissions.find_permission run;
    find_role = Roles.find_role run;
    find_role_by_name = Roles.find_role_by_name run;
    find_user = Users.find_user run;
    increment_notification_counter = Notices.increment_notification_counter run;
    insert_audit = Logs.insert_audit run;
    list_own_notifications = list_own_notifications;
    list_permissions = Permissions.list_permissions run;
    list_role_ids_with_permission_name = Permissions.list_role_ids_with_permission_name run;
    list_role_permission_ids = Roles.list_role_permission_ids run;
    list_role_permissions = Roles.list_role_permissions run;
    list_roles = Roles.list_roles run;
    list_users = list_users;
    lock_email = Outbox.lock_email run;
    lock_own_notification = Notices.lock_own_notification run;
    lock_permission = Permissions.lock_permission run;
    lock_permission_by_name = Permissions.lock_permission_by_name run;
    lock_refresh_family = Sessions.lock_refresh_family run;
    lock_role = Roles.lock_role run;
    lock_user = Users.lock_user run;
    lookup_auth_refresh_token = Sessions.lookup_auth_refresh_token run;
    notification_backlog = notification_backlog;
    notification_cursor = Notices.notification_cursor run;
    notification_page = notification_page;
    notification_sequence = Notices.notification_sequence run;
    read_notification = Notices.read_notification run;
    renew_email = Outbox.renew_email run;
    revoke_auth_refresh_family = Sessions.revoke_auth_refresh_family run;
    revoke_auth_refresh_token = Sessions.revoke_auth_refresh_token run;
    revoke_refresh_family_record = Sessions.revoke_refresh_family_record run;
    revoke_user_auth_refresh_tokens = Sessions.revoke_user_auth_refresh_tokens run;
    revoke_user_refresh_families = Sessions.revoke_user_refresh_families run;
    seed_admin_permissions = Roles.seed_admin_permissions run;
    seed_permission = Permissions.seed_permission run;
    seed_role = Roles.seed_role run;
    seed_user = Users.seed_user lib.lower run;
    set_notification_email_status = Notices.set_notification_email_status run;
    soft_delete_user = Users.soft_delete_user run;
    update_permission = update_permission;
    update_role = update_role;
    update_user = update_user;
    user_has_permission = Sessions.user_has_permission run;
  }
