-- ===== src/Database/Postgres.antt =====
-- internal/db/sqlc: the statements of PostgreSQL under the interface `Querier`.
use golang_backend.Library.{Library}
use golang_backend.Database.Action.{Run}
use golang_backend.Database.Uuid.{by_uuid, by_some_uuid}
use golang_backend.Database.Roles
use golang_backend.Database.Permissions
use golang_backend.Database.Users
use golang_backend.Database.Users.{CreateUserParams, UpdateUserParams, ListUsersParams}
use golang_backend.Database.Sessions
use golang_backend.Database.Sessions.{CreateRefreshFamilyParams, CreateAuthRefreshTokenParams}
use golang_backend.Database.Outbox
use golang_backend.Database.Outbox.{EnqueueEmailParams, CompleteEmailParams, RenewEmailParams}
use golang_backend.Database.Notices
use golang_backend.Database.Notices.{
  CreateNotificationParams, NotificationPageParams, NotificationBacklogParams,
}
use golang_backend.Database.Files
use golang_backend.Database.Files.{CreateFileParams}
use golang_backend.Database.Seeds
use golang_backend.Database.Seeds.{SeedUserParams}
use golang_backend.Database.Logs
use golang_backend.Database.Logs.{InsertAuditParams}
use golang_backend.Database.Querier.{Querier}

-- `sqlc.Queries`: a statement reads the texts that stand beside columns of type `uuid` as uuids
abbrev pub postgres : Library → Run → Querier
postgres lib run = record {
  assign_role_permission = λ id other.
      by_uuid lib run (λ i. by_uuid lib run (λ j. Roles.assign_role_permission run i j) other) id;
  claim_email = λ id other until.
      by_uuid lib run (λ i. by_uuid lib run (λ j. Outbox.claim_email run i j until) other) id;
  claimable_email = Outbox.claimable_email run;
  cleanup_audit = Outbox.cleanup_audit run;
  cleanup_email = Outbox.cleanup_email run;
  cleanup_families = Outbox.cleanup_families run;
  clear_role_permissions = by_uuid lib run (Roles.clear_role_permissions run);
  complete_email =
      λ a. by_uuid lib run (λ id. Outbox.complete_email run (record a { id = id })) a.id;
  count_active_permission_holders = Permissions.count_active_permission_holders run;
  count_users = Users.count_users lib.email_like run;
  create_auth_refresh_token = λ a.
      by_uuid lib run
        (λ family_id.
          by_uuid lib run
            (λ user_id.
              Sessions.create_auth_refresh_token run
                (record a { family_id = family_id; user_id = user_id }))
            a.user_id)
        a.family_id;
  create_file = λ a.
      by_some_uuid lib run
        (λ uploader_id. Files.create_file run (record a { uploader_id = uploader_id }))
        a.uploader_id;
  create_notification = λ a.
      by_uuid lib run
        (λ id.
          by_uuid lib run
            (λ recipient_id.
              by_some_uuid lib run
                (λ actor_id.
                  Notices.create_notification run
                    (record a { id = id; recipient_id = recipient_id; actor_id = actor_id }))
                a.actor_id)
            a.recipient_id)
        a.id;
  create_permission = Permissions.create_permission run;
  create_refresh_family = λ a.
      by_uuid lib run
        (λ id.
          by_uuid lib run
            (λ user_id.
              Sessions.create_refresh_family run (record a { id = id; user_id = user_id }))
            a.user_id)
        a.id;
  create_role = Roles.create_role run;
  create_user = λ a.
      by_uuid lib run (λ role_id. Users.create_user lib.lower run (record a { role_id = role_id }))
        a.role_id;
  delete_audit = by_uuid lib run (Outbox.delete_audit run);
  delete_email = by_uuid lib run (Outbox.delete_email run);
  delete_expired_auth_refresh_tokens =
      by_uuid lib run (Sessions.delete_expired_auth_refresh_tokens run);
  delete_family = by_uuid lib run (Outbox.delete_family run);
  delete_permission = by_uuid lib run (Permissions.delete_permission run);
  delete_role = by_uuid lib run (Roles.delete_role run);
  email_backlog_count = Outbox.email_backlog_count run;
  email_backlog_oldest = Outbox.email_backlog_oldest run;
  enqueue_email = λ a.
      by_uuid lib run
        (λ id.
          by_uuid lib run
            (λ notification_id.
              Outbox.enqueue_email run (record a { id = id; notification_id = notification_id }))
            a.notification_id)
        a.id;
  ensure_notification_counter = by_uuid lib run (Notices.ensure_notification_counter run);
  file_referenced = Files.file_referenced run;
  find_active_user_by_email = Users.find_active_user_by_email run;
  find_active_user_by_id = by_uuid lib run (Users.find_active_user_by_id run);
  find_auth_refresh_token_by_hash = Sessions.find_auth_refresh_token_by_hash run;
  find_file = by_uuid lib run (Files.find_file run);
  find_notification = by_uuid lib run (Notices.find_notification run);
  find_permission = by_uuid lib run (Permissions.find_permission run);
  find_role = by_uuid lib run (Roles.find_role run);
  find_role_by_name = Roles.find_role_by_name run;
  find_user = by_uuid lib run (Users.find_user run);
  increment_notification_counter = by_uuid lib run (Notices.increment_notification_counter run);
  insert_audit = λ a.
      by_some_uuid lib run (λ user_id. Logs.insert_audit run (record a { user_id = user_id }))
        a.user_id;
  list_own_notifications = λ id x. by_uuid lib run (λ i. Notices.list_own_notifications run i x) id;
  list_permissions = Permissions.list_permissions run;
  list_role_ids_with_permission_name = Permissions.list_role_ids_with_permission_name run;
  list_role_permission_ids = by_uuid lib run (Roles.list_role_permission_ids run);
  list_role_permissions = by_uuid lib run (Roles.list_role_permissions run);
  list_roles = Roles.list_roles run;
  list_users = Users.list_users lib.email_like run;
  lock_email = by_uuid lib run (Outbox.lock_email run);
  lock_own_notification = λ id other.
      by_uuid lib run (λ i. by_uuid lib run (λ j. Notices.lock_own_notification run i j) other) id;
  lock_permission = by_uuid lib run (Permissions.lock_permission run);
  lock_permission_by_name = Permissions.lock_permission_by_name run;
  lock_refresh_family = by_uuid lib run (Sessions.lock_refresh_family run);
  lock_role = by_uuid lib run (Roles.lock_role run);
  lock_user = by_uuid lib run (Users.lock_user run);
  lookup_auth_refresh_token = Sessions.lookup_auth_refresh_token run;
  notification_backlog = λ a.
      by_uuid lib run
        (λ recipient_id.
          Notices.notification_backlog run (record a { recipient_id = recipient_id }))
        a.recipient_id;
  notification_cursor = λ id other.
      by_uuid lib run (λ i. by_uuid lib run (λ j. Notices.notification_cursor run i j) other) id;
  notification_page = λ a.
      by_uuid lib run
        (λ recipient_id. Notices.notification_page run (record a { recipient_id = recipient_id }))
        a.recipient_id;
  notification_sequence = by_uuid lib run (Notices.notification_sequence run);
  read_notification = by_uuid lib run (Notices.read_notification run);
  renew_email = λ a.
      by_uuid lib run
        (λ id.
          by_some_uuid lib run
            (λ lease_id. Outbox.renew_email run (record a { id = id; lease_id = lease_id }))
            a.lease_id)
        a.id;
  revoke_auth_refresh_family = by_uuid lib run (Sessions.revoke_auth_refresh_family run);
  revoke_auth_refresh_token = by_uuid lib run (Sessions.revoke_auth_refresh_token run);
  revoke_refresh_family_record = by_uuid lib run (Sessions.revoke_refresh_family_record run);
  revoke_user_auth_refresh_tokens = by_uuid lib run (Sessions.revoke_user_auth_refresh_tokens run);
  revoke_user_refresh_families = by_uuid lib run (Sessions.revoke_user_refresh_families run);
  seed_admin_permissions = Seeds.seed_admin_permissions run;
  seed_permission = Seeds.seed_permission run;
  seed_role = Seeds.seed_role run;
  seed_user = Seeds.seed_user lib.lower run;
  set_notification_email_status =
      λ id x. by_uuid lib run (λ i. Outbox.set_notification_email_status run i x) id;
  soft_delete_user = by_uuid lib run (Users.soft_delete_user run);
  update_permission = λ id x. by_uuid lib run (λ i. Permissions.update_permission run i x) id;
  update_role = λ id x. by_uuid lib run (λ i. Roles.update_role run i x) id;
  update_user = λ a.
      by_uuid lib run
        (λ id.
          by_some_uuid lib run
            (λ role_id. Users.update_user lib.lower run (record a { id = id; role_id = role_id }))
            a.role_id)
        a.id;
  user_has_permission = λ id x. by_uuid lib run (λ i. Sessions.user_has_permission run i x) id;
}
