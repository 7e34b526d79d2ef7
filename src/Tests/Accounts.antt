-- ===== src/Tests/Accounts.antt =====
-- Accounts, roles and permissions of internal/user, internal/role, internal/permission and internal/auth.
use golang_backend.Base.{nat_eq, String, ◌≡◌, ◌≢◌, refl, ◌⊎◌, some, none, [], ◌∷◌, true}
use golang_backend.Model
use golang_backend.Model.{UpdateUserBody}
use golang_backend.Database.Action.{ok, Run, World, pure}
use golang_backend.Audit.Writer.{Actor, audit_params, mutate}
use golang_backend.Role.Service as Roles
use golang_backend.Role.Assignment.{Assigned, assign-ok}
use golang_backend.User.Service as Users
use golang_backend.User.Removal.{DeletedAt, delete-ok}
use golang_backend.Permission.Service as Permissions
use golang_backend.Permission.Laws.{Removed, permission_delete-ok}
use golang_backend.Auth.Access.{authenticate, authorize}
use golang_backend.Auth.Checks.{
  Authenticated, Granted, authenticate-ok, authorize-ok, delete-authenticate,
}
use golang_backend.Database.Sessions.{user_may}
use golang_backend.Tests.Fixtures.{lib, run_at, settings, audited, actor, world}

abbrev run : Run
run = run_at 100

abbrev removed : World
removed = (Users.delete lib run audited actor "bob" world).1

deletes : Users.delete lib run audited actor "bob" world ≡ (ok tt, removed)
unfolding golang_backend.Audit.Writer.mutate golang_backend.Audit.Writer.write
    golang_backend.Base.trim_space golang_backend.Database.Action.check
    golang_backend.Database.Action.draw golang_backend.Database.Action.exec
    golang_backend.Database.Action.for_each golang_backend.Database.Action.pure
    golang_backend.Database.Action.query golang_backend.Database.Action.query_row
    golang_backend.Database.Action.transaction golang_backend.Database.Action.wrap
    golang_backend.Database.Logs.insert_audit
    golang_backend.Database.Permissions.count_active_permission_holders
    golang_backend.Database.Permissions.holders
    golang_backend.Database.Permissions.lock_permission_by_name
    golang_backend.Database.Roles.list_role_permission_ids
    golang_backend.Database.Roles.permission_ids
    golang_backend.Database.Sessions.revoke_families_of_user
    golang_backend.Database.Sessions.revoke_tokens_of_user
    golang_backend.Database.Sessions.revoke_user_auth_refresh_tokens
    golang_backend.Database.Sessions.revoke_user_refresh_families
    golang_backend.Database.Users.active_user golang_backend.Database.Users.lock_user
    golang_backend.Database.Users.soft_delete golang_backend.Database.Users.soft_delete_user
    golang_backend.Role.Privilege.first_unheld
    golang_backend.Role.Privilege.guard_system_permission_holders
    golang_backend.Role.Privilege.newly_unheld
    golang_backend.Role.Privilege.permissions_within_actor
    golang_backend.Role.Privilege.revoke_user_sessions
    golang_backend.Role.Privilege.role_within_actor golang_backend.Role.Privilege.unheld_among
    golang_backend.User.Service.delete golang_backend.User.Service.delete_body
    golang_backend.Database.Uuid.with_key golang_backend.Database.Action.◌>>=◌
    golang_backend.Base.string_eq
deletes = refl

delete-ok_example : (actor.id ≢ "bob") × DeletedAt lib (some actor) "bob" world.db removed.db
delete-ok_example = delete-ok lib run audited actor "bob" world deletes

abbrev bob_actor : Actor
bob_actor = record { id = "bob"; email = "bob@x.org"; role_id = "user"; expires_at = 900000 }

-- one's own id, spelled otherwise, passes the comparison of the texts
deletes_himself :
    Users.delete lib run audited bob_actor "BOB" world
    ≡ (ok tt, (Users.delete lib run audited bob_actor "BOB" world).1)
unfolding golang_backend.Audit.Writer.mutate golang_backend.Audit.Writer.write
    golang_backend.Base.trim_space golang_backend.Database.Action.check
    golang_backend.Database.Action.draw golang_backend.Database.Action.exec
    golang_backend.Database.Action.for_each golang_backend.Database.Action.pure
    golang_backend.Database.Action.query golang_backend.Database.Action.query_row
    golang_backend.Database.Action.transaction golang_backend.Database.Action.wrap
    golang_backend.Database.Logs.insert_audit
    golang_backend.Database.Permissions.count_active_permission_holders
    golang_backend.Database.Permissions.holders
    golang_backend.Database.Permissions.lock_permission_by_name
    golang_backend.Database.Roles.list_role_permission_ids
    golang_backend.Database.Roles.permission_ids
    golang_backend.Database.Sessions.revoke_families_of_user
    golang_backend.Database.Sessions.revoke_tokens_of_user
    golang_backend.Database.Sessions.revoke_user_auth_refresh_tokens
    golang_backend.Database.Sessions.revoke_user_refresh_families
    golang_backend.Database.Users.active_user golang_backend.Database.Users.lock_user
    golang_backend.Database.Users.soft_delete golang_backend.Database.Users.soft_delete_user
    golang_backend.Role.Privilege.first_unheld
    golang_backend.Role.Privilege.guard_system_permission_holders
    golang_backend.Role.Privilege.newly_unheld
    golang_backend.Role.Privilege.permissions_within_actor
    golang_backend.Role.Privilege.revoke_user_sessions
    golang_backend.Role.Privilege.role_within_actor golang_backend.Role.Privilege.unheld_among
    golang_backend.User.Service.delete golang_backend.User.Service.delete_body
    golang_backend.Database.Uuid.with_key golang_backend.Database.Action.◌>>=◌
    golang_backend.Base.string_eq
deletes_himself = refl

abbrev ann : Actor
ann = record { id = "ann"; email = "ann@x.org"; role_id = "admin"; expires_at = 900000 }

authenticates :
    authenticate lib run settings "Bearer jwt ann" removed
    ≡ (ok ann, (authenticate lib run settings "Bearer jwt ann" removed).1)
unfolding golang_backend.Audit.Writer.mutate golang_backend.Audit.Writer.write
    golang_backend.Auth.Access.authenticate golang_backend.Auth.Access.load_actor
    golang_backend.Auth.Access.verify_access_token golang_backend.Database.Action.attempt
    golang_backend.Database.Action.check golang_backend.Database.Action.draw
    golang_backend.Database.Action.exec golang_backend.Database.Action.for_each
    golang_backend.Database.Action.pure golang_backend.Database.Action.query
    golang_backend.Database.Action.query_row golang_backend.Database.Action.transaction
    golang_backend.Database.Action.wrap golang_backend.Database.Logs.insert_audit
    golang_backend.Database.Permissions.count_active_permission_holders
    golang_backend.Database.Permissions.holders
    golang_backend.Database.Permissions.lock_permission_by_name
    golang_backend.Database.Roles.list_role_permission_ids
    golang_backend.Database.Roles.permission_ids
    golang_backend.Database.Sessions.revoke_families_of_user
    golang_backend.Database.Sessions.revoke_tokens_of_user
    golang_backend.Database.Sessions.revoke_user_auth_refresh_tokens
    golang_backend.Database.Sessions.revoke_user_refresh_families
    golang_backend.Database.Users.active_user golang_backend.Database.Users.find_active_user_by_id
    golang_backend.Database.Users.lock_user golang_backend.Database.Users.soft_delete
    golang_backend.Database.Users.soft_delete_user golang_backend.Role.Privilege.first_unheld
    golang_backend.Role.Privilege.guard_system_permission_holders
    golang_backend.Role.Privilege.newly_unheld
    golang_backend.Role.Privilege.permissions_within_actor
    golang_backend.Role.Privilege.revoke_user_sessions
    golang_backend.Role.Privilege.role_within_actor golang_backend.Role.Privilege.unheld_among
    golang_backend.User.Service.delete golang_backend.User.Service.delete_body
    golang_backend.Database.Uuid.with_key golang_backend.Database.Action.◌>>=◌
    golang_backend.Base.string_eq
authenticates = refl

delete-authenticate_example : ann.id ≢ "bob"
unfolding golang_backend.Base.string_eq
delete-authenticate_example =
    delete-authenticate lib run run settings audited actor "bob" "bob" "Bearer jwt ann" world
      removed deletes refl refl authenticates

authenticate-ok_example : Authenticated lib run settings "Bearer jwt ann" ann removed.db
authenticate-ok_example = authenticate-ok lib run settings "Bearer jwt ann" removed authenticates

abbrev managing : String
managing = "manage_users"

authorizes :
    authorize lib run settings actor "manage_users" world
    ≡ (ok tt, (authorize lib run settings actor "manage_users" world).1)
unfolding golang_backend.Auth.Access.authorize golang_backend.Database.Action.pure
    golang_backend.Database.Action.query golang_backend.Database.Action.wrap
    golang_backend.Database.Sessions.user_has_permission golang_backend.Database.Sessions.user_may
    golang_backend.Database.Action.◌>>=◌ golang_backend.Base.string_eq
authorizes = refl

authorize-ok_example : (managing ≡ "") ⊎ Granted "ann" "manage_users" world.db
authorize-ok_example = authorize-ok lib run settings actor "manage_users" world authorizes

abbrev new_role : UpdateUserBody
new_role = record { email = none; role_id = some "admin" }

abbrev promoted : World
promoted = (Users.update lib run audited (some actor) "bob" new_role world).1

abbrev promoted_user : Model.User
promoted_user = record {
  id = "bob";
  email = "bob@x.org";
  role_id = "admin";
  created_at = 0;
  updated_at = 100;
  role = some (record {
    id = "admin";
    name = "admin";
    permissions =
        (record { id = "manage_users"; name = "manage_users" })
        ∷ (record { id = "read"; name = "read" })
        ∷ [];
  });
}

abbrev assigned : World
assigned = (Roles.assign lib run audited (some actor) "user" ("manage_users" ∷ []) world).1

abbrev assigned_role : Model.Role
assigned_role = record {
  id = "user";
  name = "user";
  created_at = 0;
  updated_at = 0;
  permissions =
      (record { permission = record { id = "manage_users"; name = "manage_users" } }) ∷ [];
}

assigns :
    Roles.assign lib run audited (some actor) "user" ("manage_users" ∷ []) world
    ≡ (ok assigned_role, assigned)
unfolding golang_backend.Audit.Writer.mutate golang_backend.Audit.Writer.write
    golang_backend.Base.trim_space golang_backend.Database.Action.attempt
    golang_backend.Database.Action.check golang_backend.Database.Action.draw
    golang_backend.Database.Action.exec golang_backend.Database.Action.for_each
    golang_backend.Database.Action.pure golang_backend.Database.Action.query
    golang_backend.Database.Action.query_row golang_backend.Database.Action.transaction
    golang_backend.Database.Action.wrap golang_backend.Database.Logs.insert_audit
    golang_backend.Database.Permissions.count_active_permission_holders
    golang_backend.Database.Permissions.find_permission golang_backend.Database.Permissions.holders
    golang_backend.Database.Permissions.lock_permission_by_name
    golang_backend.Database.Permissions.permission_at
    golang_backend.Database.Roles.assign_role_permission golang_backend.Database.Roles.clear
    golang_backend.Database.Roles.clear_role_permissions golang_backend.Database.Roles.find_role
    golang_backend.Database.Roles.list_role_permission_ids
    golang_backend.Database.Roles.list_role_permissions golang_backend.Database.Roles.lock_role
    golang_backend.Database.Roles.permission_ids golang_backend.Database.Roles.role_at
    golang_backend.Model.project_role golang_backend.Role.Privilege.first_unheld
    golang_backend.Role.Privilege.guard_system_permission_holders
    golang_backend.Role.Privilege.newly_unheld
    golang_backend.Role.Privilege.permissions_within_actor
    golang_backend.Role.Privilege.unheld_among golang_backend.Role.Service.assign
    golang_backend.Role.Service.assign_body golang_backend.Role.Service.get
    golang_backend.Database.Action.◌>>=◌ golang_backend.Base.string_eq
assigns = refl

assign-ok_example : Assigned lib run (some actor) "user" ("manage_users" ∷ []) world.db assigned.db
assign-ok_example =
    assign-ok lib run audited (some actor) "user" ("manage_users" ∷ []) world assigns

abbrev unlisted : World
unlisted = (Permissions.delete lib run audited (some actor) "read" world).1

unlists : Permissions.delete lib run audited (some actor) "read" world ≡ (ok tt, unlisted)
unfolding golang_backend.Audit.Writer.mutate golang_backend.Audit.Writer.write
    golang_backend.Database.Action.check golang_backend.Database.Action.draw
    golang_backend.Database.Action.pure golang_backend.Database.Action.query
    golang_backend.Database.Action.query_row golang_backend.Database.Action.transaction
    golang_backend.Database.Action.wrap golang_backend.Database.Logs.insert_audit
    golang_backend.Database.Permissions.delete_permission
    golang_backend.Database.Permissions.lock_permission
    golang_backend.Database.Permissions.permission_at
    golang_backend.Database.Roles.list_role_permission_ids
    golang_backend.Database.Roles.permission_ids golang_backend.Permission.Service.delete
    golang_backend.Permission.Service.delete_body golang_backend.Role.Privilege.first_unheld
    golang_backend.Role.Privilege.not_system_name
    golang_backend.Role.Privilege.permissions_within_actor golang_backend.Database.Action.◌>>=◌
    golang_backend.Base.string_eq
unlists = refl

permission_delete-ok_example : Removed (some actor) "read" world.db unlisted.db
permission_delete-ok_example =
    permission_delete-ok lib run audited (some actor) "read" world unlists
