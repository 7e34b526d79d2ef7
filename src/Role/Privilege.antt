-- ===== src/Role/Privilege.antt =====
-- internal/role/privilege.go: the rules against escalation and against locking everybody out.
use golang_backend.Base.{
  String, ◌<>◌, Bool, false, Option, none, some, List, [], ◌∷◌, ◌==◌, string_eq, nat_eq,
  if◌then◌else◌, contains,
}
use golang_backend.Fault.{Error, fault, forbidden, error_if}
use golang_backend.Database.Action.{Run, M, pure, raise, wrap, ◌>>=◌, ◌>>◌, check, for_each}
use golang_backend.Database.Roles.{list_role_permission_ids, assign_role_permission, find_role}
use golang_backend.Database.Permissions.{
  lock_permission_by_name, count_active_permission_holders, list_role_ids_with_permission_name,
}
use golang_backend.Database.Sessions.{revoke_user_refresh_families, revoke_user_auth_refresh_tokens}
use golang_backend.Audit.Writer.{Actor}

-- `RootRole`, `DefaultRole`, `SystemRoles`
abbrev pub root_role : String
root_role = "admin"

abbrev pub default_role : String
default_role = "user"

abbrev pub system_roles : List String
system_roles = root_role ∷ default_role ∷ []

-- `SystemPermissions`
abbrev pub system_permissions : List String
system_permissions =
    "manage_users" ∷ "manage_roles" ∷ "manage_permissions" ∷ "manage_uploads"
    ∷ "manage_notifications" ∷ []

-- `NotSystemName`
unfoldable pub not_system_name : List String → String → String → Option Error
not_system_name names kind name = error_if (contains names name) (
    fault forbidden
      ("System " <> (kind <> (" '" <> (name <> "' cannot be created, renamed or deleted")))))

-- the loop of `PermissionsWithinActor`
unfoldable pub first_unheld : List String → List String → Option Error
first_unheld held [] = none
first_unheld held (id ∷ ids) =
    if contains held id
    then first_unheld held ids
    else some (fault forbidden "You cannot grant or manage permissions you do not hold")

-- the loop of the check that `GuardSystemPermissionHolders` returns
unfoldable pub newly_unheld : List String → List String → Option Error
newly_unheld before [] = none
newly_unheld before (name ∷ names) =
    if contains before name
    then newly_unheld before names
    else some (fault forbidden ("Change would leave no active user holding '" <> (name <> "'")))

module _ (run : Run) where
  within_actor : Option Actor → List String → M (Unit {0})
  within_actor none ids = raise (fault forbidden "Forbidden")
  within_actor (some actor) ids = do
    held ← wrap (list_role_permission_ids run actor.role_id)
    check (first_unheld held ids)

  -- `PermissionsWithinActor`
  unfoldable pub permissions_within_actor : Option Actor → List String → M (Unit {0})
  unfolding within_actor
  permissions_within_actor actor [] = pure tt
  permissions_within_actor actor (id ∷ ids) = within_actor actor (id ∷ ids)

  abbrev has_role : Option Actor → String → Bool
  has_role none role = false
  has_role (some actor) role = actor.role_id == role

  -- `RoleWithinActor`
  unfoldable pub role_within_actor : Option Actor → String → M (Unit {0})
  role_within_actor actor role =
      if has_role actor role
      then pure tt
      else do ids ← wrap (list_role_permission_ids run role); permissions_within_actor actor ids

  -- `IsRootRole`
  unfoldable pub is_root_role : String → M Bool
  is_root_role role = do r ← wrap (find_role run role); pure (r.name == root_role)

  -- the loop of `unheld`
  unfoldable pub unheld_among : List String → M (List String)
  unheld_among [] = pure []
  unheld_among (name ∷ names) = do
    count ← wrap (count_active_permission_holders run name)
    rest ← unheld_among names
    pure (if count == 0 then name ∷ rest else rest)

  unfoldable pub lock_name : String → M (Unit {0})
  lock_name name = do _ ← wrap (lock_permission_by_name run name); pure tt

  -- `GuardSystemPermissionHolders`: what it returns is run after the change
  unfoldable pub guard_system_permission_holders : M (M (Unit {0}))
  unfolding lock_name
  guard_system_permission_holders = do
    for_each system_permissions lock_name
    before ← unheld_among system_permissions
    pure do after ← unheld_among system_permissions; check (newly_unheld before after)

  grant_to : String → String → M (Unit {0})
  grant_to permission role = wrap (assign_role_permission run role permission)

  -- `GrantToPermissionManagers`
  unfoldable pub grant_to_permission_managers : String → M (Unit {0})
  unfolding grant_to
  grant_to_permission_managers permission = do
    roles ← wrap (list_role_ids_with_permission_name run "manage_permissions")
    for_each roles (grant_to permission)

  -- `RevokeUserSessions`
  unfoldable pub revoke_user_sessions : String → M (Unit {0})
  revoke_user_sessions user = do
    wrap (revoke_user_refresh_families run user)
    wrap (revoke_user_auth_refresh_tokens run user)
