-- ===== src/Permission/Service.antt =====
-- internal/permission/service.go: the operations on permissions.
use golang_backend.Base.{String, Option, none, some, List, [], ◌∷◌, trim_space, map}
use golang_backend.Fault.{Error}
use golang_backend.Fault
use golang_backend.Library.{Library}
use golang_backend.Model
use golang_backend.Model.{project_permission, permission_json}
use golang_backend.Database.Action.{Run, M, pure, wrap, ◌>>=◌, ◌>>◌, check}
use golang_backend.Database.Permissions.{
  find_permission, lock_permission, list_permissions, create_permission, update_permission,
  delete_permission,
}
use golang_backend.Audit.Writer.{Actor, Policy, Change, capture, mutate}
use golang_backend.Role.Privilege.{
  system_permissions, not_system_name, permissions_within_actor, grant_to_permission_managers,
}

-- the checks of `Create`, before the transaction
create_checks : String → Option Error
create_checks name = elim (Fault.name name 128) [
  | some e ↦ some e
  | none ↦ not_system_name system_permissions "permission" (trim_space name)
]

abbrev name_check : Option String → Option Error
name_check none = none
name_check (some name) = Fault.name name 128

abbrev pub new_name : Option String → String → String
new_name none old = old
new_name (some name) old = trim_space name

module _ (lib : Library) (run : Run) where
  abbrev uuid_check : String → Option Error
  uuid_check id = Fault.uuid (lib.valid_uuid id)

  -- `Get`
  unfoldable pub get : String → M Model.Permission
  get id = do
    check (uuid_check id)
    row ← wrap (find_permission run id)
    pure (project_permission row)

  -- `List`
  unfoldable pub list : M (List Model.Permission)
  list = do rows ← wrap (list_permissions run); pure (map project_permission rows)

  unfoldable pub create_body : String → M (Model.Permission × Change)
  create_body name = do
    row ← wrap (create_permission run (trim_space name))
    grant_to_permission_managers run row.id
    let out = project_permission row
    pure (out, capture lib.lower out.id none (some (permission_json out)))

  -- `Create`
  unfoldable pub create : Policy → Option Actor → String → M Model.Permission
  unfolding create_checks
  create p actor name = do
    check (create_checks name)
    mutate run p actor "CREATE" (create_body name)

  unfoldable pub update_body : Option Actor → String → Option String → M (Model.Permission × Change)
  update_body actor id name = do
    old ← wrap (lock_permission run id)
    check (not_system_name system_permissions "permission" old.name)
    check (not_system_name system_permissions "permission" (new_name name old.name))
    permissions_within_actor run actor (id ∷ [])
    row ← wrap (update_permission run id (new_name name old.name))
    let before = permission_json (project_permission old)
    let out = project_permission row
    pure (out, capture lib.lower id (some before) (some (permission_json out)))

  -- `Update`
  unfoldable pub update : Policy → Option Actor → String → Option String → M Model.Permission
  update p actor id name = do
    check (uuid_check id)
    check (name_check name)
    mutate run p actor "UPDATE" (update_body actor id name)

  unfoldable pub delete_body : Option Actor → String → M (Unit {0} × Change)
  delete_body actor id = do
    row ← wrap (lock_permission run id)
    check (not_system_name system_permissions "permission" row.name)
    permissions_within_actor run actor (id ∷ [])
    wrap (delete_permission run id)
    pure (tt, capture lib.lower id (some (permission_json (project_permission row))) none)

  -- `Delete`
  unfoldable pub delete : Policy → Option Actor → String → M (Unit {0})
  delete p actor id = do check (uuid_check id); mutate run p actor "DELETE" (delete_body actor id)
