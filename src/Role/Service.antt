-- ===== src/Role/Service.antt =====
-- internal/role/service.go: the operations on roles. `strings.TrimSpace` is Base's `trim_space`.
use golang_backend.Base.{
  String, Bool, true, false, Option, none, some, List, [], ◌∷◌, ◌==◌, string_eq, if◌then◌else◌,
  trim_space, sort_by, text_le, compact, map,
}
use golang_backend.Fault.{Error, Kind, fault, caused, invalid, missing, error_if}
use golang_backend.Fault
use golang_backend.Library.{Library}
use golang_backend.Model
use golang_backend.Model.{project_role, role_snapshot, assignment_snapshot}
use golang_backend.Database.Tables
use golang_backend.Database.Action.{
  Result, ok, err, Run, M, pure, raise, wrap, attempt, ◌>>=◌, ◌>>◌, check, for_each,
}
use golang_backend.Database.Roles.{
  find_role, lock_role, list_roles, create_role, update_role, delete_role, list_role_permission_ids,
  list_role_permissions, clear_role_permissions, assign_role_permission,
}
use golang_backend.Database.Permissions.{find_permission}
use golang_backend.Audit.Writer.{Actor, Policy, Change, capture, mutate}
use golang_backend.Role.Privilege.{
  system_roles, not_system_name, permissions_within_actor, role_within_actor,
  guard_system_permission_holders,
}

abbrev as_role_permission : Tables.Permission → Model.RolePermission
as_role_permission p = record { permission = record { id = p.id; name = p.name } }

-- the checks of `Create`, before the transaction
create_checks : String → Option Error
create_checks name = elim (Fault.name name 64) [
  | some e ↦ some e
  | none ↦ not_system_name system_roles "role" (trim_space name)
]

abbrev name_check : Option String → Option Error
name_check none = none
name_check (some name) = Fault.name name 64

abbrev pub new_name : Option String → String → String
new_name none old = old
new_name (some name) old = trim_space name

-- the system roles keep their names
abbrev rename_check : String → String → Option Error
rename_check old new = if old == new then none else elim (not_system_name system_roles "role" old) [
  | some e ↦ some e
  | none ↦ not_system_name system_roles "role" new
]

-- `known.Kind == fault.Missing`
unknown_permission : Error → Error
unknown_permission (fault Kind.missing m) =
    fault invalid "Referenced record does not exist or is in use"
unknown_permission (caused Kind.missing m cause) =
    fault invalid "Referenced record does not exist or is in use"
unknown_permission e = e

module _ (lib : Library) (run : Run) where
  abbrev uuid_check : String → Option Error
  uuid_check id = Fault.uuid (lib.valid_uuid id)

  uuid_checks : List String → Option Error
  uuid_checks [] = none
  uuid_checks (id ∷ ids) = elim (uuid_check id) [ some e ↦ some e | none ↦ uuid_checks ids ]

  -- `Get`
  unfoldable pub get : String → M Model.Role
  get id = do
    check (uuid_check id)
    row ← wrap (find_role run id)
    permissions ← wrap (list_role_permissions run id)
    pure (record (project_role row) { permissions = map as_role_permission permissions })

  get_each : List Tables.Role → M (List Model.Role)
  unfolding get
  get_each [] = pure []
  get_each (row ∷ rows) = do value ← get row.id; rest ← get_each rows; pure (value ∷ rest)

  -- `List`
  unfoldable pub list : M (List Model.Role)
  unfolding get_each
  list = do rows ← wrap (list_roles run); get_each rows

  create_body : String → M (Model.Role × Change)
  create_body name = do
    row ← wrap (create_role run (trim_space name))
    let out = project_role row
    pure (out, capture lib.lower out.id none (some (role_snapshot out)))

  -- `Create`
  unfoldable pub create : Policy → Option Actor → String → M Model.Role
  unfolding create_checks create_body
  create p actor name = do
    check (create_checks name)
    mutate run p actor "CREATE" (create_body name)

  unfoldable pub update_body : Option Actor → String → Option String → M (Model.Role × Change)
  update_body actor id name = do
    old ← wrap (lock_role run id)
    role_within_actor run actor id
    check (rename_check old.name (new_name name old.name))
    row ← wrap (update_role run id (new_name name old.name))
    let before = role_snapshot (project_role old)
    let out = project_role row
    pure (out, capture lib.lower id (some before) (some (role_snapshot out)))

  -- `Update`
  unfoldable pub update : Policy → Option Actor → String → Option String → M Model.Role
  update p actor id name = do
    check (uuid_check id)
    check (name_check name)
    mutate run p actor "UPDATE" (update_body actor id name)

  unfoldable pub delete_body : Option Actor → String → M (Unit {0} × Change)
  delete_body actor id = do
    row ← wrap (lock_role run id)
    check (not_system_name system_roles "role" row.name)
    role_within_actor run actor id
    wrap (delete_role run id)
    pure (tt, capture lib.lower id (some (role_snapshot (project_role row))) none)

  -- `Delete`
  unfoldable pub delete : Policy → Option Actor → String → M (Unit {0})
  delete p actor id = do check (uuid_check id); mutate run p actor "DELETE" (delete_body actor id)

  unfoldable pub known_or : Result Tables.Permission → M (Unit {0})
  unfolding unknown_permission
  known_or (ok p) = pure tt
  known_or (err e) = raise (unknown_permission e)

  unfoldable pub find_known : String → M (Unit {0})
  unfolding known_or
  find_known id = do found ← attempt (wrap (find_permission run id)); known_or found

  unfoldable pub grant_one : String → String → M (Unit {0})
  grant_one role id = wrap (assign_role_permission run role id)

  unfoldable pub assign_body : Option Actor → String → List String → M (Unit {0} × Change)
  unfolding find_known grant_one
  assign_body actor id ids = do
    row ← wrap (lock_role run id)
    old ← wrap (list_role_permission_ids run id)
    for_each ids find_known
    permissions_within_actor run actor old
    permissions_within_actor run actor ids
    holders ← guard_system_permission_holders run
    wrap (clear_role_permissions run id)
    for_each ids (grant_one id)
    holders
    let before = assignment_snapshot row.name old
    let after = assignment_snapshot row.name ids
    pure (tt, capture lib.lower id (some before) (some after))

  abbrev is_empty : List String → Bool
  is_empty [] = true
  is_empty (id ∷ ids) = false

  -- `Assign`; the identifiers are sorted and equal ones merged
  unfoldable pub assign : Policy → Option Actor → String → List String → M Model.Role
  unfolding uuid_checks
  assign p actor id ids = do
    check (uuid_check id)
    check (error_if (is_empty ids) (fault invalid "permissionIds is required"))
    check (uuid_checks ids)
    mutate run p actor "UPDATE" (assign_body actor id (compact (sort_by text_le ids)))
    get id
