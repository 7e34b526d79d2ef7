-- ===== src/Database/Roles.antt =====
-- internal/db/sqlc/role.sql.go: the statements on roles and their permissions, with the constraints
-- of internal/db/migrations/00001_init.sql. A row lock (FOR UPDATE) is a read: an operation runs
-- with no other between its statements.
use golang_backend.Base.{
  ℕ, String, Bool, not, ◌&&◌, ◌||◌, Option, none, List, [], ◌∷◌, ◌==◌, string_eq, if◌then◌else◌,
  any, keep_if, find_first, update_where, sort_by, text_le, map,
}
use golang_backend.Fault.{pg}
use golang_backend.Database.Tables.{Db, Role, Permission, RolePermission}
use golang_backend.Database.Action.{
  Result, ok, err, Run, M, draw, statement, query, query_row, exec, row_of, ◌>>=◌,
}

-- `WHERE id=$1`
unfoldable pub role_at : String → Db → Option Role
role_at id d = find_first (λ r. r.id == id) d.roles

unfoldable pub role_named : String → Db → Option Role
role_named name d = find_first (λ r. r.name == name) d.roles

unfoldable pub role_order : Role → Role → Bool
role_order r s = if r.name == s.name then text_le r.id s.id else text_le r.name s.name

-- `SELECT permission_id FROM role_permissions WHERE role_id=$1 ORDER BY permission_id`
unfoldable pub permission_ids : String → Db → List String
permission_ids role d =
    sort_by text_le
      (map (λ g. g.permission_id) (keep_if (λ g. g.role_id == role) d.role_permissions))

-- `permissions p JOIN role_permissions rp ON rp.permission_id=p.id WHERE rp.role_id=$1`
join_permission : Permission → List RolePermission → List Permission → List Permission
join_permission p [] rest = rest
join_permission p (g ∷ gs) rest =
    let more = join_permission p gs rest in if g.permission_id == p.id then p ∷ more else more

unfoldable pub join_permissions : List Permission → List RolePermission → List Permission
unfolding join_permission
join_permissions [] gs = []
join_permissions (p ∷ ps) gs = join_permission p gs (join_permissions ps gs)

unfoldable pub permission_order : Permission → Permission → Bool
permission_order p q = if p.name == q.name then text_le p.id q.id else text_le p.name q.name

unfoldable pub permissions_of : String → Db → List Permission
unfolding join_permissions permission_order
permissions_of role d =
    sort_by permission_order
      (join_permissions d.permissions (keep_if (λ g. g.role_id == role) d.role_permissions))

abbrev pub grant : String → String → RolePermission
grant role permission = record { role_id = role; permission_id = permission }

abbrev pub same_grant : String → String → RolePermission → Bool
same_grant role permission g = g.role_id == role && g.permission_id == permission

-- `ON CONFLICT DO NOTHING`, under the two foreign keys
unfoldable pub assign : String → String → Db → Result (Unit {0} × Db)
assign role permission d =
    if any (same_grant role permission) d.role_permissions
    then ok (tt, d)
    else if any (λ r. r.id == role) d.roles && any (λ p. p.id == permission) d.permissions
    then ok (tt, record d { role_permissions = grant role permission ∷ d.role_permissions })
    else err (pg "23503")

unfoldable pub clear : String → Db → Db
clear role d = record d {
  role_permissions = keep_if (λ g. not (g.role_id == role)) d.role_permissions;
}

unfoldable pub insert_role : ℕ → String → String → Db → Result (Role × Db)
insert_role now name id d =
    let r : Role = record { id = id; name = name; created_at = now; updated_at = now } in
    if any (λ s. s.id == id || s.name == name) d.roles
    then err (pg "23505")
    else ok (r, record d { roles = r ∷ d.roles })

unfoldable pub rename : ℕ → String → String → Db → Result (Role × Db)
rename now id name d =
    let roles' =
      update_where (λ r. r.id == id) (λ r. record r { name = name; updated_at = now }) d.roles in
    if not (any (λ s. s.id == id) d.roles)
    then row_of none d
    else if any (λ s. not (s.id == id) && s.name == name) d.roles
    then err (pg "23505")
    else row_of (find_first (λ r. r.id == id) roles') (record d { roles = roles' })

-- users are RESTRICTed, the role's permissions go with it
unfoldable pub delete_row : String → Db → Result (Unit {0} × Db)
delete_row id d =
    if any (λ u. u.role_id == id) d.users
    then err (pg "23001")
    else ok (
      tt,
      record d {
        roles = keep_if (λ r. not (r.id == id)) d.roles;
        role_permissions = keep_if (λ g. not (g.role_id == id)) d.role_permissions;
      },
    )

module _ (run : Run) where
  unfoldable pub find_role : String → M Role
  find_role id = query_row run (role_at id)

  unfoldable pub find_role_by_name : String → M Role
  unfolding role_named
  find_role_by_name name = query_row run (role_named name)

  unfoldable pub lock_role : String → M Role
  lock_role id = query_row run (role_at id)

  unfoldable pub list_roles : M (List Role)
  unfolding role_order
  list_roles = query run (λ d. sort_by role_order d.roles)

  unfoldable pub create_role : String → M Role
  unfolding insert_role
  create_role name = do id ← draw run; statement run (insert_role run.now name id)

  unfoldable pub update_role : String → String → M Role
  unfolding rename
  update_role id name = statement run (rename run.now id name)

  unfoldable pub delete_role : String → M (Unit {0})
  unfolding delete_row
  delete_role id = statement run (delete_row id)

  unfoldable pub list_role_permission_ids : String → M (List String)
  list_role_permission_ids role = query run (permission_ids role)

  unfoldable pub list_role_permissions : String → M (List Permission)
  unfolding permissions_of
  list_role_permissions role = query run (permissions_of role)

  unfoldable pub clear_role_permissions : String → M (Unit {0})
  clear_role_permissions role = exec run (clear role)

  unfoldable pub assign_role_permission : String → String → M (Unit {0})
  unfolding assign
  assign_role_permission role permission = statement run (assign role permission)
