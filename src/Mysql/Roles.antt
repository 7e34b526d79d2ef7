-- ===== src/Mysql/Roles.antt =====
-- internal/db/mysql/sqlc/role.sql.go and seed.sql.go: the statements on roles and their permissions, with
-- the constraints of internal/db/mysql/migrations/00001_init.sql.
use golang_backend.Base.{
  ℕ, String, not, ◌&&◌, ◌||◌, List, ◌∷◌, ◌==◌, string_eq, if◌then◌else◌, any, update_where, keep_if,
  sort_by,
}
use golang_backend.Database.Tables.{Db, Role, Permission}
use golang_backend.Database.Action.{
  Result, ok, err, Run, M, draw, statement, query, query_row, exec, ◌>>=◌,
}
use golang_backend.Database.Roles.{
  role_at, role_named, role_order, permission_ids, permissions_of, grant, same_grant, clear,
}
use golang_backend.Database.Seeds.{grant_admins}
use golang_backend.Mysql.Errors.{
  duplicate_entry, no_referenced_row, row_is_referenced, data_too_long, too_long,
}

-- `name varchar(64) NOT NULL UNIQUE`
unfoldable pub insert_role : ℕ → String → String → Db → Result (Unit {0} × Db)
insert_role now name id d =
    let r : Role = record { id = id; name = name; created_at = now; updated_at = now } in
    if too_long 64 name
    then err data_too_long
    else if any (λ s. s.id == id || s.name == name) d.roles
    then err duplicate_entry
    else ok (tt, record d { roles = r ∷ d.roles })

-- no row is no error
unfoldable pub rename_role : ℕ → String → String → Db → Result (Unit {0} × Db)
rename_role now id name d =
    if not (any (λ s. s.id == id) d.roles)
    then ok (tt, d)
    else if too_long 64 name
    then err data_too_long
    else if any (λ s. not (s.id == id) && s.name == name) d.roles
    then err duplicate_entry
    else ok (
      tt,
      record d {
        roles =
            update_where (λ r. r.id == id) (λ r. record r { name = name; updated_at = now })
              d.roles;
      },
    )

unfoldable pub delete_role_row : String → Db → Result (Unit {0} × Db)
delete_role_row id d =
    if any (λ u. u.role_id == id) d.users
    then err row_is_referenced
    else ok (
      tt,
      record d {
        roles = keep_if (λ r. not (r.id == id)) d.roles;
        role_permissions = keep_if (λ g. not (g.role_id == id)) d.role_permissions;
      },
    )

-- `ON DUPLICATE KEY UPDATE permission_id=permission_id`: a row that is there stays as it is
unfoldable pub assign_or_keep : String → String → Db → Result (Unit {0} × Db)
assign_or_keep role permission d =
    if any (same_grant role permission) d.role_permissions
    then ok (tt, d)
    else if any (λ r. r.id == role) d.roles && any (λ p. p.id == permission) d.permissions
    then ok (tt, record d { role_permissions = grant role permission ∷ d.role_permissions })
    else err no_referenced_row

-- `ON DUPLICATE KEY UPDATE name=name`, for either key
unfoldable pub seed_role_row : ℕ → String → String → Db → Result (Unit {0} × Db)
seed_role_row now name id d =
    let r : Role = record { id = id; name = name; created_at = now; updated_at = now } in
    if too_long 64 name
    then err data_too_long
    else if any (λ s. s.id == id || s.name == name) d.roles
    then ok (tt, d)
    else ok (tt, record d { roles = r ∷ d.roles })

module _ (run : Run) where
  unfoldable pub find_role : String → M Role
  find_role id = query_row run (role_at id)

  unfoldable pub find_role_by_name : String → M Role
  find_role_by_name name = query_row run (role_named name)

  unfoldable pub lock_role : String → M Role
  lock_role id = query_row run (role_at id)

  unfoldable pub list_roles : M (List Role)
  list_roles = query run (λ d. sort_by role_order d.roles)

  unfoldable pub create_role : String → String → M (Unit {0})
  create_role id name = statement run (insert_role run.now name id)

  unfoldable pub update_role : String → String → M (Unit {0})
  update_role id name = statement run (rename_role run.now id name)

  unfoldable pub delete_role : String → M (Unit {0})
  delete_role id = statement run (delete_role_row id)

  unfoldable pub list_role_permissions : String → M (List Permission)
  list_role_permissions role = query run (permissions_of role)

  unfoldable pub list_role_permission_ids : String → M (List String)
  list_role_permission_ids role = query run (permission_ids role)

  unfoldable pub clear_role_permissions : String → M (Unit {0})
  clear_role_permissions role = exec run (clear role)

  unfoldable pub assign_role_permission : String → String → M (Unit {0})
  assign_role_permission role permission = statement run (assign_or_keep role permission)

  -- the id is the column's default, `uuid()`
  unfoldable pub seed_role : String → M (Unit {0})
  seed_role name = do id ← draw run; statement run (seed_role_row run.now name id)

  unfoldable pub seed_admin_permissions : M (Unit {0})
  seed_admin_permissions =
      exec run
        λ d. record d { role_permissions = grant_admins d.roles d.permissions d.role_permissions }
