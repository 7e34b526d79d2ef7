-- ===== src/Mysql/Permissions.antt =====
-- internal/db/mysql/sqlc/permission.sql.go and seed.sql.go: the statements on permissions.
use golang_backend.Base.{
  ℕ, String, not, ◌&&◌, ◌||◌, List, ◌∷◌, ◌==◌, string_eq, if◌then◌else◌, any, update_where, keep_if,
  sort_by, map,
}
use golang_backend.Database.Tables.{Db, Permission}
use golang_backend.Database.Action.{
  Result, ok, err, Run, M, draw, statement, query, query_row, exec, ◌>>=◌,
}
use golang_backend.Database.Permissions.{permission_at, permission_order, holders, roles_granting}
use golang_backend.Mysql.Errors.{duplicate_entry, data_too_long, too_long}

-- `name varchar(128) NOT NULL UNIQUE`
unfoldable pub insert_permission : ℕ → String → String → Db → Result (Unit {0} × Db)
insert_permission now name id d =
    let p : Permission = record { id = id; name = name; created_at = now; updated_at = now } in
    if too_long 128 name
    then err data_too_long
    else if any (λ q. q.id == id || q.name == name) d.permissions
    then err duplicate_entry
    else ok (tt, record d { permissions = p ∷ d.permissions })

unfoldable pub rename_permission : ℕ → String → String → Db → Result (Unit {0} × Db)
rename_permission now id name d =
    if not (any (λ q. q.id == id) d.permissions)
    then ok (tt, d)
    else if too_long 128 name
    then err data_too_long
    else if any (λ q. not (q.id == id) && q.name == name) d.permissions
    then err duplicate_entry
    else ok (
      tt,
      record d {
        permissions =
            update_where (λ p. p.id == id) (λ p. record p { name = name; updated_at = now })
              d.permissions;
      },
    )

unfoldable pub remove_permission : String → Db → Db
remove_permission id d = record d {
  permissions = keep_if (λ p. not (p.id == id)) d.permissions;
  role_permissions = keep_if (λ g. not (g.permission_id == id)) d.role_permissions;
}

unfoldable pub seed_permission_row : ℕ → String → String → Db → Result (Unit {0} × Db)
seed_permission_row now name id d =
    let p : Permission = record { id = id; name = name; created_at = now; updated_at = now } in
    if too_long 128 name
    then err data_too_long
    else if any (λ q. q.id == id || q.name == name) d.permissions
    then ok (tt, d)
    else ok (tt, record d { permissions = p ∷ d.permissions })

module _ (run : Run) where
  unfoldable pub find_permission : String → M Permission
  find_permission id = query_row run (permission_at id)

  unfoldable pub lock_permission : String → M Permission
  lock_permission id = query_row run (permission_at id)

  unfoldable pub list_permissions : M (List Permission)
  list_permissions = query run (λ d. sort_by permission_order d.permissions)

  unfoldable pub create_permission : String → String → M (Unit {0})
  create_permission id name = statement run (insert_permission run.now name id)

  unfoldable pub update_permission : String → String → M (Unit {0})
  update_permission id name = statement run (rename_permission run.now id name)

  unfoldable pub delete_permission : String → M (Unit {0})
  delete_permission id = exec run (remove_permission id)

  unfoldable pub lock_permission_by_name : String → M (List String)
  lock_permission_by_name name =
      query run (λ d. map (λ p. p.id) (keep_if (λ p. p.name == name) d.permissions))

  unfoldable pub count_active_permission_holders : String → M ℕ
  count_active_permission_holders name = query run (holders name)

  unfoldable pub list_role_ids_with_permission_name : String → M (List String)
  list_role_ids_with_permission_name name =
      query run (λ d. roles_granting name d.permissions d.role_permissions)

  unfoldable pub seed_permission : String → M (Unit {0})
  seed_permission name = do id ← draw run; statement run (seed_permission_row run.now name id)
