-- ===== src/Database/Permissions.antt =====
-- internal/db/sqlc/permission.sql.go: the statements on permissions.
use golang_backend.Base.{
  ℕ, ◌+◌, String, Bool, true, false, not, ◌&&◌, ◌||◌, Option, none, some, List, [], ◌∷◌, ◌==◌,
  string_eq, if◌then◌else◌, any, keep_if, find_first, update_where, sort_by, text_le, map,
}
use golang_backend.Fault.{pg}
use golang_backend.Database.Tables.{Db, Permission, RolePermission, User}
use golang_backend.Database.Action.{
  Result, ok, err, Run, M, draw, statement, query, query_row, row_of, ◌>>=◌,
}

unfoldable pub permission_at : String → Db → Option Permission
permission_at id d = find_first (λ p. p.id == id) d.permissions

unfoldable pub permission_order : Permission → Permission → Bool
permission_order p q = if p.name == q.name then text_le p.id q.id else text_le p.name q.name

unfoldable pub insert_permission : ℕ → String → String → Db → Result (Permission × Db)
insert_permission now name id d =
    let p : Permission = record { id = id; name = name; created_at = now; updated_at = now } in
    if any (λ q. q.id == id || q.name == name) d.permissions
    then err (pg "23505")
    else ok (p, record d { permissions = p ∷ d.permissions })

unfoldable pub rename : ℕ → String → String → Db → Result (Permission × Db)
rename now id name d =
    let permissions' =
      update_where (λ p. p.id == id) (λ p. record p { name = name; updated_at = now })
        d.permissions in
    if not (any (λ q. q.id == id) d.permissions)
    then row_of none d
    else if any (λ q. not (q.id == id) && q.name == name) d.permissions
    then err (pg "23505")
    else row_of (find_first (λ p. p.id == id) permissions')
        (record d { permissions = permissions' })

-- its grants go with it
unfoldable pub delete_row : String → Db → Result (Unit {0} × Db)
delete_row id d = ok (
  tt,
  record d {
    permissions = keep_if (λ p. not (p.id == id)) d.permissions;
    role_permissions = keep_if (λ g. not (g.permission_id == id)) d.role_permissions;
  },
)

abbrev is_null : Option ℕ → Bool
is_null none = true
is_null (some t) = false

-- the rows of a JOIN, counted from the inside out
named : String → String → List Permission → ℕ
named id name [] = 0
named id name (p ∷ ps) = (if p.id == id && p.name == name then 1 else 0) + named id name ps

grants : String → String → List Permission → List RolePermission → ℕ
unfolding named
grants role name ps [] = 0
grants role name ps (g ∷ gs) =
    (if g.role_id == role then named g.permission_id name ps else 0) + grants role name ps gs

holders_among : String → List Permission → List RolePermission → List User → ℕ
unfolding grants
holders_among name ps gs [] = 0
holders_among name ps gs (u ∷ us) =
    (if is_null u.deleted_at then grants u.role_id name ps gs else 0) + holders_among name ps gs us

-- `SELECT COUNT(*) FROM users u JOIN role_permissions rp … JOIN permissions p … WHERE p.name=… AND
-- u.deleted_at IS NULL`
unfoldable pub holders : String → Db → ℕ
unfolding holders_among
holders name d = holders_among name d.permissions d.role_permissions d.users

-- `SELECT rp.role_id FROM role_permissions rp JOIN permissions p …`
unfoldable pub roles_granting : String → List Permission → List RolePermission → List String
roles_granting name ps [] = []
roles_granting name ps (g ∷ gs) =
    let rest = roles_granting name ps gs in
    if any (λ p. p.id == g.permission_id && p.name == name) ps then g.role_id ∷ rest else rest

module _ (run : Run) where
  unfoldable pub find_permission : String → M Permission
  find_permission id = query_row run (permission_at id)

  unfoldable pub lock_permission : String → M Permission
  lock_permission id = query_row run (permission_at id)

  unfoldable pub list_permissions : M (List Permission)
  unfolding permission_order
  list_permissions = query run (λ d. sort_by permission_order d.permissions)

  unfoldable pub create_permission : String → M Permission
  unfolding insert_permission
  create_permission name = do id ← draw run; statement run (insert_permission run.now name id)

  unfoldable pub update_permission : String → String → M Permission
  unfolding rename
  update_permission id name = statement run (rename run.now id name)

  unfoldable pub delete_permission : String → M (Unit {0})
  unfolding delete_row
  delete_permission id = statement run (delete_row id)

  unfoldable pub lock_permission_by_name : String → M (List String)
  lock_permission_by_name name =
      query run (λ d. map (λ p. p.id) (keep_if (λ p. p.name == name) d.permissions))

  unfoldable pub count_active_permission_holders : String → M ℕ
  count_active_permission_holders name = query run (holders name)

  unfoldable pub list_role_ids_with_permission_name : String → M (List String)
  unfolding roles_granting
  list_role_ids_with_permission_name name =
      query run (λ d. roles_granting name d.permissions d.role_permissions)
