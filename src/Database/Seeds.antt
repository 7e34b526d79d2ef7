-- ===== src/Database/Seeds.antt =====
-- internal/db/sqlc/seed.sql.go: the statements that put the first rows in, or leave those that are there.
use golang_backend.Base.{
  ℕ, String, none, some, List, [], ◌∷◌, ◌==◌, string_eq, if◌then◌else◌, any, find_first,
  update_where,
}
use golang_backend.Fault.{pg}
use golang_backend.Database.Tables.{Db, Role, Permission, RolePermission, User}
use golang_backend.Database.Action.{Result, ok, err, Run, M, draw, statement, exec, ◌>>=◌}
use golang_backend.Database.Roles.{grant, same_grant}

-- `ON CONFLICT(name) DO NOTHING`: a clash of ids is still refused
unfoldable pub seed_role_row : ℕ → String → String → Db → Result (Unit {0} × Db)
seed_role_row now name id d =
    let r : Role = record { id = id; name = name; created_at = now; updated_at = now } in
    if any (λ s. s.name == name) d.roles
    then ok (tt, d)
    else if any (λ s. s.id == id) d.roles
    then err (pg "23505")
    else ok (tt, record d { roles = r ∷ d.roles })

unfoldable pub seed_permission_row : ℕ → String → String → Db → Result (Unit {0} × Db)
seed_permission_row now name id d =
    let p : Permission = record { id = id; name = name; created_at = now; updated_at = now } in
    if any (λ q. q.name == name) d.permissions
    then ok (tt, d)
    else if any (λ q. q.id == id) d.permissions
    then err (pg "23505")
    else ok (tt, record d { permissions = p ∷ d.permissions })

-- of some grants those that are not there yet
abbrev pub add_grant : String → String → List RolePermission → List RolePermission
add_grant role permission gs =
    if any (same_grant role permission) gs then gs else grant role permission ∷ gs

unfoldable pub grant_all : String → List Permission → List RolePermission → List RolePermission
grant_all role [] gs = gs
grant_all role (p ∷ ps) gs = add_grant role p.id (grant_all role ps gs)

-- `roles r CROSS JOIN permissions p WHERE r.name='admin'`
unfoldable pub grant_admins :
    List Role → List Permission → List RolePermission → List RolePermission
unfolding grant_all
grant_admins [] ps gs = gs
grant_admins (r ∷ rs) ps gs =
    let rest = grant_admins rs ps gs in if r.name == "admin" then grant_all r.id ps rest else rest

pub record SeedUserParams : Type 0 where
  pub email : String
  pub password : String
  pub name : String

-- `ON CONFLICT(email) DO UPDATE SET role_id=EXCLUDED.role_id,deleted_at=NULL,updated_at=now()`
abbrev pub reseeded : ℕ → String → User → User
reseeded now role u = record u { role_id = role; deleted_at = none; updated_at = now }

abbrev pub seeded_user : ℕ → String → String → String → String → User
seeded_user now email password role id = record {
  id = id;
  email = email;
  password = password;
  role_id = role;
  deleted_at = none;
  created_at = now;
  updated_at = now;
}

-- the rows of `SELECT … FROM roles WHERE name=$3`: one at most, by the unique index on the name
unfoldable pub seed_user_row : ℕ → String → SeedUserParams → String → Db → Result (Unit {0} × Db)
seed_user_row now email a id d = elim (find_first (λ r. r.name == a.name) d.roles) [
  | none ↦ ok (tt, d)
  | some role ↦
      if any (λ u. u.email == email) d.users
      then ok (
        tt,
        record d { users = update_where (λ u. u.email == email) (reseeded now role.id) d.users },
      )
      else if any (λ u. u.id == id) d.users
      then err (pg "23505")
      else ok (tt, record d { users = seeded_user now email a.password role.id id ∷ d.users })
]

module _ (run : Run) where
  unfoldable pub seed_role : String → M (Unit {0})
  seed_role name = do id ← draw run; statement run (seed_role_row run.now name id)

  unfoldable pub seed_permission : String → M (Unit {0})
  seed_permission name = do id ← draw run; statement run (seed_permission_row run.now name id)

  unfoldable pub seed_admin_permissions : M (Unit {0})
  seed_admin_permissions =
      exec run
        λ d. record d { role_permissions = grant_admins d.roles d.permissions d.role_permissions }

module _ (lower : String → String) (run : Run) where
  unfoldable pub seed_user : SeedUserParams → M (Unit {0})
  seed_user a = do id ← draw run; statement run (seed_user_row run.now (lower a.email) a id)
