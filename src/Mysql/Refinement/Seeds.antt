-- ===== src/Mysql/Refinement/Seeds.antt =====
-- internal/db/mysql_adapter.go: the methods that put the first rows in.
use golang_backend.Base.{ℕ, String, ◌≡◌, false, arith, ◌==◌, string_eq, nat_eq, any, any-or}
use golang_backend.Library.{Library}
use golang_backend.Database.Postgres.{postgres}
use golang_backend.Mysql.Errors.{too_long}
use golang_backend.Mysql.Adapter.{mysql_queries}
use golang_backend.Mysql.Simulation.{SameRows, change_agrees, drawn-Implements}
use golang_backend.Database.Tables.{Db}
use golang_backend.Database.Seeds as Postgres
use golang_backend.Database.Seeds.{SeedUserParams}
use golang_backend.Mysql.Roles
use golang_backend.Mysql.Permissions
use golang_backend.Mysql.Users
use golang_backend.Mysql.Conditions.{NewRole, NewPermission, NewUser}
use golang_backend.Mysql.Contract.{SeedMethods}

seed_role-SameRows :
    (now : ℕ) (name id : String) (d : Db)
    → too_long 64 name ≡ false
    → any (λ r. r.id == id) d.roles ≡ false
    → SameRows (Roles.seed_role_row now name id d) (Postgres.seed_role_row now name id d)
unfolding Roles.seed_role_row Postgres.seed_role_row
seed_role-SameRows now name id d fits fresh =
    ground (arith, any-or (λ r. r.id == id) (λ r. r.name == name) d.roles)

seed_permission-SameRows :
    (now : ℕ) (name id : String) (d : Db)
    → too_long 128 name ≡ false
    → any (λ p. p.id == id) d.permissions ≡ false
    → SameRows
        (Permissions.seed_permission_row now name id d)
        (Postgres.seed_permission_row now name id d)
unfolding Permissions.seed_permission_row Postgres.seed_permission_row
seed_permission-SameRows now name id d fits fresh =
    ground (arith, any-or (λ p. p.id == id) (λ p. p.name == name) d.permissions)

seed_user-SameRows :
    (now : ℕ) (email : String) (a : SeedUserParams) (id : String) (d : Db)
    → too_long 255 email ≡ false
    → too_long 255 a.password ≡ false
    → any (λ u. u.id == id) d.users ≡ false
    → SameRows (Users.seed_user_row now email a id d) (Postgres.seed_user_row now email a id d)
unfolding Users.seed_user_row Postgres.seed_user_row
seed_user-SameRows now email a id d fits hash fresh = ground arith

module _ (lib : Library) where
  pub seed_methods : SeedMethods lib (mysql_queries lib) (postgres lib)
  unfolding Postgres.seed_admin_permissions Roles.seed_admin_permissions Postgres.seed_permission
      Permissions.seed_permission Postgres.seed_role Roles.seed_role Postgres.seed_user
      Users.seed_user
  seed_methods = record {
    seed_admin_permissions = λ run w pre.
        change_agrees run
          (λ d. record d {
            role_permissions = Postgres.grant_admins d.roles d.permissions d.role_permissions;
          })
          w;
    seed_permission = λ name.
        drawn-Implements (NewPermission name) (λ now. Permissions.seed_permission_row now name)
          (λ now. Postgres.seed_permission_row now name)
          λ run w new. seed_permission-SameRows run.now name (run.fresh w.drawn) w.db new.0 new.1;
    seed_role = λ name.
        drawn-Implements (NewRole name) (λ now. Roles.seed_role_row now name)
          (λ now. Postgres.seed_role_row now name)
          λ run w new. seed_role-SameRows run.now name (run.fresh w.drawn) w.db new.0 new.1;
    seed_user = λ a.
        drawn-Implements (NewUser lib a) (λ now. Users.seed_user_row now (lib.lower a.email) a)
          (λ now. Postgres.seed_user_row now (lib.lower a.email) a)
          λ run w new.
            seed_user-SameRows run.now (lib.lower a.email) a (run.fresh w.drawn) w.db new.0 new.1
              new.2;
  }
