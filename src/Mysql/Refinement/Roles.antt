-- ===== src/Mysql/Refinement/Roles.antt =====
-- internal/db/mysql_adapter.go: the methods on roles.
use golang_backend.Base.{
  ℕ, String, ◌≡◌, false, arith, ◌==◌, ==_refl, string_eq, find_first-none, sort_by,
}
use golang_backend.Library.{Library}
use golang_backend.Database.Tables.{Db}
use golang_backend.Database.Roles as Postgres
use golang_backend.Database.Postgres.{postgres}
use golang_backend.Mysql.Errors.{too_long}
use golang_backend.Mysql.Roles
use golang_backend.Mysql.Adapter
use golang_backend.Mysql.Adapter.{mysql_queries}
use golang_backend.Mysql.Refinement.Uuids.{uuid-Implements}
use golang_backend.Database.Uuid.{by_uuid}
use golang_backend.Mysql.Simulation.{
  SameRows, then_find, Always, change_agrees, row_agrees, rows_agree, statement-Implements,
  found-Implements, inserted-Implements,
}
use golang_backend.Mysql.Conditions.{Fits}
use golang_backend.Mysql.Contract.{RoleMethods}
use golang_backend.Mysql.Refinement.Errors.{db-duplicate, db-no_referenced, db-is_referenced}

insert_role-SameRows :
    (now : ℕ) (name id : String) (d : Db)
    → too_long 64 name ≡ false
    → SameRows
        (then_find (Postgres.role_at id) (Roles.insert_role now name id d))
        (Postgres.insert_role now name id d)
unfolding Roles.insert_role Postgres.insert_role Postgres.role_at
insert_role-SameRows now name id d fits = ground (arith, db-duplicate, ==_refl id)

rename_role-SameRows :
    (now : ℕ) (id name : String) (d : Db)
    → too_long 64 name ≡ false
    → SameRows
        (then_find (Postgres.role_at id) (Roles.rename_role now id name d))
        (Postgres.rename now id name d)
unfolding Roles.rename_role Postgres.rename Postgres.role_at
rename_role-SameRows now id name d fits =
    ground (arith, db-duplicate, find_first-none (λ r. r.id == id) d.roles)

delete_role-SameRows :
    (id : String) (d : Db) → SameRows (Roles.delete_role_row id d) (Postgres.delete_row id d)
unfolding Roles.delete_role_row Postgres.delete_row
delete_role-SameRows id d = ground (arith, db-is_referenced)

assign-SameRows :
    (role permission : String) (d : Db)
    → SameRows (Roles.assign_or_keep role permission d) (Postgres.assign role permission d)
unfolding Roles.assign_or_keep Postgres.assign
assign-SameRows role permission d = ground (arith, db-no_referenced)

module _ (lib : Library) where
  pub role_methods : RoleMethods lib (mysql_queries lib) (postgres lib)
  unfolding Adapter.create_role Adapter.update_role Roles.find_role Postgres.find_role
      Roles.create_role Roles.find_role_by_name Postgres.find_role_by_name Roles.lock_role
      Postgres.lock_role Roles.list_roles Postgres.list_roles Roles.update_role Postgres.update_role
      Roles.delete_role Postgres.delete_role Postgres.create_role Roles.list_role_permissions
      Postgres.list_role_permissions Roles.list_role_permission_ids
      Postgres.list_role_permission_ids Roles.clear_role_permissions Postgres.clear_role_permissions
      Roles.assign_role_permission Postgres.assign_role_permission
  role_methods = record {
    assign_role_permission = λ role permission.
        uuid-Implements lib
          (λ run k1. by_uuid lib run (λ k2. Postgres.assign_role_permission run k1 k2) permission)
          role
          (uuid-Implements lib (λ run k2. Postgres.assign_role_permission run role k2) permission
            (statement-Implements Always (λ now. Roles.assign_or_keep role permission)
              (λ now. Postgres.assign role permission)
              λ run w pre. assign-SameRows role permission w.db));
    clear_role_permissions = λ role.
        uuid-Implements lib (λ run k1. Postgres.clear_role_permissions run k1) role
          (λ run w pre. change_agrees run (Postgres.clear role) w);
    create_role = λ name.
        inserted-Implements (Fits 64 name) (λ now. Roles.insert_role now name) Postgres.role_at
          (λ now. Postgres.insert_role now name)
          λ run w fits. insert_role-SameRows run.now name (run.fresh w.drawn) w.db fits;
    delete_role = λ id.
        uuid-Implements lib (λ run k1. Postgres.delete_role run k1) id
          (statement-Implements Always (λ now. Roles.delete_role_row id)
            (λ now. Postgres.delete_row id) λ run w pre. delete_role-SameRows id w.db);
    find_role = λ id.
        uuid-Implements lib (λ run k1. Postgres.find_role run k1) id
          (λ run w pre. row_agrees run (Postgres.role_at id) w);
    find_role_by_name = λ name run w pre. row_agrees run (Postgres.role_named name) w;
    list_role_permission_ids = λ role.
        uuid-Implements lib (λ run k1. Postgres.list_role_permission_ids run k1) role
          (λ run w pre. rows_agree run (Postgres.permission_ids role) w);
    list_role_permissions = λ role.
        uuid-Implements lib (λ run k1. Postgres.list_role_permissions run k1) role
          (λ run w pre. rows_agree run (Postgres.permissions_of role) w);
    list_roles = λ run w pre. rows_agree run (λ d. sort_by Postgres.role_order d.roles) w;
    lock_role = λ id.
        uuid-Implements lib (λ run k1. Postgres.lock_role run k1) id
          (λ run w pre. row_agrees run (Postgres.role_at id) w);
    update_role = λ id name.
        uuid-Implements lib (λ run k1. Postgres.update_role run k1 name) id
          (found-Implements (Fits 64 name) (λ now. Roles.rename_role now id name)
            (Postgres.role_at id) (λ now. Postgres.rename now id name)
            λ run w fits. rename_role-SameRows run.now id name w.db fits);
  }
