-- ===== src/Mysql/Refinement/Permissions.antt =====
-- internal/db/mysql_adapter.go: the methods on permissions.
use golang_backend.Base.{
  ℕ, String, ◌≡◌, false, arith, ◌==◌, ==_refl, string_eq, nat_eq, find_first-none, keep_if, sort_by,
  map,
}
use golang_backend.Library.{Library}
use golang_backend.Database.Action.{exec}
use golang_backend.Database.Postgres.{postgres}
use golang_backend.Mysql.Errors.{too_long}
use golang_backend.Mysql.Adapter
use golang_backend.Mysql.Adapter.{mysql_queries}
use golang_backend.Mysql.Refinement.Uuids.{uuid-Implements}
use golang_backend.Mysql.Simulation.{
  SameRows, then_find, change_agrees, row_agrees, rows_agree, found-Implements, inserted-Implements,
}
use golang_backend.Mysql.Refinement.Errors.{db-duplicate}
use golang_backend.Database.Tables.{Db, Permission}
use golang_backend.Database.Permissions as Postgres
use golang_backend.Mysql.Permissions
use golang_backend.Mysql.Conditions.{Fits}
use golang_backend.Mysql.Contract.{PermissionMethods}

insert_permission-SameRows :
    (now : ℕ) (name id : String) (d : Db)
    → too_long 128 name ≡ false
    → SameRows
        (then_find (Postgres.permission_at id) (Permissions.insert_permission now name id d))
        (Postgres.insert_permission now name id d)
unfolding Permissions.insert_permission Postgres.insert_permission Postgres.permission_at
insert_permission-SameRows now name id d fits = ground (arith, db-duplicate, ==_refl id)

rename_permission-SameRows :
    (now : ℕ) (id name : String) (d : Db)
    → too_long 128 name ≡ false
    → SameRows
        (then_find (Postgres.permission_at id) (Permissions.rename_permission now id name d))
        (Postgres.rename now id name d)
unfolding Permissions.rename_permission Postgres.rename Postgres.permission_at
rename_permission-SameRows now id name d fits =
    ground (arith, db-duplicate, find_first-none (λ p. p.id == id) d.permissions)

module _ (lib : Library) where
  pub permission_methods : PermissionMethods lib (mysql_queries lib) (postgres lib)
  unfolding Postgres.count_active_permission_holders Permissions.count_active_permission_holders
      Postgres.create_permission Permissions.create_permission Adapter.create_permission
      Postgres.delete_permission Permissions.delete_permission Postgres.find_permission
      Permissions.find_permission Postgres.list_permissions Permissions.list_permissions
      Postgres.list_role_ids_with_permission_name Permissions.list_role_ids_with_permission_name
      Postgres.lock_permission Permissions.lock_permission Postgres.lock_permission_by_name
      Permissions.lock_permission_by_name Postgres.update_permission Permissions.update_permission
      Adapter.update_permission exec Permissions.remove_permission Postgres.delete_row
  permission_methods = record {
    count_active_permission_holders = λ name run w pre. rows_agree run (Postgres.holders name) w;
    create_permission = λ name.
        inserted-Implements (Fits 128 name) (λ now. Permissions.insert_permission now name)
          Postgres.permission_at (λ now. Postgres.insert_permission now name)
          λ run w fits. insert_permission-SameRows run.now name (run.fresh w.drawn) w.db fits;
    delete_permission = λ id.
        uuid-Implements lib (λ run k1. Postgres.delete_permission run k1) id
          (λ run w pre. change_agrees run (Permissions.remove_permission id) w);
    find_permission = λ id.
        uuid-Implements lib (λ run k1. Postgres.find_permission run k1) id
          (λ run w pre. row_agrees run (Postgres.permission_at id) w);
    list_permissions =
        λ run w pre. rows_agree run (λ d. sort_by Postgres.permission_order d.permissions) w;
    list_role_ids_with_permission_name = λ name run w pre.
        rows_agree run (λ d. Postgres.roles_granting name d.permissions d.role_permissions) w;
    lock_permission = λ id.
        uuid-Implements lib (λ run k1. Postgres.lock_permission run k1) id
          (λ run w pre. row_agrees run (Postgres.permission_at id) w);
    lock_permission_by_name = λ name run w pre.
        rows_agree run (λ d. map Permission.id (keep_if (λ p. p.name == name) d.permissions)) w;
    update_permission = λ id name.
        uuid-Implements lib (λ run k1. Postgres.update_permission run k1 name) id
          (found-Implements (Fits 128 name) (λ now. Permissions.rename_permission now id name)
            (Postgres.permission_at id) (λ now. Postgres.rename now id name)
            λ run w fits. rename_permission-SameRows run.now id name w.db fits);
  }
