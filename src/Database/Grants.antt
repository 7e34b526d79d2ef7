-- ===== src/Database/Grants.antt =====
-- Which role has which permission, as a test on `role_permissions`, and what the statements of
-- Database/Roles do to it.
use golang_backend.Base.{
  String, ◌≡◌, refl, ◌∙◌, ap, Bool, not, ◌&&◌, ◌||◌, List, [], ◌∷◌, arith, ◌==◌, string_eq, any,
  keep_if, contains, contains-sort_by, text_le, map,
}
use golang_backend.Database.Tables.{Db, RolePermission}
use golang_backend.Database.Action.{ok, Run, World, wrap}
use golang_backend.Database.Laws.{wrap-ok, statement-ok}
use golang_backend.Database.Effects.{exec-ok}
use golang_backend.Database.Roles.{
  permission_ids, same_grant, assign, clear, clear_role_permissions, assign_role_permission,
}

abbrev pub granted : String → String → Db → Bool
granted role q d = any (same_grant role q) d.role_permissions

contains-grants :
    (role q : String) (gs : List RolePermission)
    → contains (map (λ g. g.permission_id) (keep_if (λ g. g.role_id == role) gs)) q
      ≡ any (same_grant role q) gs
contains-grants role q [] = refl
contains-grants role q (g ∷ gs) = ground (arith, contains-grants role q gs)

pub contains-permission_ids :
    (role q : String) (d : Db) → contains (permission_ids role d) q ≡ granted role q d
unfolding permission_ids
contains-permission_ids role q d =
    contains-sort_by text_le _ q ∙ contains-grants role q d.role_permissions

granted_same :
    (role permission r q : String) (d : Db)
    → r ≡ role
    → q ≡ permission
    → granted r q d ≡ granted role permission d
granted_same role permission r q d e f = rw (e, f)

granted-assign :
    (role permission r q : String) (d d' : Db)
    → assign role permission d ≡ ok (tt, d')
    → granted r q d' ≡ ((r == role && q == permission) || granted r q d)
unfolding assign
granted-assign role permission r q d d' h = ground (arith, granted_same role permission r q d)

granted-clear :
    (role r q : String) (gs : List RolePermission)
    → any (same_grant r q) (keep_if (λ g. not (g.role_id == role)) gs)
      ≡ (not (r == role) && any (same_grant r q) gs)
granted-clear role r q [] = ground arith
granted-clear role r q (g ∷ gs) = ground (arith, granted-clear role r q gs)

module _ (run : Run) where
  pub clear_role_permissions-ok :
      (role : String) (w : World) {w' : World}
      → wrap (clear_role_permissions run role) w ≡ (ok tt, w')
      → (r q : String) → granted r q w'.db ≡ (not (r == role) && granted r q w.db)
  unfolding clear_role_permissions clear
  clear_role_permissions-ok role w h r q =
      ap (granted r q) (exec-ok run (clear role) w (wrap-ok _ w h))
      ∙ granted-clear role r q w.db.role_permissions

  pub assign_role_permission-ok :
      (role permission : String) (w : World) {w' : World}
      → wrap (assign_role_permission run role permission) w ≡ (ok tt, w')
      → (r q : String) → granted r q w'.db ≡ ((r == role && q == permission) || granted r q w.db)
  unfolding assign_role_permission
  assign_role_permission-ok role permission w {w'} h r q =
      granted-assign role permission r q w.db w'.db (statement-ok run _ w (wrap-ok _ w h))
