-- ===== src/Permission/Laws.antt =====
-- internal/permission/service.go: which permissions may be removed or renamed, and by whom.
use golang_backend.Base.{
  if◌then◌else◌, String, ◌≡◌, refl, sym, ◌∙◌, ap, subst, false, not, Option, none, some, List, [],
  ◌∷◌, arith, ◌==◌, string_eq, contains, find_first, keep_if, any,
}
use golang_backend.Library.{Library}
use golang_backend.Database.Tables.{Db, Permission, RolePermission, ActivityLog}
use golang_backend.Database.Action.{ok, Run, World}
use golang_backend.Database.Laws.{bind-ok, pure-ok, wrap-ok, check-ok, statement-ok}
use golang_backend.Database.Effects.{wrapped_row-ok}
use golang_backend.Database.Permissions.{
  permission_at, lock_permission, delete_row, delete_permission,
}
use golang_backend.Audit.Writer.{Actor, Policy, Change}
use golang_backend.Audit.Laws.{mutate-relates}
use golang_backend.Role.Privilege.{system_permissions, not_system_name}
use golang_backend.Role.Laws.{Within, permissions_within_actor-ok}
use golang_backend.Permission.Service.{delete, delete_body}

-- what a deletion of the permission does to the tables
pub record Removed (actor : Option Actor) (id : String) (d d' : Db) : Type 0 where
  pub permission : Permission
  pub was_there : permission_at id d ≡ some permission
  pub not_system : contains system_permissions permission.name ≡ false
  pub within : Within actor (id ∷ []) d
  pub no_grant : any (λ g. g.permission_id == id) d'.role_permissions ≡ false
  pub permissions_after :
      (j : String) → permission_at j d' ≡ (if j == id then none else permission_at j d)

ungranted :
    (id : String) (gs : List RolePermission)
    → any (λ g. g.permission_id == id) (keep_if (λ g. not (g.permission_id == id)) gs) ≡ false
ungranted id [] = refl
ungranted id (g ∷ gs) = ground (arith, ungranted id gs)

found_after :
    (id j : String) (ps : List Permission)
    → find_first (λ p. p.id == j) (keep_if (λ p. not (p.id == id)) ps)
      ≡ (if j == id then none else find_first (λ p. p.id == j) ps)
found_after id j [] = ground arith
found_after id j (p ∷ ps) = ground (arith, found_after id j ps)

not_system_name-none :
    (name : String)
    → not_system_name system_permissions "permission" name ≡ none
    → contains system_permissions name ≡ false
unfolding not_system_name
not_system_name-none name h = ground arith

module _ (lib : Library) (run : Run) where
  delete_body-Removed :
      (actor : Option Actor) (id : String) (w : World) {done : Unit {0} × Change} {w' : World}
      → delete_body lib run actor id w ≡ (ok done, w')
      → Removed actor id w.db w'.db
  unfolding delete_body lock_permission delete_permission delete_row permission_at
  delete_body-Removed actor id w {w'} h = bind-ok _ _ w h λ row w1 locked h1.
      bind-ok _ _ w1 h1 λ _ w2 checked h2. bind-ok _ _ w2 h2 λ _ w3 passed h3.
        bind-ok _ _ w3 h3 λ _ w4 removed end.
          let (found, e1) = wrapped_row-ok run _ w locked in
          let (named, e2) = check-ok _ w1 checked in
          let (e3, within) = permissions_within_actor-ok run actor (id ∷ []) w2 passed in
          let e4 = statement-ok run (delete_row id) w3 (wrap-ok _ w3 removed) in
          let last = ap World.db (sym (pure-ok _ w4 end).1) in
          let at2 = ap World.db (sym e2) ∙ e1 in
          let at3 = e3 ∙ at2 in
          let rows : w'.db.permissions ≡ keep_if (λ p. not (p.id == id)) w.db.permissions =
            ground (arith, ap Db.permissions last, ap Db.permissions at3) in
          let grants : w'.db.role_permissions
              ≡ keep_if (λ g. not (g.permission_id == id)) w.db.role_permissions =
            ground (arith, ap Db.role_permissions last, ap Db.role_permissions at3) in
          record {
            permission = row;
            was_there = found;
            not_system = not_system_name-none row.name named;
            within = subst (Within actor (id ∷ [])) at2 within;
            no_grant =
                ap (any (λ g. g.permission_id == id)) grants ∙ ungranted id w.db.role_permissions;
            permissions_after =
                λ j. ap (find_first (λ p. p.id == j)) rows ∙ found_after id j w.db.permissions;
          }

  Removed-log :
      (actor : Option Actor) (id : String) (d d' : Db) (rows : List ActivityLog)
      → Removed actor id d d'
      → Removed actor id d (record d' { logs = rows })
  unfolding permission_at
  Removed-log actor id d d' rows a = record {
    permission = a.permission;
    was_there = a.was_there;
    not_system = a.not_system;
    within = a.within;
    no_grant = a.no_grant;
    permissions_after = a.permissions_after;
  }

  -- A deletion that succeeds is of a permission that is there, is no system permission and is one that
  -- the actor's role has. Afterwards it is gone, no role has it, and the others are as before.
  pub permission_delete-ok :
      (p : Policy) (actor : Option Actor) (id : String) (w : World) {w' : World}
      → delete lib run p actor id w ≡ (ok tt, w')
      → Removed actor id w.db w'.db
  unfolding delete
  permission_delete-ok p actor id w {w'} h = bind-ok _ _ w h λ _ w1 c1 mutated.
      subst (λ d. Removed actor id d w'.db) (sym (ap World.db (check-ok _ w c1).1))
        (mutate-relates run p actor "DELETE" (Removed actor id) _ (Removed-log actor id)
          (λ v u done ran. delete_body-Removed actor id v ran) w1 mutated)
