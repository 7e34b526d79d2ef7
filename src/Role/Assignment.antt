-- ===== src/Role/Assignment.antt =====
-- internal/role/service.go, `Assign`: what a successful assignment grants, and to whom it may.
use golang_backend.Base.{
  String, ◌≡◌, sym, ◌∙◌, ap, subst, ◌&&◌, ◌||◌, Option, List, [], ◌∷◌, arith, ◌==◌, string_eq,
  if◌then◌else◌, contains, contains-sort_by, contains-compact, sort_by, text_le, compact,
}
use golang_backend.Library.{Library}
use golang_backend.Model
use golang_backend.Database.Tables
use golang_backend.Database.Tables.{Db, ActivityLog}
use golang_backend.Database.Action.{Result, ok, err, Run, World, wrap, for_each}
use golang_backend.Database.Laws.{bind-ok, pure-ok, check-ok, raise_ne_ok, attempt-ok}
use golang_backend.Database.Effects.{Reads, wrapped_query-ok, wrapped_row-ok, for_each-Reads}
use golang_backend.Database.Grants.{granted, clear_role_permissions-ok, assign_role_permission-ok}
use golang_backend.Database.Roles.{
  permission_ids, lock_role, list_role_permission_ids, find_role, list_role_permissions,
}
use golang_backend.Database.Permissions.{find_permission, holders}
use golang_backend.Audit.Writer.{Actor, Policy, Change}
use golang_backend.Audit.Laws.{mutate-relates}
use golang_backend.Role.Service.{get, assign, assign_body, find_known, known_or, grant_one}
use golang_backend.Role.Laws.{
  Within, StillHeld, permissions_within_actor-ok, guard_system_permission_holders-ok,
}

module _ (lib : Library) (run : Run) where
  find_known-Reads : (id : String) → Reads (find_known lib run id)
  unfolding find_known find_permission known_or
  find_known-Reads id w _ w' h =
      bind-ok _ _ w h λ found w1 read end. known found w1 (attempt-ok _ w read) end
    where
      known :
          (found : Result Tables.Permission) (w1 : World)
          → wrap (find_permission run id) w ≡ (found, w1)
          → known_or lib run found w1 ≡ (ok tt, w')
          → w'.db ≡ w.db
      known (ok p) w1 read end =
          ap World.db (sym (pure-ok tt w1 end).1) ∙ (wrapped_row-ok run _ w read).1
      known (err e) w1 read end = absurd (raise_ne_ok _ w1 end)

  granted_each :
      (role : String) (ids : List String) (w : World) {w' : World}
      → for_each ids (grant_one lib run role) w ≡ (ok tt, w')
      → (r q : String) → granted r q w'.db ≡ ((r == role && contains ids q) || granted r q w.db)
  unfolding for_each grant_one
  granted_each role [] w h r q = ground (arith, pure-ok tt w h)
  granted_each role (id ∷ ids) w h r q = bind-ok _ _ w h λ _ w1 first rest.
      ground (
        arith,
        assign_role_permission-ok run role id w first r q,
        granted_each role ids w1 rest r q,
      )

  -- what the transaction of `Assign` establishes
  pub record Assigned (actor : Option Actor) (role : String) (ids : List String) (d d' : Db)
      : Type 0 where
    pub granted_exactly :
        (r q : String) → granted r q d' ≡ (if r == role then contains ids q else granted r q d)
    pub new_within : Within actor ids d
    pub old_within : Within actor (permission_ids role d) d
    pub still_held : StillHeld d d'

  assign_body-Assigned :
      (actor : Option Actor) (role : String) (ids : List String) (w : World)
      {done : Unit {0} × Change} {w' : World}
      → assign_body lib run actor role ids w ≡ (ok done, w')
      → Assigned actor role ids w.db w'.db
  unfolding assign_body lock_role list_role_permission_ids
  assign_body-Assigned actor role ids w {w'} h = bind-ok _ _ w h λ row w1 locked h1.
      bind-ok _ _ w1 h1 λ old w2 listed h2. bind-ok _ _ w2 h2 λ _ w3 known h3.
        bind-ok _ _ w3 h3 λ _ w4 old_passed h4. bind-ok _ _ w4 h4 λ _ w5 new_passed h5.
          bind-ok _ _ w5 h5 λ recheck w6 guarded h6. bind-ok _ _ w6 h6 λ _ w7 cleared h7.
            bind-ok _ _ w7 h7 λ _ w8 assigned h8. bind-ok _ _ w8 h8 λ _ w9 rechecked end.
              let e1 = (wrapped_row-ok run _ w locked).1 in
              let (old_eq, e2) = wrapped_query-ok run _ w1 listed in
              let e3 = for_each-Reads (find_known lib run) find_known-Reads ids w2 tt w3 known in
              let (e4, old_within) = permissions_within_actor-ok run actor old w3 old_passed in
              let (e5, new_within) = permissions_within_actor-ok run actor ids w4 new_passed in
              let (e6, keeps) = guard_system_permission_holders-ok run w5 guarded in
              let (e9, still_held) = keeps w8 w9 rechecked in
              let last = ap World.db (sym (pure-ok _ w9 end).1) ∙ e9 in
              let at3 = e3 ∙ e2 ∙ e1 in
              let at4 = e4 ∙ at3 in
              let at5 = e5 ∙ at4 in
              record {
                granted_exactly = λ r q. ground (
                  arith,
                  ap (granted r q) last,
                  granted_each role ids w7 assigned r q,
                  clear_role_permissions-ok run role w6 cleared r q,
                  ap (granted r q) (e6 ∙ at5),
                );
                new_within = subst (Within actor ids) at4 new_within;
                old_within =
                    subst (λ held. Within actor held w.db)
                      (sym old_eq ∙ ap (permission_ids role) e1)
                      (subst (Within actor old) at3 old_within);
                still_held =
                    subst (λ d. StillHeld d w'.db) at5
                      (subst (StillHeld w5.db) (sym last) still_held);
              }

  Assigned-log :
      (actor : Option Actor) (role : String) (ids : List String) (d d' : Db)
      (rows : List ActivityLog)
      → Assigned actor role ids d d'
      → Assigned actor role ids d (record d' { logs = rows })
  unfolding holders
  Assigned-log actor role ids d d' rows a = record {
    granted_exactly = a.granted_exactly;
    new_within = a.new_within;
    old_within = a.old_within;
    still_held = a.still_held;
  }

  -- the order of the request, and what it names twice, do not matter
  contains-sorted :
      (ids : List String) (q : String) → contains (compact (sort_by text_le ids)) q ≡ contains ids q
  contains-sorted ids q = contains-compact (sort_by text_le ids) q ∙ contains-sort_by text_le ids q

  Assigned-sorted :
      (actor : Option Actor) (role : String) (ids : List String) {d d' : Db}
      → Assigned actor role (compact (sort_by text_le ids)) d d'
      → Assigned actor role ids d d'
  Assigned-sorted actor role ids a = record {
    granted_exactly = λ r q. ground (arith, a.granted_exactly r q, contains-sorted ids q);
    new_within = λ q m. a.new_within q (contains-sorted ids q ∙ m);
    old_within = a.old_within;
    still_held = a.still_held;
  }

  pub get-Reads : (id : String) → Reads (get lib run id)
  unfolding get find_role list_role_permissions
  get-Reads id w _ w' h = bind-ok _ _ w h λ _ w1 checked h1. bind-ok _ _ w1 h1 λ row w2 found h2.
      bind-ok _ _ w2 h2 λ permissions w3 listed end.
        ap World.db (sym (pure-ok _ w3 end).1)
        ∙ (wrapped_query-ok run _ w2 listed).1
        ∙ (wrapped_row-ok run _ w1 found).1
        ∙ ap World.db (sym (check-ok _ w checked).1)

  -- An assignment that succeeds leaves the role with exactly the permissions of the request and the
  -- other roles with theirs. The actor holds, before it, every permission of the request and every one
  -- that the role had, and no system permission that an active user held is left without one.
  pub assign-ok :
      (p : Policy) (actor : Option Actor) (role : String) (ids : List String) (w : World)
      {r : Model.Role} {w' : World}
      → assign lib run p actor role ids w ≡ (ok r, w')
      → Assigned actor role ids w.db w'.db
  unfolding assign
  assign-ok p actor role ids w h = bind-ok _ _ w h λ _ w1 c1 h1. bind-ok _ _ w1 h1 λ _ w2 c2 h2.
      bind-ok _ _ w2 h2 λ _ w3 c3 h3. bind-ok _ _ w3 h3 λ _ w4 mutated h4.
        let sorted = compact (sort_by text_le ids) in
        let same =
          ap World.db (check-ok _ w c1).1
          ∙ ap World.db (check-ok _ w1 c2).1
          ∙ ap World.db (check-ok _ w2 c3).1 in
        let done =
          mutate-relates run p actor "UPDATE" (Assigned actor role sorted) _
            (Assigned-log actor role sorted)
            (λ v u done ran. assign_body-Assigned actor role sorted v ran) w3 mutated in
        Assigned-sorted actor role ids (
          subst (Assigned actor role sorted w.db) (sym (get-Reads role w4 _ _ h4))
            (subst (λ d. Assigned actor role sorted d w4.db) (sym same) done))
