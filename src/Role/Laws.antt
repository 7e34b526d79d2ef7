-- ===== src/Role/Laws.antt =====
-- What the checks of internal/role/privilege.go establish where they let an operation pass.
use golang_backend.Base.{
  String, ◌≡◌, refl, sym, ◌∙◌, ap, ◌<◌, true, Option, none, some, List, [], ◌∷◌, arith, ◌==◌,
  string_eq, nat_eq, contains, keep_if, ◌&&◌, ==→eq,
}
use golang_backend.Database.Tables.{Db}
use golang_backend.Database.Action.{ok, Run, World, M}
use golang_backend.Database.Laws.{bind-ok, pure-ok, check-ok, raise_ne_ok, if-ok}
use golang_backend.Database.Effects.{Reads, wrapped_query-ok, for_each-Reads}
use golang_backend.Database.Roles.{permission_ids, list_role_permission_ids}
use golang_backend.Database.Permissions.{
  holders, lock_permission_by_name, count_active_permission_holders,
}
use golang_backend.Audit.Writer.{Actor}
use golang_backend.Role.Privilege.{
  system_permissions, first_unheld, newly_unheld, permissions_within_actor, role_within_actor,
  unheld_among, guard_system_permission_holders, lock_name,
}

-- the actor's role has the permission; without an actor there is none
abbrev pub Holds : Option Actor → String → Db → Type 0
Holds none q d = ⊥
Holds (some actor) q d = contains (permission_ids actor.role_id d) q ≡ true

-- every permission of the list is one that the actor's role has
abbrev pub Within : Option Actor → List String → Db → Type 0
Within actor ids d = (q : String) → contains ids q ≡ true → Holds actor q d

first_unheld-Within :
    (held ids : List String) (q : String)
    → first_unheld held ids ≡ none
    → contains ids q ≡ true
    → contains held q ≡ true
unfolding first_unheld
first_unheld-Within held [] q h m = absurd (cc m)
first_unheld-Within held (id ∷ ids) q h m = ground (arith, first_unheld-Within held ids q)

-- the system permissions that some active user holds are held still
abbrev pub StillHeld : Db → Db → Type 0
StillHeld d d' =
    (name : String)
    → contains system_permissions name ≡ true
    → 0 < holders name d
    → 0 < holders name d'

pub StillHeld-same :
    (d d' d'' : Db)
    → StillHeld d d'
    → ((name : String) → holders name d'' ≡ holders name d')
    → StillHeld d d''
StillHeld-same d d' d'' held same name system before = rw same (held name system before)

abbrev unheld : List String → Db → List String
unheld names d = keep_if (λ name. holders name d == 0) names

contains-unheld :
    (names : List String) (d : Db) (name : String)
    → contains (unheld names d) name ≡ (contains names name && (holders name d == 0))
contains-unheld [] d name = refl
contains-unheld (n ∷ names) d name = ground (arith, contains-unheld names d name)

contains-newly_unheld :
    (before names : List String) (name : String)
    → newly_unheld before names ≡ none
    → contains names name ≡ true
    → contains before name ≡ true
unfolding newly_unheld
contains-newly_unheld before [] name h m = absurd (cc m)
contains-newly_unheld before (n ∷ names) name h m =
    ground (arith, contains-newly_unheld before names name)

newly_unheld-StillHeld :
    (d d' : Db)
    → newly_unheld (unheld system_permissions d) (unheld system_permissions d') ≡ none
    → StillHeld d d'
newly_unheld-StillHeld d d' h name m held = ground (
  arith,
  contains-unheld system_permissions d name,
  contains-unheld system_permissions d' name,
  contains-newly_unheld (unheld system_permissions d) (unheld system_permissions d') name,
)

module _ (run : Run) where
  pub permissions_within_actor-ok :
      (actor : Option Actor) (ids : List String) (w : World) {w' : World}
      → permissions_within_actor run actor ids w ≡ (ok tt, w')
      → (w'.db ≡ w.db) × Within actor ids w.db
  unfolding permissions_within_actor list_role_permission_ids
  permissions_within_actor-ok none [] w h = (ground (arith, pure-ok tt w h), λ q m. absurd (cc m))
  permissions_within_actor-ok (some actor) [] w h =
      (ground (arith, pure-ok tt w h), λ q m. absurd (cc m))
  permissions_within_actor-ok none (id ∷ ids) w h = absurd (raise_ne_ok _ w h)
  permissions_within_actor-ok (some actor) (id ∷ ids) w h = bind-ok _ _ w h λ held w1 read rest.
      let (held_eq, same) = wrapped_query-ok run _ w read in
      let (passed, end) = check-ok _ w1 rest in
      (ground arith, λ q m. rw held_eq (first_unheld-Within held (id ∷ ids) q passed m))

  pub role_within_actor-ok :
      (actor : Option Actor) (role : String) (w : World) {w' : World}
      → role_within_actor run actor role w ≡ (ok tt, w')
      → (w'.db ≡ w.db) × Within actor (permission_ids role w.db) w.db
  unfolding role_within_actor list_role_permission_ids
  role_within_actor-ok none role w h = bind-ok _ _ w h λ ids w1 read rest.
      let (ids_eq, same) = wrapped_query-ok run _ w read in
      let (same', within) = permissions_within_actor-ok none ids w1 rest in
      (same' ∙ same, λ q m. within q (rw ids_eq at m))
  role_within_actor-ok (some actor) role w h =
      if-ok (actor.role_id == role) _ _ w h
        (λ own end. (ground (arith, pure-ok tt w end), λ q m. rw (==→eq actor.role_id role own) m))
        (λ other go. bind-ok _ _ w go λ ids w1 read rest.
          let (ids_eq, same) = wrapped_query-ok run _ w read in
          let (same', within) = permissions_within_actor-ok (some actor) ids w1 rest in
          (same' ∙ same, λ q m. rw same at (within q (rw ids_eq at m))))

  unheld_among-ok :
      (names : List String) (w : World) {unheld' : List String} {w' : World}
      → unheld_among run names w ≡ (ok unheld', w')
      → (unheld names w.db ≡ unheld') × (w'.db ≡ w.db)
  unfolding unheld_among count_active_permission_holders
  unheld_among-ok [] w h = ground (arith, pure-ok [] w h)
  unheld_among-ok (name ∷ names) w h = bind-ok _ _ w h λ count w1 counted rest.
      bind-ok _ _ w1 rest λ others w2 more end.
        let (count_eq, same) = wrapped_query-ok run _ w counted in
        let (others_eq, same') = unheld_among-ok names w1 more in
        let (value, last) = pure-ok _ w2 end in
        let others_eq' = ap (unheld names) (sym same) ∙ others_eq in
        (rw count_eq (rw others_eq' value), sym (ap World.db last) ∙ same' ∙ same)

  lock_each-Reads : (name : String) → Reads (lock_name run name)
  unfolding lock_name lock_permission_by_name
  lock_each-Reads name w a w' h = bind-ok _ _ w h λ ids w1 read end.
      let (_, same) = wrapped_query-ok run _ w read in
      ap World.db (sym (pure-ok tt w1 end).1) ∙ same

  -- The check that the guard returns passes only where every system permission that was held when the
  -- guard ran is held still.
  pub guard_system_permission_holders-ok :
      (w : World) {recheck : M (Unit {0})} {w' : World}
      → guard_system_permission_holders run w ≡ (ok recheck, w')
      → (w'.db ≡ w.db)
        × ((v v' : World) → recheck v ≡ (ok tt, v') → (v'.db ≡ v.db) × StillHeld w.db v.db)
  unfolding guard_system_permission_holders
  guard_system_permission_holders-ok w h = bind-ok _ _ w h λ _ w1 locked rest.
      bind-ok _ _ w1 rest λ before w2 counted end.
        let same =
          for_each-Reads (lock_name run) lock_each-Reads system_permissions w tt w1 locked in
        let (before_eq, same') = unheld_among-ok system_permissions w1 counted in
        let (closure, last) = pure-ok _ w2 end in
        (
          ap World.db (sym last) ∙ same' ∙ same,
          λ v v' checked.
              bind-ok _ _ v (ap (λ (m : M (Unit {0})). m v) closure ∙ checked)
                λ after v1 counted' check'.
                  let (after_eq, kept) = unheld_among-ok system_permissions v counted' in
                  let (passed, end') = check-ok _ v1 check' in
                  (
                    ap World.db (sym end') ∙ kept,
                    newly_unheld-StillHeld w.db v.db (
                        rw (ap (unheld system_permissions) (sym same) ∙ before_eq, after_eq)
                          passed),
                  ),
        )
