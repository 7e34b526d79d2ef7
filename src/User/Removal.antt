-- ===== src/User/Removal.antt =====
-- internal/user/service.go, `Delete`: what a deletion does, and who may do it.
use golang_backend.Base.{
  if◌then◌else◌, ℕ, String, ◌≡◌, sym, ◌∙◌, ap, subst, ◌≢◌, ◌&&◌, Option, none, some, List, [], ◌∷◌,
  arith, ◌==◌, string_eq, find_first, update_where,
}
use golang_backend.Fault.{Error, error_if}
use golang_backend.Library.{Library}
use golang_backend.Database.Tables.{Db, User, ActivityLog}
use golang_backend.Database.Action.{ok, Run, World}
use golang_backend.Database.Laws.{bind-ok, pure-ok, wrap-ok, check-ok}
use golang_backend.Database.Effects.{wrapped_row-ok, exec-ok}
use golang_backend.Database.Uuid.{wrapped_uuid-ok}
use golang_backend.Database.Roles.{permission_ids}
use golang_backend.Database.Permissions.{holders}
use golang_backend.Database.Users.{is_active, active_user, soft_delete, lock_user, soft_delete_user}
use golang_backend.Audit.Writer.{Actor, Policy, Change}
use golang_backend.Audit.Laws.{mutate-relates}
use golang_backend.Role.Laws.{
  Within, StillHeld, StillHeld-same, role_within_actor-ok, guard_system_permission_holders-ok,
}
use golang_backend.User.Service.{delete, delete_body}
use golang_backend.User.Sessions.{SessionsEnded, revoke_user_sessions-ok}

found_after :
    (now : ℕ) (id j : String) (us : List User)
    → find_first
        (λ u. u.id == j && is_active u)
        (update_where
          (λ u. u.id == id)
          (λ u. record u { deleted_at = some now; updated_at = now })
          us)
      ≡ (if j == id then none else find_first (λ u. u.id == j && is_active u) us)
unfolding is_active
found_after now id j [] = ground arith
found_after now id j (u ∷ us) = ground (arith, found_after now id j us)

-- what a deletion of the user does to the tables
pub record Deleted (actor : Option Actor) (id : String) (d d' : Db) : Type 0 where
  pub user : User
  pub was_active : active_user id d ≡ some user
  pub within : Within actor (permission_ids user.role_id d) d
  pub users_after : (j : String) → active_user j d' ≡ (if j == id then none else active_user j d)
  pub ended : SessionsEnded id d'
  pub still_held : StillHeld d d'

-- the same of the user that the database reads a text as
abbrev pub DeletedAt : Library → Option Actor → String → Db → Db → Type 0
DeletedAt lib actor id d d' =
    (key : String) × (lib.read_uuid id ≡ some key) × Deleted actor key d d'

differs : (i j : String) (e : Error) → error_if (i == j) e ≡ none → i ≢ j
differs i j e h same = absurd (ground (arith, h, same))

module _ (lib : Library) (run : Run) where
  delete_body-Deleted :
      (actor : Option Actor) (id : String) (w : World) {done : Unit {0} × Change} {w' : World}
      → delete_body lib run actor id w ≡ (ok done, w')
      → DeletedAt lib actor id w.db w'.db
  unfolding delete_body lock_user soft_delete_user holders active_user soft_delete
  delete_body-Deleted actor id w0 {w'} h = bind-ok _ _ w0 h λ key w read h0.
      let (reads, start) = wrapped_uuid-ok lib run id w0 read in
      bind-ok _ _ w h0 λ row w1 locked h1. bind-ok _ _ w1 h1 λ _ w2 passed h2.
        bind-ok _ _ w2 h2 λ recheck w3 guarded h3. bind-ok _ _ w3 h3 λ _ w4 deleted h4.
          bind-ok _ _ w4 h4 λ _ w5 rechecked h5. bind-ok _ _ w5 h5 λ _ w6 revoked end.
            let (found, e1) = wrapped_row-ok run _ w locked in
            let (e2, within) = role_within_actor-ok run actor row.role_id w1 passed in
            let (e3, keeps) = guard_system_permission_holders-ok run w2 guarded in
            let e4 = exec-ok run _ w3 (wrap-ok _ w3 deleted) in
            let (e5, held) = keeps w4 w5 rechecked in
            let (e6, ended) = revoke_user_sessions-ok run key w5 revoked in
            let last = ap World.db (sym (pure-ok _ w6 end).1) in
            let at3 = e3 ∙ e2 ∙ e1 in
            let users_eq : w'.db.users ≡ (soft_delete run.now key w.db).users =
              ap Db.users (last ∙ e6) ∙ ap Db.users (e5 ∙ e4 ∙ ap (soft_delete run.now key) at3) in
            (
              key,
              reads,
              subst (λ d. Deleted actor key d w'.db) start
                  (record {
                    user = row;
                    was_active = found;
                    within = subst (λ d. Within actor (permission_ids row.role_id d) d) e1 within;
                    users_after = λ j.
                        ap (find_first (λ u. u.id == j && is_active u)) users_eq
                        ∙ found_after run.now key j w.db.users;
                    ended = subst (SessionsEnded key) (sym last) ended;
                    still_held =
                        StillHeld-same w.db w4.db w'.db
                          (subst (λ d. StillHeld d w4.db) (e2 ∙ e1) held)
                          (λ name. ap (holders name) (last ∙ e6) ∙ ap (holders name) e5);
                  }),
            )

  Deleted-log :
      (actor : Option Actor) (id : String) (d d' : Db) (rows : List ActivityLog)
      → Deleted actor id d d'
      → Deleted actor id d (record d' { logs = rows })
  unfolding holders active_user
  Deleted-log actor id d d' rows a = record {
    user = a.user;
    was_active = a.was_active;
    within = a.within;
    users_after = a.users_after;
    ended = a.ended;
    still_held = a.still_held;
  }

  DeletedAt-log :
      (actor : Option Actor) (id : String) (d d' : Db) (rows : List ActivityLog)
      → DeletedAt lib actor id d d'
      → DeletedAt lib actor id d (record d' { logs = rows })
  DeletedAt-log actor id d d' rows (key, reads, a) = (key, reads, Deleted-log actor key d d' rows a)

  -- A deletion that succeeds is asked with another text than the actor's id. What the database reads this
  -- text as is the id of an active user whose permissions the actor holds all. Afterwards that user is
  -- not active and the others are as before, no refresh family or token of the user is live, and
  -- every system permission that was held is held still.
  pub delete-ok :
      (p : Policy) (actor : Actor) (id : String) (w : World) {w' : World}
      → delete lib run p actor id w ≡ (ok tt, w')
      → (actor.id ≢ id) × DeletedAt lib (some actor) id w.db w'.db
  unfolding delete
  delete-ok p actor id w {w'} h = bind-ok _ _ w h λ _ w1 c1 h1. bind-ok _ _ w1 h1 λ _ w2 c2 mutated.
      let other = (check-ok _ w1 c2).0 in
      let same = ap World.db (check-ok _ w c1).1 ∙ ap World.db (check-ok _ w1 c2).1 in
      let done =
        mutate-relates run p (some actor) "DELETE" (DeletedAt lib (some actor) id) _
          (DeletedAt-log (some actor) id)
          (λ v u done ran. delete_body-Deleted (some actor) id v ran) w2 mutated in
      (
        differs actor.id id _ other,
        subst (λ d. DeletedAt lib (some actor) id d w'.db) (sym same) done,
      )
