-- ===== src/Auth/Checks.antt =====
-- internal/auth/service.go: whom an access token speaks for, and what lets a request pass.
use golang_backend.Base.{
  both, some_same, String, ◌≡◌, refl, sym, ◌∙◌, ap, ◌≢◌, true, not, ◌&&◌, ◌||◌, Option, none, some,
  List, [], if◌then◌else◌, ◌∷◌, arith, ◌⊎◌, inl, inr, ◌==◌, string_eq, ==→eq, find_first,
  text_has_prefix, any-In, In,
}
use golang_backend.Fault.{is_no_rows}
use golang_backend.Library.{Library, Claims}
use golang_backend.Database.Tables.{Db, User, Permission, RolePermission}
use golang_backend.Database.Action.{Result, ok, err, Run, World, pure, raise}
use golang_backend.Database.Laws.{bind-ok, pure-ok, raise_ne_ok, if-ok, attempt-ok}
use golang_backend.Database.Effects.{query_row-ok, wrapped_query-ok}
use golang_backend.Database.Users.{is_active, active_user, find_active_user_by_id}
use golang_backend.Database.Sessions.{user_may, grants_name, user_has_permission}
use golang_backend.Audit.Writer.{Actor, Policy}
use golang_backend.User.Service.{delete}
use golang_backend.User.Removal.{delete-ok}
use golang_backend.Auth.Session.{Settings}
use golang_backend.Auth.Access.{
  accept, loaded, bearer_token, verify_access_token, load_actor, authenticate, authorize,
}

active_user-id :
    (id : String) (us : List User) (user : User)
    → find_first (λ u. u.id == id && is_active u) us ≡ some user
    → user.id ≡ id
active_user-id id [] user h = absurd (cc h)
active_user-id id (u ∷ us) user h = ground (arith, active_user-id id us user)

-- why an account may do what a permission allows
pub record Granted (id name : String) (d : Db) : Type 0 where
  pub user : User
  pub user_in : In user d.users
  pub user_id : user.id ≡ id
  pub undeleted : user.deleted_at ≡ none
  pub grant : RolePermission
  pub grant_in : In grant d.role_permissions
  pub grant_role : grant.role_id ≡ user.role_id
  pub permission : Permission
  pub permission_in : In permission d.permissions
  pub permission_id : grant.permission_id ≡ permission.id
  pub permission_name : permission.name ≡ name

no_end : (u : User) → is_active u ≡ true → u.deleted_at ≡ none
unfolding is_active
no_end u h = ground arith

user_may-Granted : (id name : String) (d : Db) → user_may id name d ≡ true → Granted id name d
unfolding user_may grants_name
user_may-Granted id name d h =
    let (u, u_in, u_passes) = any-In _ d.users h in
    let (u_named, u_may) = both _ _ u_passes in
    let (u_active, u_granted) = both _ _ u_may in
    let (g, g_in, g_passes) = any-In _ d.role_permissions u_granted in
    let (g_role, g_named) = both _ _ g_passes in
    let (p, p_in, p_passes) = any-In _ d.permissions g_named in
    let (p_id, p_name) = both _ _ p_passes in
    record {
      user = u;
      user_in = u_in;
      user_id = ==→eq u.id id u_named;
      undeleted = no_end u u_active;
      grant = g;
      grant_in = g_in;
      grant_role = ==→eq g.role_id u.role_id g_role;
      permission = p;
      permission_in = p_in;
      permission_id = sym (==→eq p.id g.permission_id p_id);
      permission_name = ==→eq p.name name p_name;
    }

abbrev pub actor_for : String → User → Claims → Actor
actor_for id user claims = record {
  id = id;
  email = user.email;
  role_id = user.role_id;
  expires_at = claims.expires_at;
}

module _ (lib : Library) (run : Run) (s : Settings) where
  -- the actor that a text authenticates
  pub record Authenticated (raw : String) (actor : Actor) (d : Db) : Type 0 where
    pub claims : Claims
    pub user : User
    pub bearer : text_has_prefix raw "Bearer " ≡ true
    pub signed :
        lib.parse_token s.secret s.issuer s.audience run.now (bearer_token raw) ≡ some claims
    pub access : claims.token_use ≡ "access"
    pub user_is : active_user claims.id d ≡ some user
    pub actor_is : actor ≡ actor_for claims.id user claims

  accept-ok :
      (found : Option Claims) (w : World) {claims : Claims} {w' : World}
      → accept lib run s found w ≡ (ok claims, w')
      → (found ≡ some claims) × (claims.token_use ≡ "access") × (w ≡ w')
  unfolding accept pure raise
  accept-ok none w h = absurd (raise_ne_ok _ w h)
  accept-ok (some c) w {claims} h =
      if-ok (not (c.token_use == "access") || not (lib.valid_uuid c.id)) _ _ w h
        (λ bad end. absurd (raise_ne_ok _ w end))
        λ good end.
          let (value, last) = pure-ok c w end in
          (
            ap some value,
            ap Claims.token_use (sym value) ∙ ==→eq c.token_use "access" (ground arith),
            last,
          )

  pub verify_access_token-ok :
      (raw : String) (w : World) {claims : Claims} {w' : World}
      → verify_access_token lib run s raw w ≡ (ok claims, w')
      → (text_has_prefix raw "Bearer " ≡ true)
        × (lib.parse_token s.secret s.issuer s.audience run.now (bearer_token raw) ≡ some claims)
        × (claims.token_use ≡ "access")
        × (w ≡ w')
  unfolding verify_access_token
  verify_access_token-ok raw w h =
      if-ok (not (text_has_prefix raw "Bearer ")) _ _ w h (λ bad end. absurd (raise_ne_ok _ w end))
        λ good go.
          let (found, access, same) = accept-ok _ w go in
          (ground (arith, good), found, access, same)

  loaded-ok :
      (claims : Claims) (found : Result User) (w : World) {actor : Actor} {w' : World}
      → loaded lib run s claims found w ≡ (ok actor, w')
      → (user : User) × (found ≡ ok user) × (actor ≡ actor_for user.id user claims)
  unfolding loaded
  loaded-ok claims (ok user) w h = (user, refl, sym (pure-ok _ w h).0)
  loaded-ok claims (err e) w h =
      if-ok (is_no_rows e) _ _ w h (λ _ end. absurd (raise_ne_ok _ w end))
        (λ _ end. absurd (raise_ne_ok _ w end))

  -- A text that authenticates an actor is a bearer token that the library accepts as an access token, and
  -- the actor is the active user of its claims, with the role that the table has for that user now.
  pub authenticate-ok :
      (raw : String) (w : World) {actor : Actor} {w' : World}
      → authenticate lib run s raw w ≡ (ok actor, w')
      → Authenticated raw actor w.db
  unfolding authenticate load_actor find_active_user_by_id active_user
  authenticate-ok raw w h = bind-ok _ _ w h λ claims w1 verified h1.
      bind-ok _ _ w1 h1 λ found w2 read end.
        let (bearer, signed, access, same) = verify_access_token-ok raw w verified in
        let (user, found_eq, actor_eq) = loaded-ok claims found w2 end in
        let row = attempt-ok _ w1 read ∙ ap (λ r. (r, w2)) found_eq in
        let user_eq = (query_row-ok run _ w1 row).0 in
        let id_eq = active_user-id claims.id w1.db.users user user_eq in
        record {
          claims = claims;
          user = user;
          bearer = bearer;
          signed = signed;
          access = access;
          user_is = ap (λ (v : World). active_user claims.id v.db) same ∙ user_eq;
          actor_is = actor_eq ∙ ap (λ i. actor_for i user claims) id_eq;
        }

  pub authorize_lem :
      (actor : Actor) (permission : String) (w : World) {w' : World}
      → authorize lib run s actor permission w ≡ (ok tt, w')
      → (permission ≡ "") ⊎ (user_may actor.id permission w.db ≡ true)
  unfolding authorize user_has_permission
  authorize_lem actor permission w h =
      if-ok (permission == "") _ _ w h (λ empty _. inl (==→eq permission "" empty))
        λ _ go. bind-ok _ _ w go λ allowed w1 read rest.
          let may = (wrapped_query-ok run _ w read).0 in
          if-ok allowed _ _ w1 rest (λ yes _. inr (may ∙ yes))
            (λ _ end. absurd (raise_ne_ok _ w1 end))

  -- An authorization that succeeds asked for nothing, or the tables have an account under the actor's
  -- id that is not deleted, a permission of the name asked for, and a row that grants this
  -- permission to the role of the account.
  pub authorize-ok :
      (actor : Actor) (permission : String) (w : World) {w' : World}
      → authorize lib run s actor permission w ≡ (ok tt, w')
      → (permission ≡ "") ⊎ Granted actor.id permission w.db
  authorize-ok actor permission w h = elim (authorize_lem actor permission w h) [
    | inl empty ↦ inl empty
    | inr may ↦ inr (user_may-Granted actor.id permission w.db may)
  ]

-- After a deletion has succeeded, and as long as the table of the users is as the deletion left it, nobody
-- authenticates as the user of the id that the database read, whatever token was issued before it.
pub delete-authenticate :
    (lib : Library) (run run' : Run) (s : Settings) (p : Policy) (actor : Actor)
    (id key raw : String) (w v : World) {a : Actor} {w' v' : World}
    → delete lib run p actor id w ≡ (ok tt, w')
    → lib.read_uuid id ≡ some key
    → v.db.users ≡ w'.db.users
    → authenticate lib run' s raw v ≡ (ok a, v')
    → a.id ≢ key
unfolding active_user
delete-authenticate lib run run' s p actor id key raw w v {a} {w'} removed reads same passed is_id =
    let (_, (found_key, found_reads, gone)) = delete-ok lib run p actor id w removed in
    let who = authenticate-ok lib run' s raw v passed in
    let key_eq = some_same (sym reads ∙ found_reads) in
    let id_eq = ap Actor.id (sym who.actor_is) ∙ is_id in
    let found =
      ap (find_first (λ u. u.id == key && is_active u)) (sym same)
      ∙ ap (λ i. find_first (λ u. u.id == i && is_active u) v.db.users) (sym id_eq)
      ∙ who.user_is in
    none_ne_some (sym (gone.users_after key ∙ at_itself key found_key _ key_eq) ∙ found)
  where
    none_ne_some : {u : User} → none ≡ some u → ⊥
    none_ne_some h = cc h

    at_itself : (i j : String) (o : Option User) → i ≡ j → (if i == j then none else o) ≡ none
    at_itself i j o h = ground (arith, h)
