-- ===== src/Auth/Exchange.antt =====
-- internal/auth/service.go, `Refresh`: the rotation of a token, and the end of a replayed family.
use golang_backend.Base.{
  true, ℕ, ◌+◌, ◌≤◌, ◌<◌, String, ◌≡◌, refl, sym, ◌∙◌, ap, subst, false, Option, none, some, ◌∷◌,
  arith, string_eq, update_where,
}
use golang_backend.Library.{Library}
use golang_backend.Model.{TokenPair}
use golang_backend.Database.Tables.{Db, User, RefreshFamily, AuthRefreshToken}
use golang_backend.Database.Action.{ok, Run, World}
use golang_backend.Database.Laws.{bind-ok, pure-ok, raise_ne_ok, statement-ok}
use golang_backend.Database.Effects.{draw-same}
use golang_backend.Database.Users.{active_user}
use golang_backend.Database.Sessions.{
  is_set, revoke_token, revoke_one_token, CreateAuthRefreshTokenParams, token_at, family_at,
  revoke_auth_refresh_token,
}
use golang_backend.Auth.Session.{
  Settings, or_unsigned, idle_expiry, usable, issue_token_pair, exchange,
}
use golang_backend.Auth.Families.{
  FamilyEnded, is_spent, unrevoked, Created, ended, create_auth_refresh_token-ok,
}

pub idle_expiry-family : (s : Settings) (now family : ℕ) → idle_expiry s now family ≤ family
unfolding idle_expiry
idle_expiry-family s now family = ground arith

pub idle_expiry-idle :
    (s : Settings) (now family : ℕ) → idle_expiry s now family ≤ now + s.refresh_idle
unfolding idle_expiry
idle_expiry-idle s now family = ground arith

-- what lets a token be exchanged
pub record Usable (now : ℕ) (family : RefreshFamily) (stored : AuthRefreshToken) : Type 0 where
  pub family_live : is_set family.revoked_at ≡ false
  pub family_lasts : now < family.expires_at
  pub token_live : is_set stored.revoked_at ≡ false
  pub token_lasts : now < stored.expires_at

pub usable-Usable :
    (now : ℕ) (family : RefreshFamily) (stored : AuthRefreshToken) (row : Option User) (user : User)
    → usable now family stored row ≡ some user
    → (row ≡ some user) × Usable now family stored
unfolding usable
usable-Usable now family stored none user h = absurd (cc h)
usable-Usable now family stored (some u) user h = (
  ground arith,
  record {
    family_live = ground arith;
    family_lasts = ground arith;
    token_live = ground arith;
    token_lasts = ground arith;
  },
)

module _ (lib : Library) (run : Run) (s : Settings) where
  -- what an exchange does to the tables
  pub record Rotated (hash : String) (pair : TokenPair) (d d' : Db) : Type 0 where
    pub stored : AuthRefreshToken
    pub family : RefreshFamily
    pub user : User
    pub stored_at : token_at hash d ≡ some stored
    pub family_is : family_at family.id d ≡ some family
    pub user_is : active_user family.user_id d ≡ some user
    pub was_usable : Usable run.now family stored
    pub within_family : pair.refresh_token_expires_at ≤ family.expires_at
    pub within_idle : pair.refresh_token_expires_at ≤ run.now + s.refresh_idle
    pub families_kept : d'.families ≡ d.families
    pub spent : is_spent (token_at hash d') ≡ true
    pub successor : AuthRefreshToken
    pub successor_hash : successor.token_hash ≡ lib.digest pair.refresh_token
    pub successor_family : successor.family_id ≡ family.id
    pub successor_expiry : successor.expires_at ≡ pair.refresh_token_expires_at
    pub successor_live : is_set successor.revoked_at ≡ false
    pub tokens_after :
        d'.tokens ≡ successor ∷ update_where (unrevoked stored.id) (revoke_token run.now) d.tokens

  or_unsigned-same :
      (signed : Option String) (w : World) {a : String} {w' : World}
      → or_unsigned lib run s signed w ≡ (ok a, w')
      → w'.db ≡ w.db
  or_unsigned-same none w h = absurd (raise_ne_ok _ w h)
  or_unsigned-same (some token) w h = ap World.db (sym (pure-ok token w h).1)

  pub issue_token_pair-ok :
      (user email role : String) (expires : ℕ) (w : World) {issued : TokenPair × String}
      {w' : World}
      → issue_token_pair lib run s user email role expires w ≡ (ok issued, w')
      → (issued.1 ≡ lib.digest issued.0.refresh_token)
        × (issued.0.refresh_token_expires_at ≡ expires)
        × (w'.db ≡ w.db)
  unfolding issue_token_pair
  issue_token_pair-ok user email role expires w h = bind-ok _ _ w h λ refresh w1 drawn h1.
      bind-ok _ _ w1 h1 λ access w2 signed end.
        let (value, last) = pure-ok _ w2 end in
        let same = ap World.db (sym last) ∙ or_unsigned-same _ w1 signed ∙ draw-same run w drawn in
        (rw (← value) refl, rw (← value) refl, same)

  revoked_one :
      (id : String) (w : World) {n : ℕ} {w' : World}
      → revoke_auth_refresh_token run id w ≡ (ok n, w')
      → w'.db
        ≡ record w.db { tokens = update_where (unrevoked id) (revoke_token run.now) w.db.tokens }
  unfolding revoke_auth_refresh_token revoke_one_token
  revoked_one id w h = ground (arith, statement-ok run (revoke_one_token run.now id) w h)

  abbrev pub token_for : RefreshFamily → User → TokenPair → CreateAuthRefreshTokenParams
  token_for family user pair = record {
    family_id = family.id;
    user_id = user.id;
    token_hash = lib.digest pair.refresh_token;
    expires_at = pair.refresh_token_expires_at;
  }

  -- the two branches of an exchange
  abbrev pub Exchanged :
      RefreshFamily → AuthRefreshToken → Option User → Option TokenPair → Db → Db → Type 0
  Exchanged family stored none pair d d' = (pair ≡ none) × FamilyEnded family.id d'
  Exchanged family stored (some user) pair d d' =
      (p : TokenPair) × (d1 : Db) × (pair ≡ some p)
      × (p.refresh_token_expires_at ≡ idle_expiry s run.now family.expires_at)
      × (d1 ≡ record d {
        tokens = update_where (unrevoked stored.id) (revoke_token run.now) d.tokens;
      })
      × Created run (token_for family user p) d1 d'

  pub exchange-Exchanged :
      (family : RefreshFamily) (stored : AuthRefreshToken) (row : Option User) (w : World)
      {pair : Option TokenPair} {w' : World}
      → exchange lib run s family stored row w ≡ (ok pair, w')
      → Exchanged family stored row pair w.db w'.db
  unfolding exchange
  exchange-Exchanged family stored none w h = bind-ok _ _ w h λ _ w1 first h1.
      bind-ok _ _ w1 h1 λ _ w2 second end.
        let (value, last) = pure-ok _ w2 end in
        (
          sym value,
          subst (λ v. FamilyEnded family.id (World.db v)) last (ended run family.id w first second),
        )
  exchange-Exchanged family stored (some user) w {w'} h = bind-ok _ _ w h λ issued w1 made h1.
      bind-ok _ _ w1 h1 λ n w2 revoked h2. bind-ok _ _ w2 h2 λ _ w3 created end.
        let (hash_eq, expiry, same) = issue_token_pair-ok _ _ _ _ w made in
        let e2 = revoked_one stored.id w1 revoked in
        let made_token = create_auth_refresh_token-ok run _ w2 created in
        let (value, last) = pure-ok _ w3 end in
        (
          issued.0,
          w2.db,
          sym value,
          expiry,
          ground arith,
          (made_token.0, ground arith, ground arith),
        )
