-- ===== src/Auth/Session.antt =====
-- internal/auth/service.go: `Register`, `Login`, `issueTokenPair`, `Refresh`, `Logout`.
-- One instant, that of the run, stands for every `time.Now()` of an operation.
use golang_backend.Base.{
  ℕ, ◌+◌, String, Bool, true, false, not, ◌||◌, Option, none, some, string_eq, ltb, if◌then◌else◌,
}
use golang_backend.Fault.{Error, fault, unauthorized, is_no_rows}
use golang_backend.Fault
use golang_backend.Json.{Json, bool, number, object, member, end}
use golang_backend.Library.{Library, Claims}
use golang_backend.Model.{AuthUser, Credentials, TokenPair, project_auth_user, auth_user_json}
use golang_backend.Database.Tables.{User, RefreshFamily, AuthRefreshToken}
use golang_backend.Database.Action.{
  Result, ok, err, Run, M, pure, raise, wrap, attempt, ◌>>=◌, ◌>>◌, check, draw, transaction,
}
use golang_backend.Database.Roles.{find_role_by_name}
use golang_backend.Database.Users.{create_user, find_active_user_by_id, find_active_user_by_email}
use golang_backend.Database.Sessions.{
  is_set, lookup_auth_refresh_token, find_auth_refresh_token_by_hash, lock_refresh_family,
  create_refresh_family, create_auth_refresh_token, revoke_auth_refresh_family,
  revoke_refresh_family_record, revoke_auth_refresh_token,
}
use golang_backend.Audit.Writer.{
  Actor, Policy, Change, capture, mutate, write, write_required, write_optional,
}
use golang_backend.User.Service.{password_check, hash_password}

-- the fields of `Service` that are not connections
pub record Settings : Type 0 where
  pub secret : String
  pub issuer : String
  pub audience : String
  pub refresh_idle : ℕ
  pub refresh_absolute : ℕ

-- `accessTokenTTL`, in milliseconds
abbrev pub access_token_ttl : ℕ
access_token_ttl = 900000

-- `idleExpiry`
unfoldable pub idle_expiry : Settings → ℕ → ℕ → ℕ
idle_expiry s now family =
    let idle = now + s.refresh_idle in if ltb idle family then idle else family

abbrev pub actor_of : User → Actor
actor_of u = record { id = u.id; email = u.email; role_id = u.role_id; expires_at = 0 }

-- `sessionSnapshot`
unfoldable pub session_snapshot : ℕ → Bool → Json
session_snapshot expires revoked =
    object (member "expiresAt" (number expires) (member "revoked" (bool revoked) end))

-- `errors.Is(err, sql.ErrNoRows)` set apart from the other errors of a call
abbrev found_or_raise : {A : Type 0} → Result A → M (Option A)
found_or_raise (ok a) = pure (some a)
found_or_raise (err e) = if is_no_rows e then pure none else raise e

unfoldable pub optional_row : {A : Type 0} → M A → M (Option A)
optional_row m = do r ← attempt m; found_or_raise r

abbrev pub invalid_credentials : Error
invalid_credentials = fault unauthorized "Invalid credentials"

abbrev pub invalid_token : Error
invalid_token = fault unauthorized "Invalid refresh token"

abbrev pub expired_token : Error
expired_token = fault unauthorized "Invalid or expired refresh token"

-- What the transaction of `Refresh` leaves: the pair, unless `invalid` is set, and where `mutated`
-- is set the actor, the behavior and the change of its record.
pub record Outcome : Type 0 where
  pub pair : Option TokenPair
  pub entry : Option (Option Actor × String × Change)

-- the user with whom the token may be exchanged, where it may
unfoldable pub usable : ℕ → RefreshFamily → AuthRefreshToken → Option User → Option User
usable now family stored none = none
usable now family stored (some user) =
    if is_set family.revoked_at
      || (not (ltb now family.expires_at)
          || (is_set stored.revoked_at || not (ltb now stored.expires_at)))
    then none
    else some user

abbrev is_some : Option TokenPair → Bool
is_some none = false
is_some (some p) = true

abbrev pub actor_of_row : Option User → Option Actor
actor_of_row none = none
actor_of_row (some u) = some (actor_of u)

module _ (lib : Library) (run : Run) (s : Settings) where
  -- the claims of an access token that is issued now
  abbrev pub claims_for : String → String → String → Claims
  claims_for user email role = record {
    id = user;
    email = email;
    role_id = role;
    token_use = "access";
    issuer = s.issuer;
    audience = s.audience;
    issued_at = run.now;
    expires_at = run.now + access_token_ttl;
  }

  abbrev pub or_unsigned : Option String → M String
  or_unsigned none = raise (Fault.plain "sign")
  or_unsigned (some token) = pure token

  -- `issueTokenPair`, with the pair and the hash of its refresh token; the name of a new family is
  -- drawn by `Login`
  unfoldable pub issue_token_pair : String → String → String → ℕ → M (TokenPair × String)
  issue_token_pair user email role expires = do
    refresh ← draw run
    access ← or_unsigned (lib.sign s.secret (claims_for user email role))
    let pair : TokenPair = record {
      access_token = access;
      refresh_token = refresh;
      access_token_expires_in = 900;
      refresh_token_expires_at = expires;
    }
    pure (pair, lib.digest refresh)

  unfoldable pub register_body : Credentials → String → M (AuthUser × Change)
  register_body b hash = do
    r ← wrap (find_role_by_name run "user")
    row ←
        wrap
          (create_user lib.lower run (record { email = b.email; password = hash; role_id = r.id }))
    let out = project_auth_user row
    pure (out, capture lib.lower out.id none (some (auth_user_json out)))

  -- `Register`
  unfoldable pub register : Policy → Credentials → M AuthUser
  register p b = do
    check (Fault.email b.email)
    check (password_check b.password)
    hash ← hash_password lib run b.password
    mutate run p none "CREATE" (register_body b hash)

  unfoldable pub login_body : User → M (TokenPair × Change)
  login_body row = do
    family ← draw run
    let family_expires = run.now + s.refresh_absolute
    issued ← issue_token_pair row.id row.email row.role_id (idle_expiry s run.now family_expires)
    create_refresh_family run
        (record { id = family; user_id = row.id; expires_at = family_expires })
    create_auth_refresh_token run (record {
      family_id = family;
      user_id = row.id;
      token_hash = issued.1;
      expires_at = issued.0.refresh_token_expires_at;
    })
    pure (issued.0, record { entity_id = row.id; before = none; after = none })

  -- the user that the credentials name, or the one error for both ways to miss it
  unfoldable pub match_credentials : String → Result User → M User
  match_credentials password (err e) =
      if is_no_rows e then raise invalid_credentials else raise (Fault.db e)
  match_credentials password (ok row) =
      if lib.bcrypt_matches row.password password then pure row else raise invalid_credentials

  -- `Login`
  unfoldable pub login : Policy → Credentials → M TokenPair
  unfolding match_credentials login_body
  login p b = do
    found ← attempt (find_active_user_by_email run (lib.lower b.email))
    row ← match_credentials b.password found
    mutate run p (some (actor_of row)) "LOGIN" (login_body row)

  -- the replay branch of `Refresh`, and the rotation
  unfoldable pub exchange : RefreshFamily → AuthRefreshToken → Option User → M (Option TokenPair)
  exchange family stored none = do
    revoke_refresh_family_record run family.id
    revoke_auth_refresh_family run family.id
    pure none
  exchange family stored (some user) = do
    let expires = idle_expiry s run.now family.expires_at
    issued ← issue_token_pair user.id user.email user.role_id expires
    _ ← revoke_auth_refresh_token run stored.id
    create_auth_refresh_token run (record {
      family_id = family.id;
      user_id = user.id;
      token_hash = issued.1;
      expires_at = expires;
    })
    pure (some issued.0)

  -- the transaction of `Refresh` behind the lock on the family
  unfoldable pub refresh_family : Policy → String → Option RefreshFamily → M Outcome
  unfolding exchange usable optional_row
  refresh_family p hash none = pure (record { pair = none; entry = none })
  refresh_family p hash (some family) = do
    stored ← find_auth_refresh_token_by_hash run hash
    user ← optional_row (find_active_user_by_id run family.user_id)
    pair ← exchange family stored (usable run.now family stored user)
    let behavior = if is_some pair then "TOKEN_REFRESH" else "REFRESH_REPLAY"
    let was_revoked = is_set family.revoked_at
    let before = session_snapshot family.expires_at was_revoked
    let after = session_snapshot family.expires_at (was_revoked || not (is_some pair))
    let change = capture lib.lower family.id (some before) (some after)
    write_required run p.mode (write run p (actor_of_row user) behavior change)
    pure (record { pair = pair; entry = some (actor_of_row user, behavior, change) })

  -- the transaction of `Refresh`
  unfoldable pub refresh_body : Policy → String → AuthRefreshToken → M Outcome
  refresh_body p hash lookup = do
    family ← optional_row (lock_refresh_family run lookup.family_id)
    refresh_family p hash family

  -- `optionalSessionAudit`
  unfoldable pub session_audit : Policy → Option (Option Actor × String × Change) → M (Unit {0})
  session_audit p none = pure tt
  session_audit p (some (actor, behavior, change)) =
      write_optional run p.mode (write run p actor behavior change)

  abbrev pub token_or_raise : Option TokenPair → M TokenPair
  token_or_raise none = raise expired_token
  token_or_raise (some pair) = pure pair

  -- the rest of `Refresh` after the token has been looked up
  unfoldable pub refresh_found : Policy → String → Option AuthRefreshToken → M TokenPair
  unfolding session_audit
  refresh_found p hash none = raise invalid_token
  refresh_found p hash (some lookup) = do
    outcome ← wrap (transaction run (refresh_body p hash lookup))
    session_audit p outcome.entry
    token_or_raise outcome.pair

  -- `Refresh`
  unfoldable pub refresh : Policy → String → M TokenPair
  unfolding refresh_found
  refresh p raw = do
    let hash = lib.digest raw
    lookup ← wrap (optional_row (lookup_auth_refresh_token run hash))
    refresh_found p hash lookup
