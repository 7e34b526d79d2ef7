-- ===== src/Database/Sessions.antt =====
-- internal/db/sqlc/auth.sql.go: the statements on refresh families and tokens, and on what a user may.
-- A hash is a text, so the CHECK on its length is left out: `sha256.Sum256` always has 32 bytes.
use golang_backend.Base.{
  ℕ, String, Bool, true, false, not, ◌&&◌, ◌||◌, Option, none, some, ◌∷◌, ◌==◌, string_eq, ltb,
  if◌then◌else◌, any, keep_if, find_first, update_where, length,
}
use golang_backend.Fault.{pg}
use golang_backend.Database.Tables.{Db, RefreshFamily, AuthRefreshToken, RolePermission}
use golang_backend.Database.Action.{
  Result, ok, err, Run, M, draw, statement, query, query_row, exec, ◌>>=◌,
}
use golang_backend.Database.Users.{is_active}

abbrev pub is_set : Option ℕ → Bool
is_set none = false
is_set (some t) = true

unfoldable pub family_at : String → Db → Option RefreshFamily
family_at id d = find_first (λ f. f.id == id) d.families

unfoldable pub token_at : String → Db → Option AuthRefreshToken
token_at hash d = find_first (λ t. t.token_hash == hash) d.tokens

-- `SET revoked_at=now() … AND revoked_at IS NULL`
abbrev pub revoke_token : ℕ → AuthRefreshToken → AuthRefreshToken
revoke_token now t = record t { revoked_at = some now }

abbrev pub revoke_family : ℕ → RefreshFamily → RefreshFamily
revoke_family now f = record f { revoked_at = some now }

unfoldable pub revoke_tokens_of_user : ℕ → String → Db → Db
revoke_tokens_of_user now user d = record d {
  tokens =
      update_where (λ t. t.user_id == user && not (is_set t.revoked_at)) (revoke_token now)
        d.tokens;
}

unfoldable pub revoke_families_of_user : ℕ → String → Db → Db
revoke_families_of_user now user d = record d {
  families =
      update_where (λ f. f.user_id == user && not (is_set f.revoked_at)) (revoke_family now)
        d.families;
}

unfoldable pub revoke_tokens_of_family : ℕ → String → Db → Db
revoke_tokens_of_family now family d = record d {
  tokens =
      update_where (λ t. t.family_id == family && not (is_set t.revoked_at)) (revoke_token now)
        d.tokens;
}

-- `SET revoked_at=COALESCE(revoked_at,now())`
unfoldable pub revoke_family_record : ℕ → String → Db → Db
revoke_family_record now id d = record d {
  families =
      update_where (λ f. f.id == id && not (is_set f.revoked_at)) (revoke_family now) d.families;
}

abbrev pub unrevoked : String → AuthRefreshToken → Bool
unrevoked id t = t.id == id && not (is_set t.revoked_at)

-- `:execrows`, with the number of rows that were changed
unfoldable pub revoke_one_token : ℕ → String → Db → Result (ℕ × Db)
revoke_one_token now id d = ok (
  length (keep_if (unrevoked id) d.tokens),
  record d { tokens = update_where (unrevoked id) (revoke_token now) d.tokens },
)

pub record CreateRefreshFamilyParams : Type 0 where
  pub id : String
  pub user_id : String
  pub expires_at : ℕ

unfoldable pub insert_family : ℕ → CreateRefreshFamilyParams → Db → Result (Unit {0} × Db)
insert_family now a d =
    let f : RefreshFamily = record {
      id = a.id;
      user_id = a.user_id;
      created_at = now;
      expires_at = a.expires_at;
      revoked_at = none;
    } in
    if any (λ g. g.id == a.id) d.families
    then err (pg "23505")
    else if any (λ u. u.id == a.user_id) d.users
    then ok (tt, record d { families = f ∷ d.families })
    else err (pg "23503")

pub record CreateAuthRefreshTokenParams : Type 0 where
  pub family_id : String
  pub user_id : String
  pub token_hash : String
  pub expires_at : ℕ

abbrev pub new_token : ℕ → CreateAuthRefreshTokenParams → String → AuthRefreshToken
new_token now a id = record {
  id = id;
  family_id = a.family_id;
  user_id = a.user_id;
  token_hash = a.token_hash;
  expires_at = a.expires_at;
  created_at = now;
  revoked_at = none;
}

unfoldable pub insert_token :
    ℕ → CreateAuthRefreshTokenParams → String → Db → Result (Unit {0} × Db)
insert_token now a id d =
    if any (λ t. t.id == id || t.token_hash == a.token_hash) d.tokens
    then err (pg "23505")
    else if any (λ f. f.id == a.family_id) d.families && any (λ u. u.id == a.user_id) d.users
    then ok (tt, record d { tokens = new_token now a id ∷ d.tokens })
    else err (pg "23503")

-- `u JOIN role_permissions rp … JOIN permissions p … WHERE u.id=$1 AND u.deleted_at IS NULL AND p.name=$2`
unfoldable pub grants_name : String → Db → RolePermission → Bool
grants_name name d g = any (λ p. p.id == g.permission_id && p.name == name) d.permissions

unfoldable pub user_may : String → String → Db → Bool
unfolding grants_name is_active
user_may id name d =
    any
      (λ u.
        u.id == id
        && (is_active u
            && any (λ g. g.role_id == u.role_id && grants_name name d g) d.role_permissions))
      d.users

module _ (run : Run) where
  unfoldable pub lookup_auth_refresh_token : String → M AuthRefreshToken
  lookup_auth_refresh_token hash = query_row run (token_at hash)

  unfoldable pub find_auth_refresh_token_by_hash : String → M AuthRefreshToken
  find_auth_refresh_token_by_hash hash = query_row run (token_at hash)

  unfoldable pub lock_refresh_family : String → M RefreshFamily
  lock_refresh_family id = query_row run (family_at id)

  unfoldable pub create_refresh_family : CreateRefreshFamilyParams → M (Unit {0})
  create_refresh_family a = statement run (insert_family run.now a)

  unfoldable pub create_auth_refresh_token : CreateAuthRefreshTokenParams → M (Unit {0})
  create_auth_refresh_token a = do id ← draw run; statement run (insert_token run.now a id)

  unfoldable pub delete_expired_auth_refresh_tokens : String → M (Unit {0})
  delete_expired_auth_refresh_tokens user = exec run λ d. record d {
    tokens = keep_if (λ t. not (t.user_id == user && ltb t.expires_at run.now)) d.tokens;
  }

  unfoldable pub revoke_auth_refresh_family : String → M (Unit {0})
  revoke_auth_refresh_family family = exec run (revoke_tokens_of_family run.now family)

  unfoldable pub revoke_refresh_family_record : String → M (Unit {0})
  revoke_refresh_family_record id = exec run (revoke_family_record run.now id)

  unfoldable pub revoke_auth_refresh_token : String → M ℕ
  revoke_auth_refresh_token id = statement run (revoke_one_token run.now id)

  unfoldable pub revoke_user_auth_refresh_tokens : String → M (Unit {0})
  revoke_user_auth_refresh_tokens user = exec run (revoke_tokens_of_user run.now user)

  unfoldable pub revoke_user_refresh_families : String → M (Unit {0})
  revoke_user_refresh_families user = exec run (revoke_families_of_user run.now user)

  unfoldable pub user_has_permission : String → String → M Bool
  user_has_permission id name = query run (user_may id name)
