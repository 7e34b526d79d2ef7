-- ===== src/Mysql/Sessions.antt =====
-- internal/db/mysql/sqlc/auth.sql.go: the statements on refresh families and tokens.
use golang_backend.Base.{
  ℕ, String, Bool, ◌&&◌, ◌||◌, not, ◌∷◌, ◌==◌, string_eq, ltb, if◌then◌else◌, any, keep_if, none,
}
use golang_backend.Database.Tables.{Db, RefreshFamily, AuthRefreshToken}
use golang_backend.Database.Action.{
  Result, ok, err, Run, M, draw, statement, query, query_row, exec, ◌>>=◌,
}
use golang_backend.Database.Sessions.{
  CreateRefreshFamilyParams, CreateAuthRefreshTokenParams, new_token, family_at, token_at,
  revoke_tokens_of_user, revoke_families_of_user, revoke_tokens_of_family, revoke_family_record,
  revoke_one_token, user_may,
}
use golang_backend.Mysql.Errors.{duplicate_entry, no_referenced_row}

unfoldable pub insert_family : ℕ → CreateRefreshFamilyParams → Db → Result (Unit {0} × Db)
insert_family now a d =
    let f : RefreshFamily = record {
      id = a.id;
      user_id = a.user_id;
      created_at = now;
      expires_at = a.expires_at;
      revoked_at = none;
    } in
    if any (λ g. g.id == a.id) d.families
    then err duplicate_entry
    else if any (λ u. u.id == a.user_id) d.users
    then ok (tt, record d { families = f ∷ d.families })
    else err no_referenced_row

unfoldable pub insert_token :
    ℕ → CreateAuthRefreshTokenParams → String → Db → Result (Unit {0} × Db)
insert_token now a id d =
    if any (λ t. t.id == id || t.token_hash == a.token_hash) d.tokens
    then err duplicate_entry
    else if any (λ f. f.id == a.family_id) d.families && any (λ u. u.id == a.user_id) d.users
    then ok (tt, record d { tokens = new_token now a id ∷ d.tokens })
    else err no_referenced_row

module _ (run : Run) where
  unfoldable pub lookup_auth_refresh_token : String → M AuthRefreshToken
  lookup_auth_refresh_token hash = query_row run (token_at hash)

  unfoldable pub find_auth_refresh_token_by_hash : String → M AuthRefreshToken
  find_auth_refresh_token_by_hash hash = query_row run (token_at hash)

  unfoldable pub lock_refresh_family : String → M RefreshFamily
  lock_refresh_family id = query_row run (family_at id)

  unfoldable pub create_refresh_family : CreateRefreshFamilyParams → M (Unit {0})
  create_refresh_family a = statement run (insert_family run.now a)

  unfoldable pub create_auth_refresh_token : CreateAuthRefreshTokenParams → M (Unit {0})
  create_auth_refresh_token a = do id ← draw run; statement run (insert_token run.now a id)

  unfoldable pub delete_expired_auth_refresh_tokens : String → M (Unit {0})
  delete_expired_auth_refresh_tokens user = exec run λ d. record d {
    tokens = keep_if (λ t. not (t.user_id == user && ltb t.expires_at run.now)) d.tokens;
  }

  unfoldable pub revoke_auth_refresh_family : String → M (Unit {0})
  revoke_auth_refresh_family family = exec run (revoke_tokens_of_family run.now family)

  unfoldable pub revoke_refresh_family_record : String → M (Unit {0})
  revoke_refresh_family_record id = exec run (revoke_family_record run.now id)

  -- the rows that change: all that the WHERE selects, since the column was NULL
  unfoldable pub revoke_auth_refresh_token : String → M ℕ
  revoke_auth_refresh_token id = statement run (revoke_one_token run.now id)

  unfoldable pub revoke_user_auth_refresh_tokens : String → M (Unit {0})
  revoke_user_auth_refresh_tokens user = exec run (revoke_tokens_of_user run.now user)

  unfoldable pub revoke_user_refresh_families : String → M (Unit {0})
  revoke_user_refresh_families user = exec run (revoke_families_of_user run.now user)

  unfoldable pub user_has_permission : String → String → M Bool
  user_has_permission id name = query run (user_may id name)
