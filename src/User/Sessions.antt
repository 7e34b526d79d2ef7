-- ===== src/User/Sessions.antt =====
-- internal/role/privilege.go, `RevokeUserSessions`: afterwards the user has no live refresh family and
-- no live refresh token.
use golang_backend.Base.{
  ℕ, String, ◌≡◌, refl, ◌∙◌, ap, true, not, ◌&&◌, ◌||◌, List, [], ◌∷◌, arith, ◌==◌, string_eq, all,
  update_where,
}
use golang_backend.Database.Tables.{Db, RefreshFamily, AuthRefreshToken}
use golang_backend.Database.Action.{ok, Run, World}
use golang_backend.Database.Laws.{bind-ok, wrap-ok}
use golang_backend.Database.Effects.{exec-ok}
use golang_backend.Database.Sessions.{
  is_set, revoke_token, revoke_family, revoke_tokens_of_user, revoke_families_of_user,
  revoke_user_refresh_families, revoke_user_auth_refresh_tokens,
}
use golang_backend.Role.Privilege.{revoke_user_sessions}

abbrev pub SessionsEnded : String → Db → Type 0
SessionsEnded user d =
    (all (λ f. not (f.user_id == user) || is_set f.revoked_at) d.families ≡ true)
    × (all (λ t. not (t.user_id == user) || is_set t.revoked_at) d.tokens ≡ true)

families_ended :
    (now : ℕ) (user : String) (fs : List RefreshFamily)
    → all
        (λ f. not (f.user_id == user) || is_set f.revoked_at)
        (update_where (λ f. f.user_id == user && not (is_set f.revoked_at)) (revoke_family now) fs)
      ≡ true
families_ended now user [] = refl
families_ended now user (f ∷ fs) = ground (arith, families_ended now user fs)

tokens_ended :
    (now : ℕ) (user : String) (ts : List AuthRefreshToken)
    → all
        (λ t. not (t.user_id == user) || is_set t.revoked_at)
        (update_where (λ t. t.user_id == user && not (is_set t.revoked_at)) (revoke_token now) ts)
      ≡ true
tokens_ended now user [] = refl
tokens_ended now user (t ∷ ts) = ground (arith, tokens_ended now user ts)

-- the tables after it: the roles, the permissions and the users are as before
pub revoke_user_sessions-ok :
    (run : Run) (user : String) (w : World) {w' : World}
    → revoke_user_sessions run user w ≡ (ok tt, w')
    → (w'.db ≡ record w.db {
      families = (revoke_families_of_user run.now user w.db).families;
      tokens = (revoke_tokens_of_user run.now user w.db).tokens;
    })
      × SessionsEnded user w'.db
unfolding revoke_user_sessions revoke_user_refresh_families revoke_user_auth_refresh_tokens
    revoke_families_of_user revoke_tokens_of_user
revoke_user_sessions-ok run user w h = bind-ok _ _ w h λ _ w1 first rest.
    let e1 = exec-ok run _ w (wrap-ok _ w first) in
    let e2 = exec-ok run _ w1 (wrap-ok _ w1 rest) in
    let after = e2 ∙ ap (revoke_tokens_of_user run.now user) e1 in
    (
      after,
      (
        ap (λ (d : Db). all (λ f. not (f.user_id == user) || is_set f.revoked_at) d.families) after
            ∙ families_ended run.now user w.db.families,
        ap (λ (d : Db). all (λ t. not (t.user_id == user) || is_set t.revoked_at) d.tokens) after
            ∙ tokens_ended run.now user w.db.tokens,
      ),
    )
