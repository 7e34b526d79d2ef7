-- ===== src/Auth/Access.antt =====
-- internal/auth/service.go: `VerifyAccessToken`, `LoadActor`, `Authenticate`, `Authorize`, `Me`.
use golang_backend.Base.{
  String, not, ◌||◌, Option, none, some, ◌==◌, string_eq, if◌then◌else◌, text_has_prefix,
  text_after,
}
use golang_backend.Fault.{Error, fault, unauthorized, forbidden, is_no_rows}
use golang_backend.Fault
use golang_backend.Library.{Library, Claims}
use golang_backend.Model.{AuthUser, project_auth_user}
use golang_backend.Database.Action.{Result, ok, err, Run, M, pure, raise, wrap, attempt, ◌>>=◌}
use golang_backend.Database.Tables.{User}
use golang_backend.Database.Users.{find_user, find_active_user_by_id}
use golang_backend.Database.Sessions.{user_has_permission}
use golang_backend.Audit.Writer.{Actor}
use golang_backend.Auth.Session.{Settings}

abbrev pub unauthenticated : Error
unauthenticated = fault unauthorized "Unauthorized"

-- `strings.TrimPrefix(raw, "Bearer ")` of a text that has the prefix
unfoldable pub bearer_token : String → String
unfolding text_after
bearer_token raw = text_after 7 raw

module _ (lib : Library) (run : Run) (s : Settings) where
  unfoldable pub accept : Option Claims → M Claims
  accept none = raise unauthenticated
  accept (some claims) =
      if not (claims.token_use == "access") || not (lib.valid_uuid claims.id)
      then raise unauthenticated
      else pure claims

  -- `VerifyAccessToken`
  unfoldable pub verify_access_token : String → M Claims
  unfolding accept bearer_token text_has_prefix
  verify_access_token raw =
      if not (text_has_prefix raw "Bearer ")
      then raise unauthenticated
      else accept (lib.parse_token s.secret s.issuer s.audience run.now (bearer_token raw))

  unfoldable pub loaded : Claims → Result User → M Actor
  loaded claims (ok row) = pure (record {
    id = row.id;
    email = row.email;
    role_id = row.role_id;
    expires_at = claims.expires_at;
  })
  loaded claims (err e) = if is_no_rows e then raise unauthenticated else raise (Fault.db e)

  -- `LoadActor`
  unfoldable pub load_actor : Claims → M Actor
  unfolding loaded
  load_actor claims = do found ← attempt (find_active_user_by_id run claims.id); loaded claims found

  -- `Authenticate`
  unfoldable pub authenticate : String → M Actor
  authenticate raw = do claims ← verify_access_token raw; load_actor claims

  -- `Authorize`
  unfoldable pub authorize : Actor → String → M (Unit {0})
  authorize actor permission = if permission == "" then pure tt else do
    allowed ← wrap (user_has_permission run actor.id permission)
    if allowed then pure tt else raise (fault forbidden "Forbidden")

  -- `Me`
  unfoldable pub me : Actor → M AuthUser
  me actor = do row ← wrap (find_user run actor.id); pure (project_auth_user row)
