-- ===== src/Auth/SignOut.antt =====
-- internal/auth/service.go: `Logout`.
use golang_backend.Base.{String, true, false, Option, none, some, string_eq, if◌then◌else◌}
use golang_backend.Library.{Library}
use golang_backend.Database.Tables.{RefreshFamily, AuthRefreshToken}
use golang_backend.Database.Action.{Run, M, pure, wrap, ◌>>=◌, ◌>>◌, transaction}
use golang_backend.Database.Users.{find_active_user_by_id}
use golang_backend.Database.Sessions.{
  is_set, lookup_auth_refresh_token, lock_refresh_family, revoke_auth_refresh_family,
  revoke_refresh_family_record,
}
use golang_backend.Audit.Writer.{Actor, Policy, Change, capture, write, write_required}
use golang_backend.Auth.Session.{
  Settings, actor_of_row, optional_row, session_snapshot, session_audit,
}

module _ (lib : Library) (run : Run) (s : Settings) where
  -- the transaction of `Logout` on a family that is not revoked
  unfoldable pub end_family : Policy → RefreshFamily → M (Option (Option Actor × String × Change))
  unfolding optional_row
  end_family p family = do
    user ← optional_row (find_active_user_by_id run family.user_id)
    revoke_refresh_family_record run family.id
    revoke_auth_refresh_family run family.id
    let before = session_snapshot family.expires_at false
    let after = session_snapshot family.expires_at true
    let change = capture lib.lower family.id (some before) (some after)
    write_required run p.mode (write run p (actor_of_row user) "LOGOUT" change)
    pure (some (actor_of_row user, "LOGOUT", change))

  unfoldable pub logout_family :
      Policy → Option RefreshFamily → M (Option (Option Actor × String × Change))
  logout_family p none = pure none
  logout_family p (some family) =
      if is_set family.revoked_at then pure none else end_family p family

  unfoldable pub logout_body :
      Policy → AuthRefreshToken → M (Option (Option Actor × String × Change))
  unfolding optional_row
  logout_body p lookup = do
    family ← optional_row (lock_refresh_family run lookup.family_id)
    logout_family p family

  unfoldable pub logout_found : Policy → Option AuthRefreshToken → M (Unit {0})
  unfolding session_audit
  logout_found p none = pure tt
  logout_found p (some lookup) = do
    entry ← wrap (transaction run (logout_body p lookup))
    session_audit lib run s p entry

  -- `Logout`
  unfoldable pub logout : Policy → String → M (Unit {0})
  unfolding logout_found
  logout p raw = do
    lookup ← wrap (optional_row (lookup_auth_refresh_token run (lib.digest raw)))
    logout_found p lookup
