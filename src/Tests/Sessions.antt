-- ===== src/Tests/Sessions.antt =====
-- Sessions of internal/auth/service.go.
use golang_backend.Base.{◌≡◌, refl, sym, ap, ◌⊎◌, some, true, false, ◌==◌, string_eq}
use golang_backend.Fault.{Error}
use golang_backend.Model.{TokenPair}
use golang_backend.Database.Tables.{User}
use golang_backend.Database.Users.{active_email}
use golang_backend.Database.Action.{ok, err, World}
use golang_backend.Audit.Writer.{capture}
use golang_backend.Audit.Entries.{OnlyLogs}
use golang_backend.Auth.Session.{
  actor_of, session_snapshot, Outcome, refresh, refresh_body, login, invalid_credentials,
  expired_token,
}
use golang_backend.Auth.SignOut.{logout}
use golang_backend.Auth.Exchange.{Rotated}
use golang_backend.Auth.Commit.{Committed, refresh_body-Committed}
use golang_backend.Auth.Rotation.{some_eq, refresh-Rotated, refresh-single_use}
use golang_backend.Auth.Ending.{TokenFamilyEnded, refresh_failed}
use golang_backend.Auth.Logout.{logout-signed_out, logout-refresh}
use golang_backend.Auth.SignedOut.{signed_out}
use golang_backend.Auth.SignIn.{SessionOpened, login-ok, login_refused}
use golang_backend.Tests.Fixtures.{lib, run_at, settings, audited, world, token, member}

abbrev pair : TokenPair
pair = record {
  access_token = "jwt bob";
  refresh_token = "0";
  access_token_expires_in = 900;
  refresh_token_expires_at = 1100;
}

abbrev after : World
after = (refresh lib (run_at 100) settings audited "raw" world).1

refreshes : refresh lib (run_at 100) settings audited "raw" world ≡ (ok pair, after)
unfolding golang_backend.Audit.Writer.write golang_backend.Audit.Writer.write_optional
    golang_backend.Audit.Writer.write_required golang_backend.Auth.Session.idle_expiry
    golang_backend.Auth.Session.issue_token_pair golang_backend.Auth.Session.refresh
    golang_backend.Auth.Session.refresh_body golang_backend.Auth.Session.refresh_family
    golang_backend.Base.has_prefix golang_backend.Database.Action.attempt
    golang_backend.Database.Action.draw golang_backend.Database.Action.pure
    golang_backend.Database.Action.query_row golang_backend.Database.Action.transaction
    golang_backend.Database.Action.wrap golang_backend.Database.Logs.insert_audit
    golang_backend.Database.Sessions.create_auth_refresh_token
    golang_backend.Database.Sessions.family_at
    golang_backend.Database.Sessions.find_auth_refresh_token_by_hash
    golang_backend.Database.Sessions.insert_token
    golang_backend.Database.Sessions.lock_refresh_family
    golang_backend.Database.Sessions.lookup_auth_refresh_token
    golang_backend.Database.Sessions.revoke_auth_refresh_token
    golang_backend.Database.Sessions.revoke_one_token golang_backend.Database.Sessions.token_at
    golang_backend.Database.Users.active_user golang_backend.Database.Users.find_active_user_by_id
    golang_backend.Fault.decimal golang_backend.Database.Action.◌>>=◌ golang_backend.Base.string_eq
refreshes = refl

refresh-Rotated_example :
    (r : Rotated lib (run_at 100) settings "#raw" pair world.db after.db) × (r.family.id
      ≡ r.stored.family_id)
refresh-Rotated_example = refresh-Rotated lib (run_at 100) settings audited "raw" world refreshes

refresh-single_use_example :
    (e : Error) × ((refresh lib (run_at 200) settings audited "raw" after).0 ≡ err e)
refresh-single_use_example =
    refresh-single_use lib (run_at 100) (run_at 200) settings audited audited "raw" world after
      refreshes refl

-- the token that was exchanged, presented again
abbrev replayed : World
replayed = (refresh lib (run_at 200) settings audited "raw" after).1

replays : refresh lib (run_at 200) settings audited "raw" after ≡ (err expired_token, replayed)
unfolding golang_backend.Audit.Writer.write golang_backend.Audit.Writer.write_optional
    golang_backend.Audit.Writer.write_required golang_backend.Auth.Session.issue_token_pair
    golang_backend.Auth.Session.refresh golang_backend.Auth.Session.refresh_body
    golang_backend.Auth.Session.refresh_family golang_backend.Base.has_prefix
    golang_backend.Database.Action.attempt golang_backend.Database.Action.draw
    golang_backend.Database.Action.exec golang_backend.Database.Action.pure
    golang_backend.Database.Action.query_row golang_backend.Database.Action.raise
    golang_backend.Database.Action.transaction golang_backend.Database.Action.wrap
    golang_backend.Database.Logs.insert_audit
    golang_backend.Database.Sessions.create_auth_refresh_token
    golang_backend.Database.Sessions.family_at
    golang_backend.Database.Sessions.find_auth_refresh_token_by_hash
    golang_backend.Database.Sessions.insert_token
    golang_backend.Database.Sessions.lock_refresh_family
    golang_backend.Database.Sessions.lookup_auth_refresh_token
    golang_backend.Database.Sessions.revoke_auth_refresh_family
    golang_backend.Database.Sessions.revoke_auth_refresh_token
    golang_backend.Database.Sessions.revoke_family_record
    golang_backend.Database.Sessions.revoke_one_token
    golang_backend.Database.Sessions.revoke_refresh_family_record
    golang_backend.Database.Sessions.revoke_tokens_of_family
    golang_backend.Database.Sessions.token_at golang_backend.Database.Users.active_user
    golang_backend.Database.Users.find_active_user_by_id golang_backend.Fault.decimal
    golang_backend.Database.Action.◌>>=◌ golang_backend.Base.string_eq
replays = refl

refresh_failed_example :
    OnlyLogs after.db replayed.db ⊎ TokenFamilyEnded "#raw" after.db replayed.db
refresh_failed_example = refresh_failed lib (run_at 200) settings audited "raw" after replays

abbrev left : World
left = (logout lib (run_at 100) settings audited "raw" world).1

logs_out : logout lib (run_at 100) settings audited "raw" world ≡ (ok tt, left)
unfolding golang_backend.Audit.Writer.write golang_backend.Audit.Writer.write_optional
    golang_backend.Audit.Writer.write_required golang_backend.Auth.SignOut.end_family
    golang_backend.Auth.SignOut.logout golang_backend.Auth.SignOut.logout_body
    golang_backend.Auth.SignOut.logout_family golang_backend.Database.Action.attempt
    golang_backend.Database.Action.draw golang_backend.Database.Action.exec
    golang_backend.Database.Action.pure golang_backend.Database.Action.query_row
    golang_backend.Database.Action.transaction golang_backend.Database.Action.wrap
    golang_backend.Database.Logs.insert_audit golang_backend.Database.Sessions.family_at
    golang_backend.Database.Sessions.lock_refresh_family
    golang_backend.Database.Sessions.lookup_auth_refresh_token
    golang_backend.Database.Sessions.revoke_auth_refresh_family
    golang_backend.Database.Sessions.revoke_family_record
    golang_backend.Database.Sessions.revoke_refresh_family_record
    golang_backend.Database.Sessions.revoke_tokens_of_family
    golang_backend.Database.Sessions.token_at golang_backend.Database.Users.active_user
    golang_backend.Database.Users.find_active_user_by_id golang_backend.Database.Action.◌>>=◌
    golang_backend.Base.string_eq
logs_out = refl

logout-signed_out_example : signed_out "#raw" left.db ≡ true
logout-signed_out_example =
    logout-signed_out lib (run_at 100) settings (λ n. refl) audited "raw" world logs_out

logout-refresh_example :
    (e : Error) × ((refresh lib (run_at 200) settings audited "raw" left).0 ≡ err e)
logout-refresh_example =
    logout-refresh lib (run_at 100) (run_at 200) settings audited audited "raw" world left
      (λ n. refl) logs_out refl

abbrev committed : World
committed = (refresh_body lib (run_at 100) settings audited "#raw" token world).1

abbrev outcome : Outcome
outcome = record {
  pair = some pair;
  entry = some (
    some (actor_of member),
    "TOKEN_REFRESH",
    capture lib.lower "f" (some (session_snapshot 5000 false)) (some (session_snapshot 5000 false)),
  );
}

commits :
    refresh_body lib (run_at 100) settings audited "#raw" token world ≡ (ok outcome, committed)
unfolding golang_backend.Audit.Writer.write golang_backend.Audit.Writer.write_required
    golang_backend.Auth.Session.idle_expiry golang_backend.Auth.Session.issue_token_pair
    golang_backend.Auth.Session.refresh_body golang_backend.Auth.Session.refresh_family
    golang_backend.Base.has_prefix golang_backend.Database.Action.attempt
    golang_backend.Database.Action.draw golang_backend.Database.Action.pure
    golang_backend.Database.Action.query_row golang_backend.Database.Logs.insert_audit
    golang_backend.Database.Sessions.create_auth_refresh_token
    golang_backend.Database.Sessions.family_at
    golang_backend.Database.Sessions.find_auth_refresh_token_by_hash
    golang_backend.Database.Sessions.insert_token
    golang_backend.Database.Sessions.lock_refresh_family
    golang_backend.Database.Sessions.revoke_auth_refresh_token
    golang_backend.Database.Sessions.revoke_one_token golang_backend.Database.Sessions.token_at
    golang_backend.Database.Users.active_user golang_backend.Database.Users.find_active_user_by_id
    golang_backend.Fault.decimal golang_backend.Database.Action.◌>>=◌ golang_backend.Base.string_eq
commits = refl

refresh_body-Committed_example :
    Committed lib (run_at 100) settings "#raw" "f" (some pair) world.db committed.db
refresh_body-Committed_example =
    refresh_body-Committed lib (run_at 100) settings audited "#raw" token world commits

abbrev signed_in : TokenPair
signed_in = record {
  access_token = "jwt bob";
  refresh_token = "1";
  access_token_expires_in = 900;
  refresh_token_expires_at = 1100;
}

abbrev opened : World
opened =
    (login lib (run_at 100) settings audited (record { email = "bob@x.org"; password = "sesame" })
      world).1

logs_in :
    login lib
      (run_at 100)
      settings
      audited
      (record { email = "bob@x.org"; password = "sesame" })
      world
    ≡ (ok signed_in, opened)
unfolding golang_backend.Audit.Writer.mutate golang_backend.Audit.Writer.write
    golang_backend.Auth.Session.idle_expiry golang_backend.Auth.Session.issue_token_pair
    golang_backend.Auth.Session.login golang_backend.Base.has_prefix
    golang_backend.Database.Action.attempt golang_backend.Database.Action.draw
    golang_backend.Database.Action.pure golang_backend.Database.Action.query_row
    golang_backend.Database.Action.transaction golang_backend.Database.Action.wrap
    golang_backend.Database.Logs.insert_audit
    golang_backend.Database.Sessions.create_auth_refresh_token
    golang_backend.Database.Sessions.create_refresh_family
    golang_backend.Database.Sessions.insert_family golang_backend.Database.Sessions.insert_token
    golang_backend.Database.Users.find_active_user_by_email golang_backend.Fault.decimal
    golang_backend.Database.Action.◌>>=◌ golang_backend.Base.string_eq
logs_in = refl

login-ok_example :
    (user : User) × (active_email "bob@x.org" world.db ≡ some user)
    × (lib.bcrypt_matches user.password "sesame" ≡ true)
    × SessionOpened lib (run_at 100) settings user signed_in world.db opened.db
login-ok_example =
    login-ok lib (run_at 100) settings audited (record { email = "bob@x.org"; password = "sesame" })
      world logs_in

stays_wrong :
    (user : User)
    → active_email "bob@x.org" world.db ≡ some user
    → (user.password == "guess") ≡ false
unfolding golang_backend.Database.Users.active_email golang_backend.Base.string_eq
stays_wrong user found = ap (λ (u : User). u.password == "guess") (some_eq (sym found))

login_refused_example :
    ((login lib
        (run_at 100)
        settings
        audited
        (record { email = "bob@x.org"; password = "guess" })
        world).0
      ≡ err invalid_credentials)
    × ((login lib
          (run_at 100)
          settings
          audited
          (record { email = "bob@x.org"; password = "guess" })
          world).1.db
        ≡ world.db)
login_refused_example =
    login_refused lib (run_at 100) settings audited
      (record { email = "bob@x.org"; password = "guess" }) world refl stays_wrong
