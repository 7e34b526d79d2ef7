-- ===== src/Auth/SignIn.antt =====
-- internal/auth/service.go, `Login`: what a login checks, and the session that it opens.
use golang_backend.Base.{
  suc, ◌+◌, ◌≤◌, String, ◌≡◌, refl, sym, ◌∙◌, ap, subst, true, false, Option, none, some, List, ◌∷◌,
  arith, any, ◌==◌, string_eq,
}
use golang_backend.Fault.{no_rows, is_no_rows}
use golang_backend.Library.{Library}
use golang_backend.Model.{Credentials, TokenPair}
use golang_backend.Database.Tables.{Db, User, RefreshFamily, AuthRefreshToken, ActivityLog}
use golang_backend.Database.Action.{
  Result, ok, err, Run, World, raise, attempt, ◌>>=◌, statement, query_row,
}
use golang_backend.Database.Laws.{bind-ok, pure-ok, raise_ne_ok, if-ok, attempt-ok, statement-ok}
use golang_backend.Database.Effects.{query_row-ok, draw-same}
use golang_backend.Database.Users.{active_email, find_active_user_by_email}
use golang_backend.Database.Sessions.{
  new_token, CreateRefreshFamilyParams, insert_family, create_refresh_family,
}
use golang_backend.Audit.Writer.{Policy, Change}
use golang_backend.Audit.Laws.{mutate_value}
use golang_backend.Auth.Session.{
  Settings, idle_expiry, match_credentials, login_body, login, invalid_credentials,
}
use golang_backend.Auth.Families.{create_auth_refresh_token-ok}
use golang_backend.Auth.Exchange.{idle_expiry-family, idle_expiry-idle, issue_token_pair-ok}

module _ (lib : Library) (run : Run) (s : Settings) where
  -- the session that a login opens for the user
  pub record SessionOpened (user : User) (pair : TokenPair) (d d' : Db) : Type 0 where
    pub family : RefreshFamily
    pub token : AuthRefreshToken
    pub families_after : d'.families ≡ family ∷ d.families
    pub tokens_after : d'.tokens ≡ token ∷ d.tokens
    pub family_user : family.user_id ≡ user.id
    pub family_live : family.revoked_at ≡ none
    pub family_expiry : family.expires_at ≡ run.now + s.refresh_absolute
    pub family_fresh : any (λ f. f.id == family.id) d.families ≡ false
    pub token_family : token.family_id ≡ family.id
    pub token_user : token.user_id ≡ user.id
    pub token_hash : token.token_hash ≡ lib.digest pair.refresh_token
    pub token_live : token.revoked_at ≡ none
    pub token_expiry : token.expires_at ≡ pair.refresh_token_expires_at
    pub within_family : pair.refresh_token_expires_at ≤ family.expires_at
    pub within_idle : pair.refresh_token_expires_at ≤ run.now + s.refresh_idle

  SessionOpened-log :
      (user : User) (pair : TokenPair) (d d' : Db) (rows : List ActivityLog)
      → SessionOpened user pair d d'
      → SessionOpened user pair d (record d' { logs = rows })
  SessionOpened-log user pair d d' rows o = record {
    family = o.family;
    token = o.token;
    families_after = o.families_after;
    tokens_after = o.tokens_after;
    family_user = o.family_user;
    family_live = o.family_live;
    family_expiry = o.family_expiry;
    family_fresh = o.family_fresh;
    token_family = o.token_family;
    token_user = o.token_user;
    token_hash = o.token_hash;
    token_live = o.token_live;
    token_expiry = o.token_expiry;
    within_family = o.within_family;
    within_idle = o.within_idle;
  }

  abbrev family_row : CreateRefreshFamilyParams → RefreshFamily
  family_row a = record {
    id = a.id;
    user_id = a.user_id;
    created_at = run.now;
    expires_at = a.expires_at;
    revoked_at = none;
  }

  create_refresh_family-ok :
      (a : CreateRefreshFamilyParams) (w : World) {w' : World}
      → create_refresh_family run a w ≡ (ok tt, w')
      → (any (λ f. f.id == a.id) w.db.families ≡ false)
        × (w'.db ≡ record w.db { families = family_row a ∷ w.db.families })
  unfolding create_refresh_family insert_family
  create_refresh_family-ok a w h =
      let done = statement-ok run (insert_family run.now a) w h in (ground arith, ground arith)

  login_body-SessionOpened :
      (user : User) (w : World) {done : TokenPair × Change} {w' : World}
      → login_body lib run s user w ≡ (ok done, w')
      → SessionOpened user done.0 w.db w'.db
  unfolding login_body
  login_body-SessionOpened user w {done} {w'} h = bind-ok _ _ w h λ id w1 drawn h1.
      bind-ok _ _ w1 h1 λ issued w2 made h2. bind-ok _ _ w2 h2 λ _ w3 opened h3.
        bind-ok _ _ w3 h3 λ _ w4 created end.
          let e1 = draw-same run w drawn in
          let (hash_eq, expiry, e2) = issue_token_pair-ok lib run s _ _ _ _ w1 made in
          let (fresh, e3) = create_refresh_family-ok _ w2 opened in
          let (token_id, _, e4) = create_auth_refresh_token-ok run _ w3 created in
          let (value, last) = pure-ok _ w4 end in
          let pair_eq = ap (λ (d : TokenPair × Change). d.0) value in
          let expires = idle_expiry s run.now (run.now + s.refresh_absolute) in
          let opened_session : SessionOpened user issued.0 w.db w4.db = record {
            family =
                family_row (record {
                  id = id;
                  user_id = user.id;
                  expires_at = run.now + s.refresh_absolute;
                });
            token =
                new_token run.now
                  (record {
                    family_id = id;
                    user_id = user.id;
                    token_hash = issued.1;
                    expires_at = issued.0.refresh_token_expires_at;
                  })
                  token_id;
            families_after = ground arith;
            tokens_after = ground arith;
            family_user = refl;
            family_live = refl;
            family_expiry = refl;
            family_fresh = ground arith;
            token_family = refl;
            token_user = refl;
            token_hash = hash_eq;
            token_live = refl;
            token_expiry = refl;
            within_family = rw expiry (idle_expiry-family s run.now (run.now + s.refresh_absolute));
            within_idle = rw expiry (idle_expiry-idle s run.now (run.now + s.refresh_absolute));
          } in
          subst (λ (d : TokenPair × Change). SessionOpened user d.0 w.db w'.db) value
            (subst (λ (v : World). SessionOpened user issued.0 w.db v.db) last opened_session)

  match_credentials-ok :
      (password : String) (found : Result User) (w : World) {user : User} {w' : World}
      → match_credentials lib run s password found w ≡ (ok user, w')
      → (found ≡ ok user) × (lib.bcrypt_matches user.password password ≡ true) × (w ≡ w')
  unfolding match_credentials
  match_credentials-ok password (ok row) w h =
      if-ok (lib.bcrypt_matches row.password password) _ _ w h
        (λ yes end.
          let (value, last) = pure-ok row w end in
          (
            ap ok value,
            ap (λ (u : User). lib.bcrypt_matches u.password password) (sym value) ∙ yes,
            last,
          ))
        (λ _ end. absurd (raise_ne_ok _ w end))
  match_credentials-ok password (err e) w h =
      if-ok (is_no_rows e) _ _ w h (λ _ end. absurd (raise_ne_ok _ w end))
        (λ _ end. absurd (raise_ne_ok _ w end))

  -- A login that succeeds is of the active user with the lowered address, whose password hash matches.
  -- It opens one family, whose name is new and which lasts for the absolute lifetime from now, and one
  -- live token in it under the hash of the refresh token that it returns; the token lasts no longer than
  -- the family and no longer than the idle window.
  pub login-ok :
      (p : Policy) (b : Credentials) (w : World) {pair : TokenPair} {w' : World}
      → login lib run s p b w ≡ (ok pair, w')
      → (user : User) × (active_email (lib.lower b.email) w.db ≡ some user)
        × (lib.bcrypt_matches user.password b.password ≡ true)
        × SessionOpened user pair w.db w'.db
  unfolding login find_active_user_by_email
  login-ok p b w {pair} {w'} h = bind-ok _ _ w h λ found w1 read h1.
      bind-ok _ _ w1 h1 λ row w2 matched mutated.
        let (found_eq, matches, same2) = match_credentials-ok b.password found w1 matched in
        let query = attempt-ok _ w read ∙ ap (λ r. (r, w1)) found_eq in
        let (user_eq, same1) = query_row-ok run _ w query in
        let same = ap World.db (sym same2) ∙ same1 in
        let done =
          mutate_value run p _ "LOGIN" (login_body lib run s row) (SessionOpened row)
            (SessionOpened-log row) (λ v u d ran. login_body-SessionOpened row v ran) w2 mutated in
        (row, user_eq, matches, subst (λ d. SessionOpened row pair d w'.db) same done)

  abbrev row_result : Option User → Result User
  row_result none = err no_rows
  row_result (some u) = ok u

  calm_read :
      (f : Db → Option User) (w : World)
      → run.faults w.calls ≡ none
      → query_row run f w ≡ (row_result (f w.db), record w { calls = suc w.calls })
  unfolding query_row statement
  calm_read f w calm = ground (arith, calm)

  refused :
      (password : String) (row : Option User) (v : World)
      → ((user : User) → row ≡ some user → lib.bcrypt_matches user.password password ≡ false)
      → match_credentials lib run s password (row_result row) v ≡ (err invalid_credentials, v)
  unfolding match_credentials raise is_no_rows
  refused password none v wrong = refl
  refused password (some user) v wrong = rw (wrong user refl) refl

  -- A login whose read of the user goes well and finds none with a matching password fails with one error,
  -- whether the address or the password is wrong, and without a change.
  pub login_refused :
      (p : Policy) (b : Credentials) (w : World)
      → run.faults w.calls ≡ none
      → ((user : User)
          → active_email (lib.lower b.email) w.db ≡ some user
          → lib.bcrypt_matches user.password b.password ≡ false)
      → ((login lib run s p b w).0 ≡ err invalid_credentials)
        × ((login lib run s p b w).1.db ≡ w.db)
  unfolding login find_active_user_by_email attempt ◌>>=◌
  login_refused p b w calm wrong =
      let f = active_email (lib.lower b.email) in
      let read = calm_read f w calm in
      let no = refused b.password (f w.db) (record w { calls = suc w.calls }) wrong in
      (rw (read, no) refl, rw (read, no) refl)
