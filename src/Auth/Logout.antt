-- ===== src/Auth/Logout.antt =====
-- internal/auth/service.go: `Logout` ends the session.
use golang_backend.Base.{
  ℕ, String, ◌≡◌, sym, ◌∙◌, ap, subst, Bool, true, Option, none, some, List, ◌==◌, string_eq,
  find_first, update_where,
}
use golang_backend.Fault.{Error}
use golang_backend.Library.{Library}
use golang_backend.Database.Tables.{Db, RefreshFamily, AuthRefreshToken, ActivityLog}
use golang_backend.Database.Action.{ok, err, Run, World}
use golang_backend.Database.Laws.{failed_if, bind-ok, pure-ok, wrap-ok, transaction-ok, if-ok}
use golang_backend.Database.Effects.{exec-ok}
use golang_backend.Database.Users.{active_user, find_active_user_by_id}
use golang_backend.Database.Sessions.{
  is_set, token_at, family_at, lookup_auth_refresh_token, lock_refresh_family, revoke_token,
  revoke_refresh_family_record, revoke_auth_refresh_family, revoke_family_record,
  revoke_tokens_of_family,
}
use golang_backend.Audit.Writer.{Actor, Policy, Change}
use golang_backend.Audit.Entries.{OnlyLogs-keeps, required_write-OnlyLogs}
use golang_backend.Auth.Session.{Settings, refresh, optional_row}
use golang_backend.Auth.SignOut.{logout, logout_found, logout_body, logout_family, end_family}
use golang_backend.Auth.Families.{
  FamilyEnded, FamilyEnded-at, ended, optional_row-some, optional_row-same, family_at-id,
}
use golang_backend.Auth.Rotation.{some_eq, true_ne_false, audited-same, refresh-Rotated}
use golang_backend.Auth.SignedOut.{
  Genuine, SignedOut, signed_out, SignedOut-over_at, token_family_kept, optional_row-none,
  read_value,
}

-- no call fails with `sql.ErrNoRows`, which the drivers return for an empty result alone
module _ (lib : Library) (run : Run) (s : Settings) where
  ended_tokens :
      (id : String) (w w1 w' : World)
      → revoke_refresh_family_record run id w ≡ (ok tt, w1)
      → revoke_auth_refresh_family run id w1 ≡ (ok tt, w')
      → (now : ℕ) × (test : AuthRefreshToken → Bool) × (w'.db.tokens
          ≡ update_where test (revoke_token now) w.db.tokens)
  unfolding revoke_refresh_family_record revoke_auth_refresh_family revoke_family_record
      revoke_tokens_of_family
  ended_tokens id w w1 w' h k = (
    run.now,
    _,
    ap Db.tokens (exec-ok run _ w1 k)
        ∙ ap (λ (d : Db). (revoke_tokens_of_family run.now id d).tokens) (exec-ok run _ w h),
  )

  -- the family that is revoked, or its end
  end_family-SignedOut :
      (p : Policy) (hash : String) (t : AuthRefreshToken) (family : RefreshFamily) (w : World)
      {entry : Option (Option Actor × String × Change)} {w' : World}
      → token_at hash w.db ≡ some t
      → family.id ≡ t.family_id
      → end_family lib run s p family w ≡ (ok entry, w')
      → SignedOut hash w'.db
  unfolding end_family find_active_user_by_id token_at
  end_family-SignedOut p hash t family w {w'} at_hash id_eq h = bind-ok _ _ w h λ row w1 looked h1.
      bind-ok _ _ w1 h1 λ _ w2 first h2. bind-ok _ _ w2 h2 λ _ w3 second h3.
        bind-ok _ _ w3 h3 λ _ w4 wrote end.
          let same = optional_row-same run (active_user family.user_id) w looked in
          let over = ended run family.id w1 first second in
          let (now, test, tokens_eq) = ended_tokens family.id w1 w2 w3 first second in
          let (rows, logged) = required_write-OnlyLogs run p _ _ _ w3 wrote in
          let last : w'.db ≡ record w3.db { logs = rows } =
            ap World.db (sym (pure-ok _ w4 end).1) ∙ logged in
          let over' = subst (FamilyEnded family.id) (sym last) over in
          λ t' f at_hash' at_id.
            let at1 =
              ap (λ (d : Db). find_first (λ t. t.token_hash == hash) d.tokens) same ∙ at_hash in
            let at' =
              ap (find_first (λ t. t.token_hash == hash)) (sym (ap Db.tokens last ∙ tokens_eq))
              ∙ at_hash' in
            let family_eq = token_family_kept now hash test t t' w1.db.tokens at1 at' in
            FamilyEnded-at family.id w'.db f over'
              (ap (λ i. family_at i w'.db) (id_eq ∙ sym family_eq) ∙ at_id)

  SignedOut-log :
      (hash : String) (d : Db) (rows : List ActivityLog)
      → SignedOut hash d
      → SignedOut hash (record d { logs = rows })
  unfolding token_at family_at
  SignedOut-log hash d rows out = out

  logout_family-SignedOut :
      (p : Policy) (hash : String) (t : AuthRefreshToken) (family : RefreshFamily) (w : World)
      {entry : Option (Option Actor × String × Change)} {w' : World}
      → token_at hash w.db ≡ some t
      → family_at t.family_id w.db ≡ some family
      → logout_family lib run s p (some family) w ≡ (ok entry, w')
      → SignedOut hash w'.db
  unfolding logout_family
  logout_family-SignedOut p hash t family w {w'} at_hash at_id h =
      if-ok (is_set family.revoked_at) _ _ w h
        (λ revoked end.
          subst (λ v. SignedOut hash (World.db v)) (pure-ok _ w end).1
            (λ t' f at_hash' at_id'.
              let t_eq = some_eq (sym at_hash' ∙ at_hash) in
              let f_eq = some_eq (
                sym at_id'
                ∙ ap (λ (t : AuthRefreshToken). family_at t.family_id w.db) t_eq
                ∙ at_id) in
              ap (λ (f : RefreshFamily). is_set f.revoked_at) f_eq ∙ revoked))
        (λ live go.
          end_family-SignedOut p hash t family w at_hash
            (family_at-id t.family_id w.db family at_id) go)

  module _ (genuine : Genuine run) where
    locked-SignedOut :
        (p : Policy) (hash : String) (t : AuthRefreshToken) (found : Option RefreshFamily)
        (w w1 : World) {entry : Option (Option Actor × String × Change)} {w' : World}
        → token_at hash w.db ≡ some t
        → optional_row (lock_refresh_family run t.family_id) w ≡ (ok found, w1)
        → logout_family lib run s p found w1 ≡ (ok entry, w')
        → SignedOut hash w'.db
    unfolding logout_family lock_refresh_family
    locked-SignedOut p hash t none w w1 {w'} at_hash locked rest =
        let none_at = optional_row-none run genuine (family_at t.family_id) w locked in
        let same =
          ap World.db (sym (pure-ok _ w1 rest).1)
          ∙ optional_row-same run (family_at t.family_id) w locked in
        subst (SignedOut hash) (sym same) (λ t' f at_hash' at_id'.
          let t_eq = some_eq (sym at_hash' ∙ at_hash) in
          absurd (
            cc (
              sym none_at
              ∙ (ap (λ (t : AuthRefreshToken). family_at t.family_id w.db) (sym t_eq) ∙ at_id'))))
    locked-SignedOut p hash t (some family) w w1 at_hash locked rest =
        let (at_id, same) = optional_row-some run (family_at t.family_id) w locked in
        logout_family-SignedOut p hash t family w1 (ap (token_at hash) same ∙ at_hash)
          (ap (family_at t.family_id) same ∙ at_id) rest

    found-SignedOut :
        (p : Policy) (hash : String) (lookup : Option AuthRefreshToken) (w : World) {w' : World}
        → token_at hash w.db ≡ lookup
        → logout_found lib run s p lookup w ≡ (ok tt, w')
        → SignedOut hash w'.db
    unfolding logout_found logout_body
    found-SignedOut p hash none w {w'} at_hash h =
        subst (λ v. SignedOut hash (World.db v)) (pure-ok tt w h).1
          λ t f at_hash' _. absurd (cc (sym at_hash ∙ at_hash'))
    found-SignedOut p hash (some t) w {w'} at_hash h = bind-ok _ _ w h λ entry w1 committed audited.
        transaction-ok run _ w (wrap-ok _ w committed) λ v u before ran after.
          bind-ok _ _ v ran λ found v1 locked rest.
            OnlyLogs-keeps (SignedOut hash) (SignedOut-log hash) w1.db w'.db
              (audited-same lib run s p entry w1 audited)
              (subst (SignedOut hash) after (
                locked-SignedOut p hash t found v v1 (ap (token_at hash) before ∙ at_hash) locked
                  rest))

    logout-SignedOut :
        (p : Policy) (raw : String) (w : World) {w' : World}
        → logout lib run s p raw w ≡ (ok tt, w')
        → SignedOut (lib.digest raw) w'.db
    unfolding logout lookup_auth_refresh_token
    logout-SignedOut p raw w h = bind-ok _ _ w h λ lookup w1 looked rest.
        let hash = lib.digest raw in
        let read = wrap-ok _ w looked in
        let same = optional_row-same run (token_at hash) w read in
        found-SignedOut p hash lookup w1
          (ap (token_at hash) same ∙ read_value run genuine hash lookup w read) rest

    -- After a logout that succeeds, the token's family is revoked, if there is such a token. The calls
    -- of the database are taken to report an empty result for an empty result alone.
    pub logout-signed_out :
        (p : Policy) (raw : String) (w : World) {w' : World}
        → logout lib run s p raw w ≡ (ok tt, w')
        → signed_out (lib.digest raw) w'.db ≡ true
    logout-signed_out p raw w {w'} h =
        SignedOut-over_at (token_at (lib.digest raw) w'.db) w'.db (logout-SignedOut p raw w h)

-- Every refresh with a token fails after a logout with it has succeeded. The calls of the logout are taken
-- to report an empty result for an empty result alone.
pub logout-refresh :
    (lib : Library) (run run' : Run) (s : Settings) (p p' : Policy) (raw : String) (w v : World)
    {w' : World}
    → Genuine run
    → logout lib run s p raw w ≡ (ok tt, w')
    → v.db ≡ w'.db
    → (e : Error) × ((refresh lib run' s p' raw v).0 ≡ err e)
logout-refresh lib run run' s p p' raw w v genuine left same =
    failed_if (refresh lib run' s p' raw v) λ pair again.
      let (r, id_eq) = refresh-Rotated lib run' s p' raw v again in
      let out =
        subst (SignedOut (lib.digest raw)) (sym same)
          (logout-SignedOut lib run s genuine p raw w left) in
      let found = ap (λ i. family_at i v.db) (sym id_eq) ∙ r.family_is in
      true_ne_false (sym (out r.stored r.family r.stored_at found) ∙ r.was_usable.family_live)
