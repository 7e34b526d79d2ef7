-- ===== src/Auth/Commit.antt =====
-- internal/auth/service.go, `Refresh`: what its transaction commits.
use golang_backend.Base.{
  String, ◌≡◌, refl, sym, ◌∙◌, ap, subst, Option, none, some, List, ◌∷◌, arith, string_eq, ◌⊎◌, inl,
  inr,
}
use golang_backend.Library.{Library}
use golang_backend.Model.{TokenPair}
use golang_backend.Database.Tables.{Db, User, RefreshFamily, AuthRefreshToken, ActivityLog}
use golang_backend.Database.Action.{ok, Run, World}
use golang_backend.Database.Laws.{bind-ok, pure-ok}
use golang_backend.Database.Effects.{query_row-ok}
use golang_backend.Database.Users.{active_user, find_active_user_by_id}
use golang_backend.Database.Sessions.{
  new_token, token_at, family_at, find_auth_refresh_token_by_hash, lock_refresh_family,
}
use golang_backend.Audit.Writer.{Policy}
use golang_backend.Audit.Entries.{OnlyLogs, OnlyLogs-same, OnlyLogs-keeps, required_write-OnlyLogs}
use golang_backend.Auth.Session.{
  Settings, Outcome, usable, refresh_family, refresh_body, optional_row,
}
use golang_backend.Auth.Families.{
  FamilyEnded, Spent-is_spent, optional_row-some, optional_row-same, family_at-id, rotated-Spent,
}
use golang_backend.Auth.Exchange.{
  usable-Usable, Rotated, token_for, Exchanged, exchange-Exchanged, idle_expiry-family,
  idle_expiry-idle,
}

module _ (lib : Library) (run : Run) (s : Settings) where
  -- what a transaction of `Refresh` commits, by the pair that it answers with
  abbrev pub Committed : String → String → Option TokenPair → Db → Db → Type 0
  Committed hash family none d d' = OnlyLogs d d' ⊎ FamilyEnded family d'
  Committed hash family (some pair) d d' =
      (r : Rotated lib run s hash pair d d') × (r.family.id ≡ family)

  pub Committed-log :
      (hash family : String) (pair : Option TokenPair) (d d' : Db) (rows : List ActivityLog)
      → Committed hash family pair d d'
      → Committed hash family pair d (record d' { logs = rows })
  unfolding token_at
  Committed-log hash family none d d' rows (inl (rows', e)) = inl (rows, ground arith)
  Committed-log hash family none d d' rows (inr e) = inr e
  Committed-log hash family (some pair) d d' rows (r, id_eq) = (
    record {
      stored = r.stored;
      family = r.family;
      user = r.user;
      stored_at = r.stored_at;
      family_is = r.family_is;
      user_is = r.user_is;
      was_usable = r.was_usable;
      within_family = r.within_family;
      within_idle = r.within_idle;
      families_kept = r.families_kept;
      spent = r.spent;
      successor = r.successor;
      successor_hash = r.successor_hash;
      successor_family = r.successor_family;
      successor_expiry = r.successor_expiry;
      successor_live = r.successor_live;
      tokens_after = r.tokens_after;
    },
    id_eq,
  )

  Exchanged-Committed :
      (hash : String) (family : RefreshFamily) (stored : AuthRefreshToken) (row x : Option User)
      (pair : Option TokenPair) (d d' : Db)
      → token_at hash d ≡ some stored
      → family_at family.id d ≡ some family
      → ((user : User) → row ≡ some user → active_user family.user_id d ≡ some user)
      → usable run.now family stored row ≡ x
      → Exchanged lib run s family stored x pair d d'
      → Committed hash family.id pair d d'
  Exchanged-Committed hash family stored row none pair d d' at_hash at_id users how (none_eq, end) =
      subst (λ pair. Committed hash family.id pair d d') (sym none_eq) (inr end)
  Exchanged-Committed hash family stored row (some user) pair d d' at_hash at_id users how
        (p, d1, some_eq, expiry, revoked, created) =
      let (row_eq, was_usable) = usable-Usable run.now family stored row user how in
      let rotated : Rotated lib run s hash p d d' = record {
        stored = stored;
        family = family;
        user = user;
        stored_at = at_hash;
        family_is = at_id;
        user_is = users user row_eq;
        was_usable = was_usable;
        within_family = rw expiry (idle_expiry-family s run.now family.expires_at);
        within_idle = rw expiry (idle_expiry-idle s run.now family.expires_at);
        families_kept = ap Db.families created.2 ∙ ap Db.families revoked;
        spent = Spent-is_spent (token_at hash d') (
            rotated-Spent run hash stored (token_for lib run s family user p) d d1 d' at_hash
              (ap Db.tokens revoked) created);
        successor = new_token run.now (token_for lib run s family user p) created.0;
        successor_hash = refl;
        successor_family = refl;
        successor_expiry = refl;
        successor_live = refl;
        tokens_after =
            ap Db.tokens created.2
            ∙ ap (λ ts. new_token run.now (token_for lib run s family user p) created.0 ∷ ts)
                (ap Db.tokens revoked);
      } in
      subst (λ pair. Committed hash family.id pair d d') (sym some_eq) (rotated, refl)

  refresh_family-Committed :
      (p : Policy) (hash : String) (family : RefreshFamily) (w : World) {outcome : Outcome}
      {w' : World}
      → family_at family.id w.db ≡ some family
      → refresh_family lib run s p hash (some family) w ≡ (ok outcome, w')
      → Committed hash family.id outcome.pair w.db w'.db
  unfolding refresh_family find_auth_refresh_token_by_hash find_active_user_by_id
  refresh_family-Committed p hash family w {outcome} {w'} at_id h =
      bind-ok _ _ w h λ stored w1 read h1. bind-ok _ _ w1 h1 λ row w2 looked h2.
        bind-ok _ _ w2 h2 λ pair w3 exchanged h3. bind-ok _ _ w3 h3 λ _ w4 wrote end.
          let (at_hash, e1) = query_row-ok run _ w read in
          let e2 = optional_row-same run (active_user family.user_id) w1 looked in
          let users = λ (user : User) (is : row ≡ some user).
            subst (λ d. active_user family.user_id d ≡ some user) e1
              (optional_row-some run (active_user family.user_id) w1 {a = user}
                (looked ∙ ap (λ r. (ok r, w2)) is)).0 in
          let x = usable run.now family stored row in
          let done =
            Exchanged-Committed hash family stored row x pair w.db w3.db at_hash at_id users refl (
              subst (λ d. Exchanged lib run s family stored x pair d w3.db) (e2 ∙ e1)
                (exchange-Exchanged lib run s family stored x w2 exchanged)) in
          let logged = required_write-OnlyLogs run p _ _ _ w3 wrote in
          let (value, last) = pure-ok _ w4 end in
          subst (λ (o : Outcome). Committed hash family.id o.pair w.db w'.db) value
            (subst (λ v. Committed hash family.id pair w.db (World.db v)) last
              (OnlyLogs-keeps (Committed hash family.id pair w.db)
                (Committed-log hash family.id pair w.db) w3.db w4.db logged done))

  locked-Committed :
      (p : Policy) (hash id : String) (found : Option RefreshFamily) (w w1 : World)
      {outcome : Outcome} {w' : World}
      → optional_row (lock_refresh_family run id) w ≡ (ok found, w1)
      → refresh_family lib run s p hash found w1 ≡ (ok outcome, w')
      → Committed hash id outcome.pair w.db w'.db
  unfolding refresh_family lock_refresh_family
  locked-Committed p hash id none w w1 {w'} locked rest =
      let (value, last) = pure-ok _ w1 rest in
      let same = ap World.db (sym last) ∙ optional_row-same run (family_at id) w locked in
      subst (λ (o : Outcome). Committed hash id o.pair w.db w'.db) value
        (inl (OnlyLogs-same w.db w'.db same))
  locked-Committed p hash id (some family) w w1 {outcome} {w'} locked rest =
      let (at_id, same) = optional_row-some run (family_at id) w locked in
      let id_eq = family_at-id id w.db family at_id in
      let at_id1 = ap (family_at family.id) same ∙ ap (λ i. family_at i w.db) id_eq ∙ at_id in
      subst (λ d. Committed hash id outcome.pair d w'.db) same
        (subst (λ i. Committed hash i outcome.pair w1.db w'.db) id_eq
          (refresh_family-Committed p hash family w1 at_id1 rest))

  -- The transaction of a refresh, whatever has happened since its token was looked up, commits a
  -- rotation together with a pair, or without a pair either nothing or the end of the family.
  pub refresh_body-Committed :
      (p : Policy) (hash : String) (lookup : AuthRefreshToken) (w : World) {outcome : Outcome}
      {w' : World}
      → refresh_body lib run s p hash lookup w ≡ (ok outcome, w')
      → Committed hash lookup.family_id outcome.pair w.db w'.db
  unfolding refresh_body
  refresh_body-Committed p hash lookup w h =
      bind-ok _ _ w h
        λ found w1 locked rest. locked-Committed p hash lookup.family_id found w w1 locked rest
