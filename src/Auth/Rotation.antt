-- ===== src/Auth/Rotation.antt =====
-- internal/auth/service.go, `Refresh`: a token is exchanged at most once, within its family's life.
use golang_backend.Base.{
  String, ◌≡◌, refl, sym, ◌∙◌, ap, subst, true, false, Option, none, some, string_eq,
}
use golang_backend.Fault.{Error}
use golang_backend.Library.{Library}
use golang_backend.Model.{TokenPair}
use golang_backend.Database.Tables.{Db, AuthRefreshToken}
use golang_backend.Database.Action.{Result, ok, err, Run, World, pure}
use golang_backend.Database.Laws.{failed_if, bind-ok, pure-ok, wrap-ok, raise_ne_ok, transaction-ok}
use golang_backend.Database.Sessions.{token_at, lookup_auth_refresh_token}
use golang_backend.Audit.Writer.{Actor, Policy, Change}
use golang_backend.Audit.Entries.{OnlyLogs, OnlyLogs-same, OnlyLogs-keeps, optional_write-OnlyLogs}
use golang_backend.Auth.Session.{Settings, refresh_found, refresh, session_audit, token_or_raise}
use golang_backend.Auth.Families.{is_spent, optional_row-some, optional_row-same}
use golang_backend.Auth.Exchange.{Rotated}
use golang_backend.Auth.Commit.{Committed, Committed-log, refresh_body-Committed}

pub some_eq : {A : Type 0} {a b : A} → some a ≡ some b → a ≡ b
some_eq h = cc

pub true_ne_false : true ≡ false → ⊥
true_ne_false h = cc h

module _ (lib : Library) (run : Run) (s : Settings) where
  pub session_audit-OnlyLogs :
      (p : Policy) (entry : Option (Option Actor × String × Change)) (w : World)
      → OnlyLogs w.db (session_audit lib run s p entry w).1.db
  unfolding session_audit pure
  session_audit-OnlyLogs p none w = OnlyLogs-same _ _ refl
  session_audit-OnlyLogs p (some (actor, behavior, change)) w =
      optional_write-OnlyLogs run p actor behavior change w

  pub audited-same :
      (p : Policy) (entry : Option (Option Actor × String × Change)) (w : World)
      {r : Result (Unit {0})} {w' : World}
      → session_audit lib run s p entry w ≡ (r, w')
      → OnlyLogs w.db w'.db
  audited-same p entry w h =
      subst (λ (x : Result (Unit {0}) × World). OnlyLogs w.db x.1.db) h
        (session_audit-OnlyLogs p entry w)

  refresh_found-Rotated :
      (p : Policy) (hash : String) (lookup : Option AuthRefreshToken) (w : World) {pair : TokenPair}
      {w' : World}
      → refresh_found lib run s p hash lookup w ≡ (ok pair, w')
      → (t : AuthRefreshToken) × (lookup ≡ some t)
        × ((r : Rotated lib run s hash pair w.db w'.db) × (r.family.id ≡ t.family_id))
  unfolding refresh_found
  refresh_found-Rotated p hash none w h = absurd (raise_ne_ok _ w h)
  refresh_found-Rotated p hash (some lookup) w {pair} {w'} h =
      bind-ok _ _ w h λ outcome w1 committed h1. bind-ok _ _ w1 h1 λ _ w2 audited answered.
        transaction-ok run _ w (wrap-ok _ w committed) λ v u before ran after.
          let done = refresh_body-Committed lib run s p hash lookup v ran in
          let (pair_eq, last) = answer outcome.pair w2 answered in
          let logged = audited-same p outcome.entry w1 audited in
          let C =
            λ (d : Db) (d' : Db). Committed lib run s hash lookup.family_id outcome.pair d d' in
          let at2 =
            OnlyLogs-keeps (C w.db)
              (Committed-log lib run s hash lookup.family_id outcome.pair w.db) w1.db w2.db logged
              (subst (λ d. C d w1.db) before (subst (C v.db) after done)) in
          (
            lookup,
            refl,
            subst (λ x. Committed lib run s hash lookup.family_id x w.db w'.db) pair_eq
                (subst (λ v. C w.db (World.db v)) last at2),
          )
    where
      answer :
          (found : Option TokenPair) (w2 : World)
          → token_or_raise lib run s found w2 ≡ (ok pair, w')
          → (found ≡ some pair) × (w2 ≡ w')
      answer none w2 end = absurd (raise_ne_ok _ w2 end)
      answer (some q) w2 end = let (value, last) = pure-ok _ w2 end in (ap some value, last)

  -- A refresh that succeeds was given a token that is stored, not revoked and not expired, of a family
  -- that is neither, and whose user is active. Afterwards the token is revoked and one live successor
  -- is stored in its family, under the hash of the new refresh token. The successor lasts no longer
  -- than the family, whose expiry is as before, and no longer than the idle window.
  pub refresh-Rotated :
      (p : Policy) (raw : String) (w : World) {pair : TokenPair} {w' : World}
      → refresh lib run s p raw w ≡ (ok pair, w')
      → (r : Rotated lib run s (lib.digest raw) pair w.db w'.db) × (r.family.id
          ≡ r.stored.family_id)
  unfolding refresh lookup_auth_refresh_token
  refresh-Rotated p raw w {pair} {w'} h = bind-ok _ _ w h λ lookup w1 looked rest.
      let hash = lib.digest raw in
      let same = optional_row-same run (token_at hash) w (wrap-ok _ w looked) in
      let (t, is, rotated) = refresh_found-Rotated p hash lookup w1 rest in
      let (r, id_eq) =
        subst (λ d. (r : Rotated lib run s hash pair d w'.db) × (r.family.id ≡ t.family_id)) same
          rotated in
      let found =
        (optional_row-some run (token_at hash) w {a = t}
          (wrap-ok _ w looked ∙ ap (λ l. (ok l, w1)) is)).0 in
      (r, id_eq ∙ ap AuthRefreshToken.family_id (some_eq (sym found ∙ r.stored_at)))

-- A refresh token is good for one exchange: after a refresh with it has succeeded, every refresh with it
-- fails, whatever the policy, the instant and the failures of the second.
pub refresh-single_use :
    (lib : Library) (run run' : Run) (s : Settings) (p p' : Policy) (raw : String) (w v : World)
    {pair : TokenPair} {w' : World}
    → refresh lib run s p raw w ≡ (ok pair, w')
    → v.db ≡ w'.db
    → (e : Error) × ((refresh lib run' s p' raw v).0 ≡ err e)
refresh-single_use lib run run' s p p' raw w v first same =
    failed_if (refresh lib run' s p' raw v) λ pair' again.
      let (r, _) = refresh-Rotated lib run s p raw w first in
      let (r', _) = refresh-Rotated lib run' s p' raw v again in
      let spent = ap (λ (d : Db). is_spent (token_at (lib.digest raw) d)) same ∙ r.spent in
      true_ne_false (sym (ap is_spent (sym r'.stored_at) ∙ spent) ∙ r'.was_usable.token_live)
