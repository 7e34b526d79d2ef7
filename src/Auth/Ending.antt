-- ===== src/Auth/Ending.antt =====
-- internal/auth/service.go: a refresh that fails, and `Logout`.
use golang_backend.Base.{
  String, ◌≡◌, refl, sym, ◌∙◌, ap, subst, Option, none, some, arith, ◌⊎◌, inl, inr, string_eq,
}
use golang_backend.Fault.{Error}
use golang_backend.Library.{Library}
use golang_backend.Model.{TokenPair}
use golang_backend.Database.Tables.{Db, AuthRefreshToken}
use golang_backend.Database.Action.{
  Result, ok, err, Run, World, M, pure, raise, wrap, attempt, ◌>>=◌, statement, query_row,
  transaction,
}
use golang_backend.Database.Laws.{
  ok_ne_err, result_of, bind-err, pure_ne_err, wrap-ok, wrap-err, transaction-ok,
  transaction_failed,
}
use golang_backend.Database.Sessions.{token_at, lookup_auth_refresh_token}
use golang_backend.Audit.Writer.{Actor, Policy, Change, write}
use golang_backend.Audit.Laws.{write_optional_total}
use golang_backend.Audit.Entries.{OnlyLogs, OnlyLogs-same, OnlyLogs-keeps}
use golang_backend.Auth.Session.{
  Settings, refresh, refresh_found, session_audit, token_or_raise, optional_row,
}
use golang_backend.Auth.Families.{FamilyEnded, optional_row-some, optional_row-same}
use golang_backend.Auth.Commit.{Committed, Committed-log, refresh_body-Committed}
use golang_backend.Auth.Rotation.{audited-same}

-- the family of the token with that hash is ended
abbrev pub TokenFamilyEnded : String → Db → Db → Type 0
TokenFamilyEnded hash d d' =
    (t : AuthRefreshToken) × (token_at hash d ≡ some t) × FamilyEnded t.family_id d'

module _ {A : Type 0} (run : Run) (f : Db → Option A) where
  optional_row_failed :
      (w : World) {e : Error} {w' : World}
      → optional_row (query_row run f) w ≡ (err e, w')
      → w'.db ≡ w.db
  unfolding optional_row query_row statement attempt raise pure ◌>>=◌
  optional_row_failed w h = ground arith

module _ (lib : Library) (run : Run) (s : Settings) where
  session_audit_total :
      (p : Policy) (entry : Option (Option Actor × String × Change)) (w : World) {e : Error}
      {w' : World}
      → session_audit lib run s p entry w ≡ (err e, w')
      → ⊥
  unfolding session_audit
  session_audit_total p none w h = pure_ne_err tt w h
  session_audit_total p (some (actor, behavior, change)) w h =
      ok_ne_err tt _
        (sym (write_optional_total run p.mode (write run p actor behavior change) w) ∙ result_of h)

  unanswered :
      (pair : Option TokenPair) (w : World) {e : Error} {w' : World}
      → token_or_raise lib run s pair w ≡ (err e, w')
      → (pair ≡ none) × (w ≡ w')
  unfolding raise
  unanswered none w h = (refl, ground arith)
  unanswered (some pair) w h = absurd (pure_ne_err pair w h)

  rolled_back :
      {A : Type 0} (body : M A) (w : World) {e : Error} {w' : World}
      → wrap (transaction run body) w ≡ (err e, w')
      → w'.db ≡ w.db
  rolled_back body w h = wrap-err (transaction run body) w h λ cause failed.
      ap (λ (x : Result _ × World). x.1.db) (sym failed)
      ∙ transaction_failed run body w cause (result_of failed)

  found_failed :
      (p : Policy) (hash : String) (lookup : Option AuthRefreshToken) (w : World) {e : Error}
      {w' : World}
      → refresh_found lib run s p hash lookup w ≡ (err e, w')
      → OnlyLogs w.db w'.db
        ⊎ ((t : AuthRefreshToken) × (lookup ≡ some t) × FamilyEnded t.family_id w'.db)
  unfolding refresh_found raise
  found_failed p hash none w {w'} h = inl (OnlyLogs-same w.db w'.db (ground arith))
  found_failed p hash (some lookup) w {w'} h =
      bind-err _ _ w h (λ failed. inl (OnlyLogs-same _ _ (rolled_back _ w failed)))
        λ outcome w1 committed h1.
          bind-err _ _ w1 h1 (λ failed. absurd (session_audit_total p outcome.entry w1 failed))
            λ _ w2 audited end.
              transaction-ok run _ w (wrap-ok _ w committed) λ v u before ran after.
                let (none_eq, last) = unanswered outcome.pair w2 end in
                let logged = audited-same lib run s p outcome.entry w1 audited in
                let C = λ (d : Db) (d' : Db). Committed lib run s hash lookup.family_id none d d' in
                let done =
                  subst (λ pair. Committed lib run s hash lookup.family_id pair v.db u.db) none_eq
                    (refresh_body-Committed lib run s p hash lookup v ran) in
                let at2 =
                  OnlyLogs-keeps (C w.db) (Committed-log lib run s hash lookup.family_id none w.db)
                    w1.db w2.db logged
                    (subst (λ d. C d w1.db) before (subst (C v.db) after done)) in
                elim (subst (λ v. C w.db (World.db v)) last at2) [
                  | inl only ↦ inl only
                  | inr over ↦ inr (lookup, refl, over)
                ]

  -- A refresh that fails changes nothing but the log, or it has ended the family of its token.
  pub refresh_failed :
      (p : Policy) (raw : String) (w : World) {e : Error} {w' : World}
      → refresh lib run s p raw w ≡ (err e, w')
      → OnlyLogs w.db w'.db ⊎ TokenFamilyEnded (lib.digest raw) w.db w'.db
  unfolding refresh lookup_auth_refresh_token
  refresh_failed p raw w {w'} h =
      bind-err _ _ w h
        (λ failed. inl (
          OnlyLogs-same w.db w'.db (
            wrap-err _ w failed
              λ cause failed'. optional_row_failed run (token_at (lib.digest raw)) w failed')))
        λ lookup w1 looked rest.
          let same = optional_row-same run (token_at (lib.digest raw)) w (wrap-ok _ w looked) in
          elim (found_failed p (lib.digest raw) lookup w1 rest) [
            | inl only ↦ inl (subst (λ d. OnlyLogs d w'.db) same only)
            | inr (t, is, over) ↦ inr (
              t,
              (optional_row-some run (token_at (lib.digest raw)) w {a = t}
                  (wrap-ok _ w looked ∙ ap (λ r. (ok r, w1)) is)).0,
              over,
            )
          ]
