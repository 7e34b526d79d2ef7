-- ===== src/Auth/Families.antt =====
-- internal/auth/service.go: what the statements on a refresh family and its tokens amount to.
use golang_backend.Base.{
  none, ℕ, String, ◌≡◌, refl, sym, ◌∙◌, ap, Bool, true, false, not, ◌&&◌, ◌||◌, Option, some, List,
  [], ◌∷◌, arith, ◌==◌, string_eq, all, any, find_first, update_where,
}
use golang_backend.Database.Tables.{Db, RefreshFamily, AuthRefreshToken}
use golang_backend.Database.Action.{
  ok, Run, World, pure, raise, attempt, ◌>>=◌, query_row, statement, draw,
}
use golang_backend.Database.Effects.{exec-ok}
use golang_backend.Database.Sessions.{
  is_set, revoke_token, revoke_family, revoke_tokens_of_family, revoke_family_record,
  CreateAuthRefreshTokenParams, new_token, insert_token, token_at, family_at,
  revoke_refresh_family_record, revoke_auth_refresh_family, create_auth_refresh_token,
}
use golang_backend.Auth.Session.{optional_row}

-- the family is revoked, and so are all its tokens
abbrev pub FamilyEnded : String → Db → Type 0
FamilyEnded id d =
    (all (λ f. not (f.id == id) || is_set f.revoked_at) d.families ≡ true)
    × (all (λ t. not (t.family_id == id) || is_set t.revoked_at) d.tokens ≡ true)

families_ended :
    (now : ℕ) (id : String) (fs : List RefreshFamily)
    → all
        (λ f. not (f.id == id) || is_set f.revoked_at)
        (update_where (λ f. f.id == id && not (is_set f.revoked_at)) (revoke_family now) fs)
      ≡ true
families_ended now id [] = refl
families_ended now id (f ∷ fs) = ground (arith, families_ended now id fs)

tokens_ended :
    (now : ℕ) (id : String) (ts : List AuthRefreshToken)
    → all
        (λ t. not (t.family_id == id) || is_set t.revoked_at)
        (update_where (λ t. t.family_id == id && not (is_set t.revoked_at)) (revoke_token now) ts)
      ≡ true
tokens_ended now id [] = refl
tokens_ended now id (t ∷ ts) = ground (arith, tokens_ended now id ts)

-- a family of that name is revoked
pub FamilyEnded-at :
    (id : String) (d : Db) (f : RefreshFamily)
    → FamilyEnded id d
    → family_at id d ≡ some f
    → is_set f.revoked_at ≡ true
unfolding family_at
FamilyEnded-at id d f (ended, _) found = search_all d.families ended found
  where
    search_all :
        (fs : List RefreshFamily)
        → all (λ f. not (f.id == id) || is_set f.revoked_at) fs ≡ true
        → find_first (λ f. f.id == id) fs ≡ some f
        → is_set f.revoked_at ≡ true
    search_all [] a h = absurd (cc h)
    search_all (g ∷ fs) a h = ground (arith, search_all fs)

pub family_at-id : (id : String) (d : Db) (f : RefreshFamily) → family_at id d ≡ some f → f.id ≡ id
unfolding family_at
family_at-id id d f found = search_id d.families found
  where
    search_id : (fs : List RefreshFamily) → find_first (λ f. f.id == id) fs ≡ some f → f.id ≡ id
    search_id [] h = absurd (cc h)
    search_id (g ∷ fs) h = ground (arith, search_id fs)

-- the token of that hash is revoked, if there is one
abbrev pub Spent : String → Db → Type 0
Spent hash d = (t : AuthRefreshToken) → token_at hash d ≡ some t → is_set t.revoked_at ≡ true

abbrev pub is_spent : Option AuthRefreshToken → Bool
is_spent none = true
is_spent (some t) = is_set t.revoked_at

pub Spent-is_spent :
    (found : Option AuthRefreshToken)
    → ((t : AuthRefreshToken) → found ≡ some t → is_set t.revoked_at ≡ true)
    → is_spent found ≡ true
Spent-is_spent none spent = refl
Spent-is_spent (some t) spent = spent t refl

abbrev pub unrevoked : String → AuthRefreshToken → Bool
unrevoked id t = t.id == id && not (is_set t.revoked_at)

spent_after :
    (now : ℕ) (hash : String) (stored t : AuthRefreshToken) (ts : List AuthRefreshToken)
    → find_first (λ t. t.token_hash == hash) ts ≡ some stored
    → find_first
        (λ t. t.token_hash == hash)
        (update_where (unrevoked stored.id) (revoke_token now) ts)
      ≡ some t
    → is_set t.revoked_at ≡ true
spent_after now hash stored t [] h k = absurd (cc h)
spent_after now hash stored t (u ∷ ts) h k = ground (arith, spent_after now hash stored t ts)

hash_differs :
    (now : ℕ) (hash id h' i : String) (stored : AuthRefreshToken) (ts : List AuthRefreshToken)
    → find_first (λ t. t.token_hash == hash) ts ≡ some stored
    → any (λ t. t.id == i || t.token_hash == h') (update_where (unrevoked id) (revoke_token now) ts)
      ≡ false
    → (h' == hash) ≡ false
hash_differs now hash id h' i stored [] h k = absurd (cc h)
hash_differs now hash id h' i stored (u ∷ ts) h k =
    ground (arith, hash_differs now hash id h' i stored ts)

module _ (run : Run) where
  -- the two statements that end a family
  pub ended :
      (id : String) (w : World) {w1 w' : World}
      → revoke_refresh_family_record run id w ≡ (ok tt, w1)
      → revoke_auth_refresh_family run id w1 ≡ (ok tt, w')
      → FamilyEnded id w'.db
  unfolding revoke_refresh_family_record revoke_auth_refresh_family revoke_family_record
      revoke_tokens_of_family
  ended id w {w1} {w'} h k =
      let e = exec-ok run _ w h in
      let e' = exec-ok run _ w1 k in
      (
        ap (λ (d : Db). all (λ f. not (f.id == id) || is_set f.revoked_at) d.families)
              (e' ∙ ap (revoke_tokens_of_family run.now id) e)
            ∙ families_ended run.now id w.db.families,
        ap (λ (d : Db). all (λ t. not (t.family_id == id) || is_set t.revoked_at) d.tokens)
              (e' ∙ ap (revoke_tokens_of_family run.now id) e)
            ∙ tokens_ended run.now id w.db.tokens,
      )

  module _ {A : Type 0} (f : Db → Option A) where
    pub optional_row-some :
        (w : World) {a : A} {w' : World}
        → optional_row (query_row run f) w ≡ (ok (some a), w')
        → (f w.db ≡ some a) × (w'.db ≡ w.db)
    unfolding optional_row query_row statement attempt raise pure ◌>>=◌
    optional_row-some w h = ground arith

    pub optional_row-same :
        (w : World) {r : Option A} {w' : World}
        → optional_row (query_row run f) w ≡ (ok r, w')
        → w'.db ≡ w.db
    unfolding optional_row query_row statement attempt raise pure ◌>>=◌
    optional_row-same w h = ground arith

  -- a token that has been created, with the name that was drawn for it
  abbrev pub Created : CreateAuthRefreshTokenParams → Db → Db → Type 0
  Created a d d' =
      (id : String) × (any (λ t. t.id == id || t.token_hash == a.token_hash) d.tokens ≡ false)
      × (d' ≡ record d { tokens = new_token run.now a id ∷ d.tokens })

  pub create_auth_refresh_token-ok :
      (a : CreateAuthRefreshTokenParams) (w : World) {w' : World}
      → create_auth_refresh_token run a w ≡ (ok tt, w')
      → Created a w.db w'.db
  unfolding create_auth_refresh_token insert_token draw statement ◌>>=◌
  create_auth_refresh_token-ok a w h = (run.fresh w.drawn, ground arith, ground arith)

  -- A token that is revoked while another takes its place is spent.
  pub rotated-Spent :
      (hash : String) (stored : AuthRefreshToken) (a : CreateAuthRefreshTokenParams) (d d1 d' : Db)
      → token_at hash d ≡ some stored
      → d1.tokens ≡ update_where (unrevoked stored.id) (revoke_token run.now) d.tokens
      → Created a d1 d'
      → Spent hash d'
  unfolding token_at
  rotated-Spent hash stored a d d1 d' found revoked (id, free, after) t at =
      let ts = update_where (unrevoked stored.id) (revoke_token run.now) d.tokens in
      let other =
        hash_differs run.now hash stored.id a.token_hash id stored d.tokens found
          (rw revoked at free) in
      let tokens_eq = ap Db.tokens after ∙ ap (λ xs. new_token run.now a id ∷ xs) revoked in
      let step : find_first (λ t. t.token_hash == hash) (new_token run.now a id ∷ ts) ≡ some t =
        ap (find_first (λ t. t.token_hash == hash)) (sym tokens_eq) ∙ at in
      spent_after run.now hash stored t d.tokens found (ground arith)
