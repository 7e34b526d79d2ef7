-- ===== src/Auth/SignedOut.antt =====
-- internal/auth/service.go: families that are over, and what a look-up of their tokens finds.
use golang_backend.Base.{
  refl, ℕ, String, ◌≡◌, Bool, true, false, Option, none, some, List, [], ◌∷◌, arith, ◌==◌,
  string_eq, find_first, update_where,
}
use golang_backend.Fault.{Error, is_no_rows}
use golang_backend.Database.Tables.{Db, RefreshFamily, AuthRefreshToken}
use golang_backend.Database.Action.{
  ok, Run, World, pure, raise, attempt, ◌>>=◌, statement, query_row,
}
use golang_backend.Database.Sessions.{is_set, token_at, family_at, revoke_token}
use golang_backend.Auth.Session.{optional_row}
use golang_backend.Auth.Families.{optional_row-some}

abbrev pub empty_result : Option Error → Bool
empty_result none = false
empty_result (some e) = is_no_rows e

abbrev pub Genuine : Run → Type 0
Genuine run = (n : ℕ) → empty_result (run.faults n) ≡ false

-- a token of that hash is of a family that is revoked
abbrev pub SignedOut : String → Db → Type 0
SignedOut hash d =
    (t : AuthRefreshToken) (f : RefreshFamily)
    → token_at hash d ≡ some t
    → family_at t.family_id d ≡ some f
    → is_set f.revoked_at ≡ true

abbrev pub family_over : Option RefreshFamily → Bool
family_over none = true
family_over (some f) = is_set f.revoked_at

abbrev pub over_at : Option AuthRefreshToken → Db → Bool
over_at none d = true
over_at (some t) d = family_over (family_at t.family_id d)

-- the same as a test
abbrev pub signed_out : String → Db → Bool
signed_out hash d = over_at (token_at hash d) d

pub SignedOut-family_over :
    (found : Option RefreshFamily)
    → ((f : RefreshFamily) → found ≡ some f → is_set f.revoked_at ≡ true)
    → family_over found ≡ true
SignedOut-family_over none over = refl
SignedOut-family_over (some f) over = over f refl

pub SignedOut-over_at :
    (found : Option AuthRefreshToken) (d : Db)
    → ((t : AuthRefreshToken) (f : RefreshFamily)
        → found ≡ some t
        → family_at t.family_id d ≡ some f
        → is_set f.revoked_at ≡ true)
    → over_at found d ≡ true
SignedOut-over_at none d out = refl
SignedOut-over_at (some t) d out =
    SignedOut-family_over (family_at t.family_id d) (λ f found. out t f refl found)

pub token_family_kept :
    (now : ℕ) (hash : String) (test : AuthRefreshToken → Bool) (t t' : AuthRefreshToken)
    (ts : List AuthRefreshToken)
    → find_first (λ t. t.token_hash == hash) ts ≡ some t
    → find_first (λ t. t.token_hash == hash) (update_where test (revoke_token now) ts) ≡ some t'
    → t'.family_id ≡ t.family_id
token_family_kept now hash test t t' [] h k = absurd (cc h)
token_family_kept now hash test t t' (u ∷ ts) h k =
    ground (arith, token_family_kept now hash test t t' ts)

module _ (run : Run) (genuine : Genuine run) {A : Type 0} (f : Db → Option A) where
  pub optional_row-none :
      (w : World) {w' : World} → optional_row (query_row run f) w ≡ (ok none, w') → f w.db ≡ none
  unfolding optional_row query_row statement attempt raise pure ◌>>=◌
  optional_row-none w h = ground (arith, genuine w.calls)

pub read_value :
    (run : Run)
    → Genuine run
    → (hash : String) (lookup : Option AuthRefreshToken) (w : World) {w' : World}
    → optional_row (query_row run (token_at hash)) w ≡ (ok lookup, w')
    → token_at hash w.db ≡ lookup
read_value run genuine hash none w read = optional_row-none run genuine (token_at hash) w read
read_value run genuine hash (some t) w read = (optional_row-some run (token_at hash) w read).0
