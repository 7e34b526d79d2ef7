-- ===== src/Library.antt =====
-- The code that the services call and that is not the repository's, as functions that nothing is
-- assumed of: github.com/google/uuid, golang.org/x/crypto/bcrypt, github.com/golang-jwt/jwt and the
-- databases' own `lower` and `ILIKE`; so too `strings.ToLower` and `crypto/sha256`, whose tables and
-- rounds are not modelled.
use golang_backend.Base.{ℕ, String, Bool, Option}

-- the claims of an access token: internal/auth/service.go, `Claims`
pub record Claims : Type 0 where
  pub id : String
  pub email : String
  pub role_id : String
  pub token_use : String
  pub issuer : String
  pub audience : String
  pub issued_at : ℕ
  pub expires_at : ℕ

pub record Library : Type 0 where
  -- `uuid.Parse(value)` gives no error
  pub valid_uuid : String → Bool
  -- how PostgreSQL reads a text as a `uuid`: in the spelling that it writes; `none` where it is none
  pub read_uuid : String → Option String
  -- `strings.ToLower`, and `lower` in SQL
  pub lower : String → String
  -- `email ILIKE '%'||search||'%'`
  pub email_like : String → String → Bool
  -- `email LIKE concat('%',search,'%')` of MySQL
  pub sql_like : String → String → Bool
  -- `bcrypt.GenerateFromPassword` with the salt that it draws; `none` where it fails
  pub bcrypt : String → String → Option String
  -- `bcrypt.CompareHashAndPassword(hash, password)` gives no error
  pub bcrypt_matches : String → String → Bool
  -- `sha256.Sum256`
  pub digest : String → String
  -- `jwt.NewWithClaims(HS256, claims).SignedString(secret)`; `none` where it fails
  pub sign : String → Claims → Option String
  -- `jwt.ParseWithClaims` with HS256, an expiry required and not passed at the instant, the issuer
  -- and the audience required where they are not empty: secret, issuer, audience, instant, text
  pub parse_token : String → String → String → ℕ → String → Option Claims
