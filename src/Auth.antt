-- ===== src/Auth.antt =====
-- The tokens of internal/auth/jwt_service.go and jwt_models.go. Times are in nanoseconds, and an
-- operation reads the clock once. The library of tokens and Redis are parameters.
pub mod Service
pub mod Tokens
pub mod Spent
pub mod Rotation
pub mod Leaving
use sync_vault.Base.{
  ℕ, ℤ, ◌+◌, ◌-◌, ◌/◌, ◌≡◌, String, Bool, true, false, not, List, [], ◌∷◌, Option, none, some,
  Result, ok, err, string_eq, ◌==◌, ◌<>◌, if◌then◌else◌,
}

pub record JwtConfig : Type 0 where
  pub access_secret : String
  pub refresh_secret : String
  pub access_ttl : ℕ
  pub refresh_ttl : ℕ
  pub issuer : String

abbrev pub access_token_type : String
access_token_type = "access"

abbrev pub refresh_token_type : String
refresh_token_type = "refresh"

abbrev pub refresh_token_key : String → String
refresh_token_key token_id = "refresh_token:" <> token_id

-- The claims of a token: those of the program, then the registered ones it sets.
pub record JwtClaims : Type 0 where
  pub user_id : String
  pub email : String
  pub role : String
  pub token_id : String
  pub token_type : String
  pub issuer : String
  pub subject : String
  pub audience : List String
  pub expires_at : ℕ
  pub issued_at : ℕ
  pub not_before : ℕ
  pub id : String

-- The claims as JSON keeps them: `sub` and `jti` name a field of the program and a registered one,
-- and the encoding writes and reads the outer field alone.
abbrev pub as_read : JwtClaims → JwtClaims
as_read c = record c { subject = ""; id = "" }

pub record TokenPair (Token : Type 0) : Type 0 where
  pub access_token : Token
  pub refresh_token : Token
  pub token_type : String
  pub expires_in : ℕ

pub record RefreshTokenData : Type 0 where
  pub user_id : String
  pub token_id : String
  pub created_at : ℕ
  pub expires_at : ℕ
  pub is_revoked : Bool

-- A value of Redis: the JSON of a token's data, or a text that is not.
pub data Value : Type 0 where
  marshal : RefreshTokenData → Value
  other : String → Value

abbrev pub unmarshal : Value → Result RefreshTokenData
unmarshal (marshal d) = ok d
unmarshal (other e) = err ("failed to unmarshal token data: " <> e)

-- What a parsed token says: its claims, if they are of the asked type, and whether it is valid.
pub record Parsed : Type 0 where
  pub claims : Option JwtClaims
  pub valid : Bool

-- The library of tokens. A parser asks for the key by whether the method of a token is an HMAC.
pub record Jwt : Type 1 where
  pub Token : Type 0
  pub numeric_date : ℕ → ℕ
  pub sign : JwtClaims → String → Result Token
  pub parse_with_claims : ℕ → Token → (Bool → Result String) → Result Parsed

-- The commands of Redis. `view` is what a key holds; a read of a missing key is an error too.
pub record Redis : Type 1 where
  pub State : Type 0
  pub view : State → String → Option Value
  pub get : State → String → State × Result Value
  -- The time to live is none for 0 and below, but for a nanosecond below, where it is kept.
  pub set : State → String → Value → ℤ → State × Result {0} Unit
  pub del : State → String → State
  pub keys : State → String → State × Result (List String)

module _ (J : Jwt) (config : JwtConfig) where
  abbrev pub access_claims : ℕ → String → String → String → String → JwtClaims
  access_claims now user_id email role token_id = record {
    user_id = user_id;
    email = email;
    role = role;
    token_id = token_id;
    token_type = access_token_type;
    issuer = config.issuer;
    subject = user_id;
    audience = "syncvault-api" ∷ [];
    expires_at = J.numeric_date (now + config.access_ttl);
    issued_at = J.numeric_date now;
    not_before = J.numeric_date now;
    id = token_id;
  }

  abbrev pub refresh_claims : ℕ → String → String → String → String → JwtClaims
  refresh_claims now user_id email role token_id = record {
    user_id = user_id;
    email = email;
    role = role;
    token_id = token_id;
    token_type = refresh_token_type;
    issuer = config.issuer;
    subject = user_id;
    audience = "syncvault-api" ∷ [];
    expires_at = J.numeric_date (now + config.refresh_ttl);
    issued_at = J.numeric_date now;
    not_before = J.numeric_date now;
    id = token_id;
  }

  abbrev pub secret_of : String → Result String
  secret_of token_type =
      if token_type == access_token_type
      then ok config.access_secret
      else if token_type == refresh_token_type
      then ok config.refresh_secret
      else err ("unsupported token type: " <> token_type)

  -- The function that gives the parser its key.
  abbrev pub key_of : String → Bool → Result String
  key_of secret true = ok secret
  key_of secret false = err "unexpected signing method"

  abbrev pub check_type : String → JwtClaims → Result JwtClaims
  check_type token_type c =
      if c.token_type == token_type
      then ok c
      else err ("token type mismatch: expected " <> token_type <> ", got " <> c.token_type)

  abbrev pub check_claims : String → Result Parsed → Result JwtClaims
  check_claims token_type (err e) = err ("failed to parse token: " <> e)
  check_claims token_type (ok p) = elim p.claims [
    | none ↦ err "invalid token claims"
    | some c ↦ if not p.valid then err "invalid token claims" else check_type token_type c
  ]

  unfoldable pub validate_token : ℕ → J.Token → String → Result JwtClaims
  validate_token now token token_type = elim (secret_of token_type) [
    | err e ↦ err e
    | ok secret ↦ check_claims token_type (J.parse_with_claims now token (key_of secret))
  ]
