-- ===== src/Auth/Service.antt =====
-- The operations of internal/auth/jwt_service.go on the refresh tokens that Redis keeps, and the
-- calls of Login and Logout in handlers.go on them.
use sync_vault.Base.{
  ℕ, ◌+◌, ◌/◌, String, true, false, not, List, [], ◌∷◌, Option, none, some, Result, ok, err, pos,
  difference, string_eq, ◌==◌, ◌<>◌, if◌then◌else◌,
}
use sync_vault.Auth.{
  JwtConfig, Jwt, Redis, RefreshTokenData, marshal, unmarshal, TokenPair, JwtClaims, access_claims,
  refresh_claims, refresh_token_key, refresh_token_type, validate_token,
}

module _ (R : Redis) where
  abbrev pub get_refresh_token_by_key : String → R.State → R.State × Result RefreshTokenData
  get_refresh_token_by_key key s =
      let (s', read) = R.get s key in (s', elim read [ err e ↦ err e | ok v ↦ unmarshal v ])

  abbrev pub get_refresh_token : String → R.State → R.State × Result RefreshTokenData
  get_refresh_token token_id s = get_refresh_token_by_key (refresh_token_key token_id) s

  abbrev pub revoked : RefreshTokenData → RefreshTokenData
  revoked d = record d { is_revoked = true }

  -- The end of `revokeRefreshToken`, after the data was read.
  abbrev pub mark_revoked :
      ℕ → String → R.State → Result RefreshTokenData → R.State × Result {0} Unit
  mark_revoked now token_id s (err e) = (s, err e)
  mark_revoked now token_id s (ok d) =
      R.set s (refresh_token_key token_id) (marshal (revoked d)) (difference d.expires_at now)

  unfoldable pub revoke_refresh_token : ℕ → String → R.State → R.State × Result {0} Unit
  revoke_refresh_token now token_id s =
      let (s', found) = get_refresh_token token_id s in mark_revoked now token_id s' found

  -- One round of the loop of `Logout`.
  abbrev pub delete_own : String → String → R.State → Result RefreshTokenData → R.State
  delete_own user_id key s (err e) = s
  delete_own user_id key s (ok d) = if d.user_id == user_id then R.del s key else s

  abbrev pub delete_tokens : String → List String → R.State → R.State
  delete_tokens user_id [] s = s
  delete_tokens user_id (key ∷ listed) s =
      let (s', found) = get_refresh_token_by_key key s in
      delete_tokens user_id listed (delete_own user_id key s' found)

  abbrev pub delete_listed : String → R.State → Result (List String) → R.State × Result {0} Unit
  delete_listed user_id s (err e) = (s, err ("failed to find user tokens: " <> e))
  delete_listed user_id s (ok found) = (delete_tokens user_id found s, ok tt)

  unfoldable pub logout : String → R.State → R.State × Result {0} Unit
  logout user_id s =
      let (s', listed) = R.keys s (refresh_token_key "*") in delete_listed user_id s' listed

module _ (J : Jwt) (R : Redis) (config : JwtConfig) where
  abbrev pub store_refresh_token : ℕ → String → String → ℕ → R.State → R.State × Result {0} Unit
  store_refresh_token now token_id user_id expires_at s =
      R.set s (refresh_token_key token_id)
        (marshal (record {
          user_id = user_id;
          token_id = token_id;
          created_at = now;
          expires_at = expires_at;
          is_revoked = false;
        }))
        (pos config.refresh_ttl)

  -- The last step of `GenerateTokenPair`: the pair is given out once the refresh token is stored.
  abbrev pub store_pair :
      ℕ → String → String → J.Token → J.Token → R.State → R.State × Result (TokenPair J.Token)
  store_pair now user_id refresh_id access refresh s =
      let (s', stored) = store_refresh_token now refresh_id user_id (now + config.refresh_ttl) s in
      (
        s',
        elim stored [
          | err e ↦ err ("failed to store refresh token: " <> e)
          | ok u ↦ ok (record {
            access_token = access;
            refresh_token = refresh;
            token_type = "Bearer";
            expires_in = config.access_ttl / 1000000000;
          })
        ],
      )

  -- The half of `GenerateTokenPair` that makes the refresh token.
  abbrev pub generate_refresh :
      ℕ
      → J.Token
      → Result String
      → String
      → String
      → String
      → R.State
      → R.State × Result (TokenPair J.Token)
  generate_refresh now access (err e) user_id email role s =
      (s, err ("failed to generate refresh token ID: " <> e))
  generate_refresh now access (ok id) user_id email role s =
      let claims = refresh_claims J config now user_id email role id in
      elim (J.sign claims config.refresh_secret) [
        | err e ↦ (s, err ("failed to sign refresh token: " <> e))
        | ok refresh ↦ store_pair now user_id id access refresh s
      ]

  -- The random identifiers of the two tokens are given, each with the failure of its generation.
  unfoldable pub generate_token_pair :
      ℕ
      → Result String
      → Result String
      → String
      → String
      → String
      → R.State
      → R.State × Result (TokenPair J.Token)
  generate_token_pair now (err e) refresh_id user_id email role s =
      (s, err ("failed to generate token ID: " <> e))
  generate_token_pair now (ok id) refresh_id user_id email role s =
      let claims = access_claims J config now user_id email role id in
      elim (J.sign claims config.access_secret) [
        | err e ↦ (s, err ("failed to sign access token: " <> e))
        | ok access ↦ generate_refresh now access refresh_id user_id email role s
      ]

  -- The end of `RefreshTokens`, after the old token was revoked.
  abbrev pub renew :
      ℕ
      → Result String
      → Result String
      → JwtClaims
      → R.State
      → Result {0} Unit
      → R.State × Result (TokenPair J.Token)
  renew now access_id refresh_id c s (err e) =
      (s, err ("failed to revoke old refresh token: " <> e))
  renew now access_id refresh_id c s (ok u) =
      let (s', pair) = generate_token_pair now access_id refresh_id c.user_id c.email c.role s in
      (s', elim pair [ err e ↦ err ("failed to generate new tokens: " <> e) | ok p ↦ ok p ])

  -- The checks of `RefreshTokens` on the stored data, in their order.
  abbrev pub refusal : JwtClaims → Result RefreshTokenData → Option String
  refusal c (err e) = some ("refresh token not found or revoked: " <> e)
  refusal c (ok d) =
      if not (d.user_id == c.user_id)
      then some "token user mismatch"
      else if d.is_revoked
      then some "refresh token has been revoked - possible theft detected"
      else none

  abbrev pub rotate :
      ℕ
      → Result String
      → Result String
      → JwtClaims
      → R.State
      → Option String
      → R.State × Result (TokenPair J.Token)
  rotate now access_id refresh_id c s (some e) = (s, err e)
  rotate now access_id refresh_id c s none =
      let (s', revoked) = revoke_refresh_token R now c.token_id s in
      renew now access_id refresh_id c s' revoked

  abbrev pub rotate_valid :
      ℕ
      → Result String
      → Result String
      → R.State
      → Result JwtClaims
      → R.State × Result (TokenPair J.Token)
  rotate_valid now access_id refresh_id s (err e) = (s, err ("invalid refresh token: " <> e))
  rotate_valid now access_id refresh_id s (ok c) =
      let (s', found) = get_refresh_token R c.token_id s in
      rotate now access_id refresh_id c s' (refusal c found)

  unfoldable pub refresh_tokens :
      ℕ → Result String → Result String → J.Token → R.State → R.State × Result (TokenPair J.Token)
  unfolding revoke_refresh_token generate_token_pair validate_token
  refresh_tokens now access_id refresh_id token s =
      rotate_valid now access_id refresh_id s (validate_token J config now token refresh_token_type)
