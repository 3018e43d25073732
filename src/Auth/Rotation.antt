-- ===== src/Auth/Rotation.antt =====
-- The single use of refresh tokens: what `RefreshTokens` answers on a token before and after.
use sync_vault.Base.{
  ℕ, ◌≡◌, ◌≢◌, refl, sym, subst, String, List, Option, none, some, Result, ok, err, arith, All,
  string_eq,
}
use sync_vault.Auth.{
  JwtConfig, Jwt, Redis, Value, marshal, other, unmarshal, RefreshTokenData, JwtClaims, TokenPair,
  refresh_token_key, refresh_token_type, validate_token,
}
use sync_vault.Auth.Service.{
  get_refresh_token, mark_revoked, revoke_refresh_token, renew, refusal, rotate, rotate_valid,
  refresh_tokens,
}
use sync_vault.Auth.Tokens
use sync_vault.Auth.Tokens.{validate_alike}
use sync_vault.Auth.Spent.{
  IsLawful, Spent, Fades-Spent, IsSpent, Call, Avoids, calls, renew-IsSpent, calls-IsSpent,
}

module _ (J : Jwt) (R : Redis) (L : IsLawful R) (config : JwtConfig) where
  read_refused :
      (c : JwtClaims) (s : R.State) (r : Result Value)
      → ((v : Value) → r ≡ ok v → refusal J R config c (unmarshal v) ≢ none)
      → refusal J R config c (elim r [ err e ↦ err e | ok v ↦ unmarshal v ]) ≢ none
  read_refused c s (err e) f got = cc got
  read_refused c s (ok v) f got = f v refl got

  rotate_refused :
      (now : ℕ) (aid rid : Result String) (c : JwtClaims) (s : R.State) (o : Option String)
      (p : TokenPair J.Token)
      → o ≢ none
      → (rotate J R config now aid rid c s o).1 ≢ ok p
  rotate_refused now aid rid c s none p h got = h refl
  rotate_refused now aid rid c s (some e) p h got = cc got

  -- No refresh where the value that Redis holds is refused.
  pub held_refused :
      (now : ℕ) (aid rid : Result String) (c : JwtClaims) (s : R.State) (p : TokenPair J.Token)
      → ((v : Value)
          → R.view s (refresh_token_key c.token_id) ≡ some v
          → refusal J R config c (unmarshal v) ≢ none)
      → (rotate_valid J R config now aid rid s (ok c)).1 ≢ ok p
  held_refused now aid rid c s p f = rotate_refused now aid rid c _ _ p (
      read_refused c s (R.get s (refresh_token_key c.token_id)).1
        (λ v h. f v (L.get_read s (refresh_token_key c.token_id) v h)))

  value_refused :
      (c : JwtClaims) (v : Value) → Spent (some v) → refusal J R config c (unmarshal v) ≢ none
  value_refused c (other e) h got = cc got
  value_refused c (marshal d) h got = ground (arith, h, got)

  spent_refused :
      (now : ℕ) (aid rid : Result String) (c : JwtClaims) (s : R.State) (p : TokenPair J.Token)
      → IsSpent R L c.token_id s
      → (rotate_valid J R config now aid rid s (ok c)).1 ≢ ok p
  spent_refused now aid rid c s p h =
      held_refused now aid rid c s p (λ v held. value_refused c v (subst Spent held h))

  result_refused :
      (now : ℕ) (aid rid : Result String) (c : JwtClaims) (s : R.State) (r : Result JwtClaims)
      (p : TokenPair J.Token)
      → ((d : JwtClaims) → r ≡ ok d → d ≡ c)
      → IsSpent R L c.token_id s
      → (rotate_valid J R config now aid rid s r).1 ≢ ok p
  result_refused now aid rid c s (err e) p f h got = cc got
  result_refused now aid rid c s (ok d) p f h got =
      spent_refused now aid rid d s p (subst (λ e. IsSpent R L e.token_id s) (sym (f d refl)) h) got

  mark_revoked-IsSpent_done :
      (now : ℕ) (id : String) (s : R.State) (r : Result RefreshTokenData)
      → (mark_revoked R now id s r).1 ≡ ok tt
      → IsSpent R L id (mark_revoked R now id s r).0
  mark_revoked-IsSpent_done now id s (err e) h = absurd (cc h)
  mark_revoked-IsSpent_done now id s (ok d) h =
      Fades-Spent _ _ (L.set_ok s (refresh_token_key id) _ _ h) refl

  revoke-IsSpent_done :
      (now : ℕ) (id : String) (s : R.State)
      → (revoke_refresh_token R now id s).1 ≡ ok tt
      → IsSpent R L id (revoke_refresh_token R now id s).0
  unfolding revoke_refresh_token
  revoke-IsSpent_done now id s h = mark_revoked-IsSpent_done now id _ (get_refresh_token R id s).1 h

  renew-IsSpent_done :
      (now : ℕ) (aid rid : Result String) (c : JwtClaims) (s : R.State) (o : Result {0} Unit)
      (p : TokenPair J.Token)
      → (renew J R config now aid rid c s o).1 ≡ ok p
      → rid ≢ ok c.token_id
      → (o ≡ ok tt → IsSpent R L c.token_id s)
      → IsSpent R L c.token_id (renew J R config now aid rid c s o).0
  renew-IsSpent_done now aid rid c s (err e) p h differ done = absurd (cc h)
  renew-IsSpent_done now aid rid c s (ok tt) p h differ done =
      renew-IsSpent J R L config c.token_id now aid rid c s (ok tt) differ (done refl)

  rotate-IsSpent_done :
      (now : ℕ) (aid rid : Result String) (c : JwtClaims) (s : R.State) (o : Option String)
      (p : TokenPair J.Token)
      → (rotate J R config now aid rid c s o).1 ≡ ok p
      → rid ≢ ok c.token_id
      → IsSpent R L c.token_id (rotate J R config now aid rid c s o).0
  rotate-IsSpent_done now aid rid c s (some e) p h differ = absurd (cc h)
  rotate-IsSpent_done now aid rid c s none p h differ =
      renew-IsSpent_done now aid rid c _ (revoke_refresh_token R now c.token_id s).1 p h differ
        (revoke-IsSpent_done now c.token_id s)

  refresh_tokens-IsSpent :
      (now : ℕ) (aid rid : Result String) (c : JwtClaims) (t : J.Token) (s : R.State)
      (p : TokenPair J.Token)
      → validate_token J config now t refresh_token_type ≡ ok c
      → (refresh_tokens J R config now aid rid t s).1 ≡ ok p
      → rid ≢ ok c.token_id
      → IsSpent R L c.token_id (refresh_tokens J R config now aid rid t s).0
  unfolding refresh_tokens
  refresh_tokens-IsSpent now aid rid c t s p v h differ =
      subst
        (λ r.
          (rotate_valid J R config now aid rid s r).1 ≡ ok p
          → IsSpent R L c.token_id (rotate_valid J R config now aid rid s r).0)
        (sym v) (λ g. rotate-IsSpent_done now aid rid c _ _ p g differ) h

  refused_after :
      (K : Tokens.IsLawful J) (now later : ℕ) (aid rid : Result String) (t : J.Token)
      (c : JwtClaims) (s : R.State) (p : TokenPair J.Token)
      → validate_token J config now t refresh_token_type ≡ ok c
      → IsSpent R L c.token_id s
      → (refresh_tokens J R config later aid rid t s).1 ≢ ok p
  unfolding refresh_tokens
  refused_after K now later aid rid t c s p v h =
      result_refused later aid rid c s _ p
        (λ d q. sym (validate_alike J K config t now later refresh_token_type c d v q)) h

  -- Over a library and a Redis that keep their contracts: a refresh token that `RefreshTokens`
  -- exchanged once is refused ever after, whatever calls come between, where no new token gets its
  -- identifier.
  pub refresh_tokens_once :
      (K : Tokens.IsLawful J) (now later : ℕ) (aid rid aid' rid' : Result String) (t : J.Token)
      (c : JwtClaims) (s : R.State) (p p' : TokenPair J.Token) (cs : List (Call J.Token))
      → validate_token J config now t refresh_token_type ≡ ok c
      → (refresh_tokens J R config now aid rid t s).1 ≡ ok p
      → rid ≢ ok c.token_id
      → All (Avoids c.token_id) cs
      → (refresh_tokens J R config later aid' rid' t
          (calls J R config cs (refresh_tokens J R config now aid rid t s).0)).1
        ≢ ok p'
  refresh_tokens_once K now later aid rid aid' rid' t c s p p' cs v h differ apart =
      refused_after K now later aid' rid' t c _ p' v (
        calls-IsSpent J R L config c.token_id cs _ apart
          (refresh_tokens-IsSpent now aid rid c t s p v h differ))

  -- Over a library and a Redis that keep their contracts: once `RevokeRefreshToken` has revoked a
  -- token, `RefreshTokens` refuses it ever after, whatever calls come between, where no new token
  -- gets its identifier.
  pub revoke_refresh_token_lasts :
      (K : Tokens.IsLawful J) (now seen later : ℕ) (aid rid : Result String) (t : J.Token)
      (c : JwtClaims) (s : R.State) (p : TokenPair J.Token) (cs : List (Call J.Token))
      → validate_token J config seen t refresh_token_type ≡ ok c
      → (revoke_refresh_token R now c.token_id s).1 ≡ ok tt
      → All (Avoids c.token_id) cs
      → (refresh_tokens J R config later aid rid t
          (calls J R config cs (revoke_refresh_token R now c.token_id s).0)).1
        ≢ ok p
  revoke_refresh_token_lasts K now seen later aid rid t c s p cs v h apart =
      refused_after K seen later aid rid t c _ p v
        (calls-IsSpent J R L config c.token_id cs _ apart (revoke-IsSpent_done now c.token_id s h))
