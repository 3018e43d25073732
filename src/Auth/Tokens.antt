-- ===== src/Auth/Tokens.antt =====
-- What `ValidateToken` makes of the tokens of `GenerateTokenPair`, over a library of tokens that
-- keeps its contract.
use sync_vault.Base.{
  ℕ, ◌+◌, ◌≤◌, ◌<◌, ◌≡◌, ◌⊎◌, refl, inl, inr, String, Bool, true, some, Result, ok, err, arith,
  string_eq, Result-cases, Option-cases, ==-refl,
}
use sync_vault.Auth.{
  JwtConfig, Jwt, Redis, Parsed, TokenPair, JwtClaims, as_read, access_claims, refresh_claims,
  access_token_type, refresh_token_type, secret_of, key_of, check_claims, validate_token,
}
use sync_vault.Auth.Service.{store_refresh_token, store_pair, generate_token_pair}

abbrev pub accepted : JwtClaims → Result Parsed
accepted c = ok (record { claims = some (as_read c); valid = true })

-- The documented contract: a signed token is read with its key while it is in time, not after, and
-- no key reads other claims from it. A date is cut to a whole second.
pub record IsLawful (J : Jwt) : Type 0 where
  pub numeric_date_le : (t : ℕ) → J.numeric_date t ≤ t
  pub parse_signed :
      (c : JwtClaims) (secret : String) (t : J.Token) (now : ℕ) (k : Bool → Result String)
      → J.sign c secret ≡ ok t
      → k true ≡ ok secret
      → c.not_before ≤ now
      → now < c.expires_at
      → J.parse_with_claims now t k ≡ accepted c
  pub parse_expired :
      (c : JwtClaims) (secret : String) (t : J.Token) (now : ℕ) (k : Bool → Result String)
      → J.sign c secret ≡ ok t
      → c.expires_at ≤ now
      → (e : String) × (J.parse_with_claims now t k ≡ err e)
  pub parse_outcome :
      (c : JwtClaims) (secret : String) (t : J.Token) (now : ℕ) (k : Bool → Result String)
      → J.sign c secret ≡ ok t
      → (J.parse_with_claims now t k ≡ accepted c)
        ⊎ ((e : String) × (J.parse_with_claims now t k ≡ err e))
  -- The claims stand in the token, whenever it is read.
  pub parse_alike :
      (t : J.Token) (now later : ℕ) (k : Bool → Result String) (p q : Parsed)
      → J.parse_with_claims now t k ≡ ok p
      → J.parse_with_claims later t k ≡ ok q
      → p.claims ≡ q.claims

module _ (J : Jwt) (R : Redis) (config : JwtConfig) where
  -- The tokens of a pair are signed for the given user with the given identifiers.
  pub record IsIssued (now : ℕ) (access_id refresh_id user_id email role : String)
      (p : TokenPair J.Token) : Type 0 where
    pub access_signed :
        J.sign (access_claims J config now user_id email role access_id) config.access_secret
        ≡ ok p.access_token
    pub refresh_signed :
        J.sign (refresh_claims J config now user_id email role refresh_id) config.refresh_secret
        ≡ ok p.refresh_token

  store_pair_ok :
      (now : ℕ) (rid u : String) (a f : J.Token) (s : R.State) (p : TokenPair J.Token)
      → (store_pair J R config now u rid a f s).1 ≡ ok p
      → (p.access_token ≡ a) × (p.refresh_token ≡ f)
  store_pair_ok now rid u a f s p h =
      elim (Result-cases
        (store_refresh_token J R config now rid u (now + config.refresh_ttl) s).1) [
          | inl (_, e) ↦ ground (arith, h)
          | inr (_, e) ↦ ground (arith, h)
        ]

  pub generate_token_pair-IsIssued :
      (now : ℕ) (aid rid u e r : String) (s : R.State) (p : TokenPair J.Token)
      → (generate_token_pair J R config now (ok aid) (ok rid) u e r s).1 ≡ ok p
      → IsIssued now aid rid u e r p
  unfolding generate_token_pair
  generate_token_pair-IsIssued now aid rid u e r s p h =
      elim (Result-cases (J.sign (access_claims J config now u e r aid) config.access_secret)) [
        | inr (m, q) ↦ absurd (ground (arith, h, q))
        | inl (a, q) ↦
            elim (Result-cases
              (J.sign (refresh_claims J config now u e r rid) config.refresh_secret)) [
                | inr (m, q') ↦ absurd (ground (arith, h, q, q'))
                | inl (f, q') ↦ ground (arith, h, q, q', store_pair_ok now rid u a f s p)
              ]
      ]

module _ (J : Jwt) (L : IsLawful J) (config : JwtConfig) where
  validate_signed :
      (c : JwtClaims) (secret : String) (t : J.Token) (now : ℕ)
      → J.sign c secret ≡ ok t
      → secret_of J config c.token_type ≡ ok secret
      → c.not_before ≤ now
      → now < c.expires_at
      → validate_token J config now t c.token_type ≡ ok (as_read c)
  unfolding validate_token
  validate_signed c secret t now h q early late =
      let read = L.parse_signed c secret t now (key_of J config secret) h refl early late in
      ground (arith, q, read, ==-refl c.token_type)

  validate_ok :
      (c : JwtClaims) (secret : String) (t : J.Token) (now : ℕ) (token_type : String)
      (d : JwtClaims)
      → J.sign c secret ≡ ok t
      → validate_token J config now t token_type ≡ ok d
      → (c.token_type ≡ token_type) × (now < c.expires_at) × (d ≡ as_read c)
  unfolding validate_token
  validate_ok c secret t now token_type d h got =
      elim (Result-cases (secret_of J config token_type)) [
        | inr (e, q) ↦ absurd (ground (arith, got, q))
        | inl (k, q) ↦
            let late = L.parse_expired c secret t now (key_of J config k) h in
            elim (L.parse_outcome c secret t now (key_of J config k) h) [
              | inl p ↦ ground (arith, got, q, p, late)
              | inr (e, p) ↦ absurd (ground (arith, got, q, p))
            ]
      ]

  check_claims_ok :
      (token_type : String) (p : Parsed) (c : JwtClaims)
      → check_claims J config token_type (ok p) ≡ ok c
      → p.claims ≡ some c
  check_claims_ok token_type p c h = elim (Option-cases p.claims) [
    | inl q ↦ absurd (ground (arith, h, q))
    | inr (d, q) ↦ ground (arith, h, q)
  ]

  -- A token is read with the same claims whenever it is accepted.
  pub validate_alike :
      (t : J.Token) (now later : ℕ) (token_type : String) (c d : JwtClaims)
      → validate_token J config now t token_type ≡ ok c
      → validate_token J config later t token_type ≡ ok d
      → c ≡ d
  unfolding validate_token
  validate_alike t now later token_type c d h h' =
      elim (Result-cases (secret_of J config token_type)) [
        | inr (e, q) ↦ absurd (ground (arith, h, q))
        | inl (k, q) ↦ elim (Result-cases (J.parse_with_claims now t (key_of J config k))) [
          | inr (e, g) ↦ absurd (ground (arith, h, q, g))
          | inl (p, g) ↦ elim (Result-cases (J.parse_with_claims later t (key_of J config k))) [
            | inr (e, g') ↦ absurd (ground (arith, h', q, g'))
            | inl (p', g') ↦
                let same = L.parse_alike t now later (key_of J config k) p p' g g' in
                let cs = check_claims_ok token_type p c (ground (arith, h, q, g)) in
                let ds = check_claims_ok token_type p' d (ground (arith, h', q, g')) in
                cc (same, cs, ds)
          ]
        ]
      ]

  module _ (R : Redis) where
    -- Over a library that keeps its contract: the access token of a pair that `GenerateTokenPair`
    -- returns is accepted from its issue until the end of the access lifetime, and the refresh token
    -- until the end of the refresh lifetime, each as a token of its type, and read back with the
    -- claims it was signed for, but for the registered subject and identifier.
    pub validate_token-generate_token_pair :
        (now : ℕ) (aid rid u e r : String) (s : R.State) (p : TokenPair J.Token) (soon later : ℕ)
        → (generate_token_pair J R config now (ok aid) (ok rid) u e r s).1 ≡ ok p
        → now ≤ soon
        → soon < J.numeric_date (now + config.access_ttl)
        → now ≤ later
        → later < J.numeric_date (now + config.refresh_ttl)
        → (validate_token J config soon p.access_token access_token_type
            ≡ ok (as_read (access_claims J config now u e r aid)))
          × (validate_token J config later p.refresh_token refresh_token_type
              ≡ ok (as_read (refresh_claims J config now u e r rid)))
    unfolding string_eq
    validate_token-generate_token_pair now aid rid u e r s p soon later h early late early' late' =
        let i = generate_token_pair-IsIssued J R config now aid rid u e r s p h in
        let began : J.numeric_date now ≤ soon = omega (arith, L.numeric_date_le now) in
        let began' : J.numeric_date now ≤ later = omega (arith, L.numeric_date_le now) in
        (
          validate_signed (access_claims J config now u e r aid) config.access_secret p.access_token
              soon i.access_signed refl began late,
          validate_signed (refresh_claims J config now u e r rid) config.refresh_secret
              p.refresh_token later i.refresh_signed refl began' late',
        )

    -- Over a library that keeps its contract: a token of a pair that `GenerateTokenPair` returns is
    -- accepted at no type but its own, at no time from its expiry on, and with no claims but those
    -- it was signed for, also where the two secrets are the same.
    pub generate_token_pair-validate_token :
        (now : ℕ) (aid rid u e r : String) (s : R.State) (p : TokenPair J.Token) (later : ℕ)
        (token_type : String) (d : JwtClaims)
        → (generate_token_pair J R config now (ok aid) (ok rid) u e r s).1 ≡ ok p
        → ((validate_token J config later p.access_token token_type ≡ ok d)
            → (access_token_type ≡ token_type)
              × (later < J.numeric_date (now + config.access_ttl))
              × (d ≡ as_read (access_claims J config now u e r aid)))
          × ((validate_token J config later p.refresh_token token_type ≡ ok d)
              → (refresh_token_type ≡ token_type)
                × (later < J.numeric_date (now + config.refresh_ttl))
                × (d ≡ as_read (refresh_claims J config now u e r rid)))
    generate_token_pair-validate_token now aid rid u e r s p later token_type d h =
        let i = generate_token_pair-IsIssued J R config now aid rid u e r s p h in
        (
          validate_ok (access_claims J config now u e r aid) config.access_secret p.access_token
              later token_type d i.access_signed,
          validate_ok (refresh_claims J config now u e r rid) config.refresh_secret p.refresh_token
              later token_type d i.refresh_signed,
        )
