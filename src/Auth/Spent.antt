-- ===== src/Auth/Spent.antt =====
-- Refresh tokens whose data in Redis is gone or revoked, and that no call brings them back. A key of Redis may expire at any moment, a command may fail,
-- and the answer of a write may be lost. The calls come one after the other.
use sync_vault.Base.{
  ℕ, ◌≡◌, ◌≢◌, ◌⊎◌, refl, inl, inr, ap, sym, subst, String, true, List, [], ◌∷◌, Option, none, some,
  Result, ok, err, arith, All, Result-cases, if_elim, string_eq, ◌==◌, ℤ,
}
use sync_vault.Base.Text.{append_inj}
use sync_vault.Auth.{
  JwtConfig, Jwt, Redis, Value, marshal, other, RefreshTokenData, JwtClaims, access_claims,
  refresh_claims, refresh_token_key,
}
use sync_vault.Auth.Service.{
  get_refresh_token_by_key, get_refresh_token, revoke_refresh_token, mark_revoked, delete_own,
  delete_tokens, delete_listed, logout, generate_refresh, generate_token_pair, renew, refusal,
  rotate, rotate_valid, refresh_tokens,
}

-- What a key holds stays as it is, or is gone.
abbrev pub Fades : Option Value → Option Value → Type 0
Fades before after = (after ≡ before) ⊎ (after ≡ none)

-- The documented effect of the commands on each key.
pub record IsLawful (R : Redis) : Type 0 where
  pub get_fades : (s : R.State) (k j : String) → Fades (R.view s j) (R.view (R.get s k).0 j)
  pub get_read : (s : R.State) (k : String) (v : Value) → (R.get s k).1 ≡ ok v → R.view s k ≡ some v
  pub set_others :
      (s : R.State) (k j : String) (v : Value) (t : ℤ)
      → j ≢ k
      → Fades (R.view s j) (R.view (R.set s k v t).0 j)
  pub set_own :
      (s : R.State) (k : String) (v : Value) (t : ℤ)
      → Fades (R.view s k) (R.view (R.set s k v t).0 k) ⊎ (R.view (R.set s k v t).0 k ≡ some v)
  pub set_ok :
      (s : R.State) (k : String) (v : Value) (t : ℤ)
      → (R.set s k v t).1 ≡ ok tt
      → Fades (some v) (R.view (R.set s k v t).0 k)
  pub del_fades : (s : R.State) (k j : String) → Fades (R.view s j) (R.view (R.del s k) j)
  pub keys_fades : (s : R.State) (p j : String) → Fades (R.view s j) (R.view (R.keys s p).0 j)

-- What a key holds admits no refresh.
abbrev pub Spent : Option Value → Type 0
Spent none = Unit
Spent (some (other e)) = Unit
Spent (some (marshal d)) = d.is_revoked ≡ true

pub Fades-Spent : (o o' : Option Value) → Fades o o' → Spent o → Spent o'
Fades-Spent o none h spent = tt
Fades-Spent none (some v) h spent = ground (arith, h)
Fades-Spent (some w) (some v) (inl e) spent = subst Spent (sym e) spent
Fades-Spent (some w) (some v) (inr e) spent = absurd (cc e)

key_inj : (i j : String) → refresh_token_key i ≡ refresh_token_key j → i ≡ j
key_inj i j h = (append_inj "refresh_token:" i "refresh_token:" j h refl).1

module _ (R : Redis) (L : IsLawful R) (id : String) where
  abbrev pub IsSpent : R.State → Type 0
  IsSpent s = Spent (R.view s (refresh_token_key id))

  get-IsSpent : (s : R.State) (k : String) → IsSpent s → IsSpent (R.get s k).0
  get-IsSpent s k h = Fades-Spent _ _ (L.get_fades s k (refresh_token_key id)) h

  set_key-IsSpent :
      (s : R.State) (v : Value) (t : ℤ)
      → Spent (some v)
      → IsSpent s
      → IsSpent (R.set s (refresh_token_key id) v t).0
  set_key-IsSpent s v t good h = elim (L.set_own s (refresh_token_key id) v t) [
    | inl fades ↦ Fades-Spent _ _ fades h
    | inr put ↦ subst Spent (sym put) good
  ]

  set_other-IsSpent :
      (s : R.State) (j : String) (v : Value) (t : ℤ)
      → j ≢ id
      → IsSpent s
      → IsSpent (R.set s (refresh_token_key j) v t).0
  set_other-IsSpent s j v t differ h =
      Fades-Spent _ _
        (L.set_others s (refresh_token_key j) (refresh_token_key id) v t
          (λ e. differ (sym (key_inj id j e))))
        h

  set_good-IsSpent :
      (s : R.State) (j : String) (v : Value) (t : ℤ)
      → Spent (some v)
      → IsSpent s
      → IsSpent (R.set s (refresh_token_key j) v t).0
  set_good-IsSpent s j v t good h = elim (string_eq.dec j id) [
    | no differ ↦ set_other-IsSpent s j v t differ h
    | yes same ↦
        subst (λ i. IsSpent (R.set s (refresh_token_key i) v t).0) (sym same)
          (set_key-IsSpent s v t good h)
  ]

  mark_revoked-IsSpent :
      (now : ℕ) (j : String) (s : R.State) (r : Result RefreshTokenData)
      → IsSpent s
      → IsSpent (mark_revoked R now j s r).0
  mark_revoked-IsSpent now j s (err e) h = h
  mark_revoked-IsSpent now j s (ok d) h = set_good-IsSpent s j _ _ refl h

  revoke-IsSpent :
      (now : ℕ) (j : String) (s : R.State) → IsSpent s → IsSpent (revoke_refresh_token R now j s).0
  unfolding revoke_refresh_token
  revoke-IsSpent now j s h =
      mark_revoked-IsSpent now j _ (get_refresh_token R j s).1 (get-IsSpent s _ h)

  delete_own-IsSpent :
      (u k : String) (s : R.State) (r : Result RefreshTokenData)
      → IsSpent s
      → IsSpent (delete_own R u k s r)
  delete_own-IsSpent u k s (err e) h = h
  delete_own-IsSpent u k s (ok d) h =
      let gone = Fades-Spent _ _ (L.del_fades s k (refresh_token_key id)) h in
      if_elim IsSpent (d.user_id == u) gone h

  delete_tokens-IsSpent :
      (u : String) (ks : List String) (s : R.State) → IsSpent s → IsSpent (delete_tokens R u ks s)
  delete_tokens-IsSpent u [] s h = h
  delete_tokens-IsSpent u (k ∷ ks) s h =
      delete_tokens-IsSpent u ks _
        (delete_own-IsSpent u k _ (get_refresh_token_by_key R k s).1 (get-IsSpent s k h))

  delete_listed-IsSpent :
      (u : String) (s : R.State) (r : Result (List String))
      → IsSpent s
      → IsSpent (delete_listed R u s r).0
  delete_listed-IsSpent u s (err e) h = h
  delete_listed-IsSpent u s (ok ks) h = delete_tokens-IsSpent u ks s h

  logout-IsSpent : (u : String) (s : R.State) → IsSpent s → IsSpent (logout R u s).0
  unfolding logout
  logout-IsSpent u s h =
      let p = refresh_token_key "*" in
      delete_listed-IsSpent u _ (R.keys s p).1
        (Fades-Spent _ _ (L.keys_fades s p (refresh_token_key id)) h)

-- The calls on the service, with what each is given.
pub data Call (Token : Type 0) : Type 0 where
  generate : ℕ → Result String → Result String → String → String → String → Call Token
  refresh : ℕ → Result String → Result String → Token → Call Token
  revoke : ℕ → String → Call Token
  leave : String → Call Token

-- A new token gets another identifier than a given one.
abbrev pub Avoids : {Token : Type 0} → String → Call Token → Type 0
Avoids id (generate now aid rid u e r) = rid ≢ ok id
Avoids id (refresh now aid rid t) = rid ≢ ok id
Avoids id (revoke now j) = Unit
Avoids id (leave u) = Unit

module _ (J : Jwt) (R : Redis) (config : JwtConfig) where
  abbrev pub call : Call J.Token → R.State → R.State
  call (generate now aid rid u e r) s = (generate_token_pair J R config now aid rid u e r s).0
  call (refresh now aid rid t) s = (refresh_tokens J R config now aid rid t s).0
  call (revoke now j) s = (revoke_refresh_token R now j s).0
  call (leave u) s = (logout R u s).0

  abbrev pub calls : List (Call J.Token) → R.State → R.State
  calls [] s = s
  calls (c ∷ cs) s = calls cs (call c s)

module _ (J : Jwt) (R : Redis) (L : IsLawful R) (config : JwtConfig) (id : String) where
  generate_refresh-IsSpent :
      (now : ℕ) (a : J.Token) (rid : Result String) (u e r : String) (s : R.State)
      → rid ≢ ok id
      → IsSpent R L id s
      → IsSpent R L id (generate_refresh J R config now a rid u e r s).0
  generate_refresh-IsSpent now a (err m) u e r s differ h = h
  generate_refresh-IsSpent now a (ok i) u e r s differ h =
      elim (Result-cases (J.sign (refresh_claims J config now u e r i) config.refresh_secret)) [
        | inr (m, q) ↦ rw (q, generate_refresh) h
        | inl (f, q) ↦
            rw (q, generate_refresh) (set_other-IsSpent R L id s i _ _ (λ p. differ (ap ok p)) h)
      ]

  generate-IsSpent :
      (now : ℕ) (aid rid : Result String) (u e r : String) (s : R.State)
      → rid ≢ ok id
      → IsSpent R L id s
      → IsSpent R L id (generate_token_pair J R config now aid rid u e r s).0
  unfolding generate_token_pair
  generate-IsSpent now (err m) rid u e r s differ h = h
  generate-IsSpent now (ok aid) rid u e r s differ h =
      elim (Result-cases (J.sign (access_claims J config now u e r aid) config.access_secret)) [
        | inr (m, q) ↦ rw (q, generate_token_pair) h
        | inl (a, q) ↦
            rw (q, generate_token_pair) (generate_refresh-IsSpent now a rid u e r s differ h)
      ]

  pub renew-IsSpent :
      (now : ℕ) (aid rid : Result String) (c : JwtClaims) (s : R.State) (o : Result {0} Unit)
      → rid ≢ ok id
      → IsSpent R L id s
      → IsSpent R L id (renew J R config now aid rid c s o).0
  renew-IsSpent now aid rid c s (err e) differ h = h
  renew-IsSpent now aid rid c s (ok u) differ h =
      generate-IsSpent now aid rid c.user_id c.email c.role s differ h

  rotate-IsSpent :
      (now : ℕ) (aid rid : Result String) (c : JwtClaims) (s : R.State) (o : Option String)
      → rid ≢ ok id
      → IsSpent R L id s
      → IsSpent R L id (rotate J R config now aid rid c s o).0
  rotate-IsSpent now aid rid c s (some e) differ h = h
  rotate-IsSpent now aid rid c s none differ h =
      renew-IsSpent now aid rid c _ (revoke_refresh_token R now c.token_id s).1 differ
        (revoke-IsSpent R L id now c.token_id s h)

  rotate_valid-IsSpent :
      (now : ℕ) (aid rid : Result String) (s : R.State) (o : Result JwtClaims)
      → rid ≢ ok id
      → IsSpent R L id s
      → IsSpent R L id (rotate_valid J R config now aid rid s o).0
  rotate_valid-IsSpent now aid rid s (err e) differ h = h
  rotate_valid-IsSpent now aid rid s (ok c) differ h =
      rotate-IsSpent now aid rid c _ (refusal J R config c (get_refresh_token R c.token_id s).1)
        differ (get-IsSpent R L id s _ h)

  call-IsSpent :
      (c : Call J.Token) (s : R.State)
      → Avoids id c
      → IsSpent R L id s
      → IsSpent R L id (call J R config c s)
  unfolding refresh_tokens
  call-IsSpent (generate now aid rid u e r) s differ h =
      generate-IsSpent now aid rid u e r s differ h
  call-IsSpent (refresh now aid rid t) s differ h = rotate_valid-IsSpent now aid rid s _ differ h
  call-IsSpent (revoke now j) s differ h = revoke-IsSpent R L id now j s h
  call-IsSpent (leave u) s differ h = logout-IsSpent R L id u s h

  pub calls-IsSpent :
      (cs : List (Call J.Token)) (s : R.State)
      → All (Avoids id) cs
      → IsSpent R L id s
      → IsSpent R L id (calls J R config cs s)
  calls-IsSpent [] s f h = h
  calls-IsSpent (c ∷ cs) s f h = calls-IsSpent cs _ f.1 (call-IsSpent c s f.0 h)
