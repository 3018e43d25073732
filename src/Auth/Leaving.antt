-- ===== src/Auth/Leaving.antt =====
-- `Logout`, over a Redis that answers every command.
use sync_vault.Base.{
  ℕ, ◌≡◌, ◌≢◌, ◌⊎◌, refl, inl, inr, sym, subst, String, true, List, [], ◌∷◌, Option, none, some,
  Result, ok, err, arith, contains, if_elim, Bool-cases, string_eq, ◌==◌, eq_of_==,
}
use sync_vault.Auth.{
  JwtConfig, Jwt, Redis, Value, marshal, other, unmarshal, RefreshTokenData, JwtClaims, TokenPair,
  refresh_token_key, refresh_token_type, validate_token,
}
use sync_vault.Auth.Service.{
  get_refresh_token_by_key, delete_own, delete_tokens, delete_listed, logout, refusal, rotate_valid,
  refresh_tokens,
}
use sync_vault.Auth.Spent.{IsLawful, Fades}
use sync_vault.Auth.Rotation.{held_refused}

-- A key that is held is read and listed, and a deletion is done.
pub record IsReliable (R : Redis) : Type 0 where
  pub get_held : (s : R.State) (k : String) (v : Value) → R.view s k ≡ some v → (R.get s k).1 ≡ ok v
  pub del_gone : (s : R.State) (k : String) → R.view (R.del s k) k ≡ none
  pub keys_held :
      (s : R.State)
      → (ks : List String) × ((R.keys s (refresh_token_key "*")).1 ≡ ok ks)
        × ((id : String)
            → (contains (refresh_token_key id) ks ≡ true)
              ⊎ (R.view (R.keys s (refresh_token_key "*")).0 (refresh_token_key id) ≡ none))

-- What a key holds is not the data of a given user.
abbrev pub Foreign : String → Option Value → Type 0
Foreign u none = Unit
Foreign u (some (other e)) = Unit
Foreign u (some (marshal d)) = d.user_id ≢ u

Fades-Foreign : (u : String) (o o' : Option Value) → Fades o o' → Foreign u o → Foreign u o'
Fades-Foreign u o none h f = tt
Fades-Foreign u o (some v) (inl e) f = subst (Foreign u) (sym e) f
Fades-Foreign u o (some v) (inr e) f = absurd (cc e)

module _ (R : Redis) (L : IsLawful R) (A : IsReliable R) (u : String) where
  delete_own-Foreign :
      (k j : String) (s : R.State) (r : Result RefreshTokenData)
      → Foreign u (R.view s j)
      → Foreign u (R.view (delete_own R u k s r) j)
  delete_own-Foreign k j s (err e) h = h
  delete_own-Foreign k j s (ok d) h =
      if_elim (λ t. Foreign u (R.view t j)) (d.user_id == u)
        (Fades-Foreign u _ _ (L.del_fades s k j) h) h

  -- A round of the loop leaves nothing of the user under its key.
  round-Foreign :
      (k : String) (s : R.State) (o : Option Value) (r : Result Value)
      → ((v : Value) → r ≡ ok v → o ≡ some v)
      → ((v : Value) → o ≡ some v → r ≡ ok v)
      → Fades o (R.view s k)
      → Foreign u (R.view (delete_own R u k s (elim r [ err e ↦ err e | ok v ↦ unmarshal v ])) k)
  round-Foreign k s none (err e) read held f = Fades-Foreign u none _ f tt
  round-Foreign k s (some v) (err e) read held f = absurd (cc (held v refl))
  round-Foreign k s o (ok (other e)) read held f =
      Fades-Foreign u o _ f (subst (Foreign u) (sym (read (other e) refl)) tt)
  round-Foreign k s o (ok (marshal d)) read held f = elim (Bool-cases (d.user_id == u)) [
    | inl q ↦ rw (q, A.del_gone s k) tt
    | inr q ↦
        let differ : d.user_id ≢ u = λ e. ground (arith, q, e) in
        rw (q) (Fades-Foreign u o _ f (subst (Foreign u) (sym (read (marshal d) refl)) differ))
  ]

  delete_tokens-Foreign :
      (ks : List String) (j : String) (s : R.State)
      → Foreign u (R.view s j)
      → Foreign u (R.view (delete_tokens R u ks s) j)
  delete_tokens-Foreign [] j s h = h
  delete_tokens-Foreign (k ∷ ks) j s h = delete_tokens-Foreign ks j _ (
      delete_own-Foreign k j _ (get_refresh_token_by_key R k s).1
        (Fades-Foreign u _ _ (L.get_fades s k j) h))

  delete_tokens-contains :
      (ks : List String) (j : String) (s : R.State)
      → contains j ks ≡ true
      → Foreign u (R.view (delete_tokens R u ks s) j)
  delete_tokens-contains [] j s h = absurd (cc h)
  delete_tokens-contains (k ∷ ks) j s h = elim (Bool-cases (j == k)) [
    | inr q ↦ delete_tokens-contains ks j _ (ground (arith, h, q))
    | inl q ↦ delete_tokens-Foreign ks j _ (
        subst
          (λ i.
            Foreign u
              (R.view (delete_own R u k (R.get s k).0 (get_refresh_token_by_key R k s).1) i))
          (sym (eq_of_== j k q))
          (round-Foreign k _ (R.view s k) (R.get s k).1 (L.get_read s k) (A.get_held s k)
            (L.get_fades s k k)))
  ]

  logout-Foreign :
      (id : String) (s : R.State) → Foreign u (R.view (logout R u s).0 (refresh_token_key id))
  unfolding logout
  logout-Foreign id s =
      let (ks, listed, all) = A.keys_held s in
      let s' = (R.keys s (refresh_token_key "*")).0 in
      let loop : Foreign u (R.view (delete_tokens R u ks s') (refresh_token_key id)) =
        elim (all id) [
          | inl h ↦ delete_tokens-contains ks (refresh_token_key id) s' h
          | inr h ↦
              delete_tokens-Foreign ks (refresh_token_key id) s' (subst (Foreign u) (sym h) tt)
        ] in
      subst (λ r. Foreign u (R.view (delete_listed R u s' r).0 (refresh_token_key id))) (sym listed)
        loop

module _ (J : Jwt) (R : Redis) (L : IsLawful R) (A : IsReliable R) (config : JwtConfig) where
  value_refused :
      (c : JwtClaims) (v : Value)
      → Foreign c.user_id (some v)
      → refusal J R config c (unmarshal v) ≢ none
  value_refused c (other e) h got = cc got
  value_refused c (marshal d) h got = ground (arith, h, got, eq_of_== d.user_id c.user_id)

  -- Over a Redis that keeps its contract and answers every command: after `Logout` of a user no
  -- refresh token of that user can be exchanged.
  pub logout-refresh_tokens :
      (now : ℕ) (aid rid : Result String) (t : J.Token) (c : JwtClaims) (s : R.State)
      (p : TokenPair J.Token)
      → validate_token J config now t refresh_token_type ≡ ok c
      → (refresh_tokens J R config now aid rid t (logout R c.user_id s).0).1 ≢ ok p
  unfolding refresh_tokens
  logout-refresh_tokens now aid rid t c s p h =
      let s' = (logout R c.user_id s).0 in
      subst (λ r. (rotate_valid J R config now aid rid s' r).1 ≢ ok p) (sym h)
        (held_refused J R L config now aid rid c s' p (λ v held.
          value_refused c v
            (subst (Foreign c.user_id) held (logout-Foreign R L A c.user_id c.token_id s))))
