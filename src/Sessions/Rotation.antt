-- ===== src/Sessions/Rotation.antt =====
-- Rotation of the token of a session.
use sync_vault.Base.{
  ℕ, ◌≡◌, ◌≢◌, ◌⊎◌, refl, sym, subst, inl, inr, String, true, false, Option, none, some, Result, ok,
  err, arith, Bool-cases, Result-cases, ltb,
}
use sync_vault.Sessions.{
  Session, Value, marshal, other, Redis, Hashing, SessionStore, session_key, check_session,
  validate_found, validate_session, rotated, write_rotated, rotate_checked, rotate_token,
}

-- The documented contract: a key holds the value that was written, or none once it expires.
pub record IsLawful (R : Redis) : Type 0 where
  pub get_read :
      (s : R.State) (k : String) (v : Value) → (R.get s k).1 ≡ ok (some v) → R.held s k ≡ some v
  pub set_ok :
      (s : R.State) (k : String) (v : Value) (t : ℕ)
      → (R.set s k v t).1 ≡ ok tt
      → (R.held (R.set s k v t).0 k ≡ some v) ⊎ (R.held (R.set s k v t).0 k ≡ none)

module _ (R : Redis) (H : Hashing) (L : IsLawful R) (C : SessionStore) where
  -- What a key holds does not take a token.
  abbrev Refuses : String → Option Value → Type 0
  Refuses token none = Unit
  Refuses token (some (other e)) = Unit
  Refuses token (some (marshal d)) = H.verify d.refresh_token token ≡ false

  check_refused :
      (now : ℕ) (id token : String) (s : R.State) (d e : Session)
      → H.verify d.refresh_token token ≡ false
      → (check_session R H C now id token s d).1 ≢ ok e
  check_refused now id token s d e h got = elim (Bool-cases (ltb d.expires_at now)) [
    | inl q ↦ ground (arith, got, q)
    | inr q ↦ ground (arith, got, q, h)
  ]

  found_refused :
      (now : ℕ) (id token : String) (s : R.State) (r : Result (Option Value)) (e : Session)
      → ((v : Value) → r ≡ ok (some v) → Refuses token (some v))
      → (validate_found R H C now id token s r).1 ≢ ok e
  found_refused now id token s (err m) e h got = cc got
  found_refused now id token s (ok none) e h got = cc got
  found_refused now id token s (ok (some (other m))) e h got = cc got
  found_refused now id token s (ok (some (marshal d))) e h got =
      check_refused now id token s d e (h (marshal d) refl) got

  held_refused :
      (now : ℕ) (id token : String) (s : R.State) (e : Session)
      → Refuses token (R.held s (session_key id))
      → (validate_session R H C now id token s).1 ≢ ok e
  unfolding validate_session
  held_refused now id token s e h =
      found_refused now id token _ (R.get s (session_key id)).1 e
        (λ v q. subst (Refuses token) (L.get_read s (session_key id) v q) h)

  write_rotated-Refuses :
      (now : ℕ) (id new old : String) (d' : Session) (hashed : String) (s : R.State) (d : Session)
      → H.verify hashed old ≡ false
      → (write_rotated R H C now id new d' hashed s).1 ≡ ok d
      → Refuses old (R.held (write_rotated R H C now id new d' hashed s).0 (session_key id))
  write_rotated-Refuses now id new old d' hashed s d unfit h =
      let v = marshal (rotated R H C now d' hashed) in
      elim (Result-cases (R.set s (session_key id) v C.token_expiry).1) [
        | inr (m, q) ↦ absurd (ground (arith, h, q))
        | inl (tt, q) ↦ elim (L.set_ok s (session_key id) v C.token_expiry q) [
          | inl kept ↦ subst (Refuses old) (sym kept) unfit
          | inr gone ↦ subst (Refuses old) (sym gone) tt
        ]
      ]

  rotate_checked-Refuses :
      (now : ℕ) (salt new id old hashed : String) (s : R.State) (r : Result Session) (d : Session)
      → H.hash salt new ≡ ok hashed
      → H.verify hashed old ≡ false
      → (rotate_checked R H C now salt (ok new) id s r).1 ≡ ok d
      → Refuses old (R.held (rotate_checked R H C now salt (ok new) id s r).0 (session_key id))
  rotate_checked-Refuses now salt new id old hashed s (err e) d q unfit h = absurd (cc h)
  rotate_checked-Refuses now salt new id old hashed s (ok d') d q unfit h =
      let done : (write_rotated R H C now id new d' hashed s).1 ≡ ok d = ground (arith, h, q) in
      rw (rotate_checked, q) (write_rotated-Refuses now id new old d' hashed s d unfit done)

  -- Over a Redis that keeps its contract: where ValidateSession, at whatever time but as the next
  -- call after a RotateToken that succeeded, takes a token for the session, the token fits the hash
  -- of the new one. A token that fitted the hash of the one before is no longer enough.
  pub rotate_token-validate_session :
      (now later : ℕ) (salt new id old token hashed : String) (s : R.State) (d e : Session)
      → H.hash salt new ≡ ok hashed
      → (rotate_token R H C now salt (ok new) id old s).1 ≡ ok d
      → (validate_session R H C later id token (rotate_token R H C now salt (ok new) id old s).0).1
        ≡ ok e
      → H.verify hashed token ≡ true
  unfolding rotate_token
  rotate_token-validate_session now later salt new id old token hashed s d e q h taken =
      elim (Bool-cases (H.verify hashed token)) [
        | inl fits ↦ fits
        | inr unfit ↦ absurd (
            held_refused later id token _ e
              (rotate_checked-Refuses now salt new id token hashed _
                (validate_session R H C now id old s).1 d q unfit h)
              taken)
      ]
