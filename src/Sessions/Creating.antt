-- ===== src/Sessions/Creating.antt =====
-- The sessions of a user after a new one.
use sync_vault.Base.{
  ℕ, zero, suc, ◌≤◌, ◌<◌, ◌≡◌, ◌≢◌, ◌⊎◌, refl, sym, ap, subst, ◌∙◌, String, List, [], ◌∷◌, ◌++◌,
  none, Result, ok, arith, All, All-weaken, length, string_eq, ==-refl,
}
use sync_vault.Sessions.{
  Session, Redis, Hashing, SessionStore, session_key, user_key, enforce_session_limit,
  store_commands, store_session, create_session,
}
use sync_vault.Sessions.Limit.{trim, take, IsReliable, Limited, enforce-Limited}

module _ (R : Redis) (H : Hashing) (C : SessionStore) (L : IsReliable R H C) (u : ℕ) where
  trim_short : (n : ℕ) (xs : List String) → length xs ≤ n → trim n xs ≡ xs
  trim_short zero xs h = refl
  trim_short (suc n) xs h = take_short (suc n) xs h
    where
      take_short : (n : ℕ) (xs : List String) → length xs ≤ n → take n xs ≡ xs
      take_short zero [] h = refl
      take_short zero (x ∷ xs) h = absurd (omega (arith, h))
      take_short (suc n) [] h = refl
      take_short (suc n) (x ∷ xs) h = ap (λ l. x ∷ l) (take_short n xs (omega (arith, h)))

  -- The sessions of the user after a new one: the newest of the old ones stay, and the data of the
  -- others is gone.
  pub record Kept (old : List String) (id : String) (r : R.State × Result Session) : Type 0 where
    pub kept : List String
    pub dropped : List String
    pub old_cut : old ≡ kept ++ dropped
    pub now_listed : R.list r.0 (user_key R H C u) ≡ id ∷ kept
    pub bounded : suc (length kept) ≤ C.max_sessions
    pub tight : (dropped ≡ []) ⊎ (suc (length kept) ≡ C.max_sessions)
    pub gone : All (λ j. j ≢ "" → j ≢ id → R.held r.0 (session_key j) ≡ none) dropped
    pub session : Session
    pub answered : r.1 ≡ ok session

  stored-Kept :
      (old : List String) (id token : String) (d : Session) (r : R.State × Result {0} Unit)
      → Limited R H C L u old r
      → Kept old id (store_session R H C u id token d r.0 r.1)
  stored-Kept old id token d (s, r) m =
      let cs = store_commands R H C u id d in
      subst (λ x. Kept old id (store_session R H C u id token d s x)) (sym m.answered)
        (record {
          kept = m.kept;
          dropped = m.dropped;
          old_cut = m.old_cut;
          now_listed =
              L.exec-list s cs (user_key R H C u)
              ∙ rw (==-refl (user_key R H C u), m.left)
                  (trim_short C.max_sessions (id ∷ m.kept) (omega (arith, m.bounded)));
          bounded = omega (arith, m.bounded);
          tight = m.tight;
          gone =
              All-weaken _ _ m.dropped
                (λ j h named differ. L.exec_others s u id j d differ ∙ h named) m.gone;
          session = record d { refresh_token = token };
          answered = rw (store_session, L.exec_ok s cs) refl;
        })

  -- Over a Redis that answers every command, with a limit of one or more: CreateSession returns a
  -- session and puts it first on the list of its user, the newest of the sessions before stay behind
  -- it, the list is within the limit, and sessions are dropped only to make room, each with its data.
  pub create_session-Kept :
      (now : ℕ) (salt token hashed : String) (metadata : List (String × String)) (s : R.State)
      → 0 < C.max_sessions
      → H.hash salt token ≡ ok hashed
      → Kept
          (R.list s (user_key R H C u))
          (H.digest token)
          (create_session R H C now salt (ok token) u metadata s)
  unfolding create_session
  create_session-Kept now salt token hashed metadata s some_allowed h =
      rw (create_session, h)
        (stored-Kept (R.list s (user_key R H C u)) (H.digest token) token _
          (enforce_session_limit R H C u s) (enforce-Limited R H C L u s some_allowed))
