-- ===== src/Sessions/Limit.antt =====
-- The limit of sessions of a user, over a Redis that answers every command.
use mathlib.Core.List.{
  reverse, reverse-cons, reverse-append, reverse-reverse, append_assoc, append-nil,
}
use sync_vault.Base.{
  ℕ, zero, suc, ◌+◌, ◌-◌, ◌≤◌, ◌<◌, ◌≡◌, ◌≢◌, ◌⊎◌, refl, sym, ap, subst, ◌∙◌, inl, inr, String,
  List, [], ◌∷◌, ◌++◌, Option, none, some, Result, ok, arith, All, All-reverse, cut_at,
  length-reverse, length, length-append, leb, string_eq, ◌==◌, if◌then◌else◌, if_elim, Bool-cases,
  Result-cases, eq_of_==,
}
use sync_vault.Sessions.{
  Session, Command, set_session, push_front, expire_list, trim_list, Redis, Hashing, SessionStore,
  session_key, user_key, delete_popped, remove_oldest, enforce_on, enforce_read,
  enforce_session_limit, store_commands,
}

abbrev pub take : ℕ → List String → List String
take zero xs = []
take (suc n) [] = []
take (suc n) (x ∷ xs) = x ∷ take n xs

-- LTRIM from 0 to one below a number, which keeps all for 0.
abbrev pub trim : ℕ → List String → List String
trim zero xs = xs
trim (suc n) xs = take (suc n) xs

-- The effect of a transaction on a list, and on a session.
abbrev pub list_after : String → List Command → List String → List String
list_after k [] l = l
list_after k (push_front j x ∷ cs) l = list_after k cs (if k == j then x ∷ l else l)
list_after k (trim_list j n ∷ cs) l = list_after k cs (if k == j then trim n l else l)
list_after k (set_session j v t ∷ cs) l = list_after k cs l
list_after k (expire_list j t ∷ cs) l = list_after k cs l

-- The documented effect of the commands, each of which is answered.
pub record IsReliable (R : Redis) (H : Hashing) (C : SessionStore) : Type 0 where
  pub lrange_all : (s : R.State) (k : String) → R.lrange s k ≡ (s, ok (R.list s k))
  pub rpop_last :
      (s : R.State) (k : String) (l : List String) (y : String)
      → R.list s k ≡ l ++ (y ∷ [])
      → ((R.rpop s k).1 ≡ ok (some y)) × (R.list (R.rpop s k).0 k ≡ l)
  pub rpop-held : (s : R.State) (k j : String) → R.held (R.rpop s k).0 j ≡ R.held s j
  pub del_gone : (s : R.State) (k : String) → R.held (R.del s k).0 k ≡ none
  pub del_none : (s : R.State) (k j : String) → R.held s j ≡ none → R.held (R.del s k).0 j ≡ none
  -- The key of a session is not that of a user's list.
  pub del-list :
      (s : R.State) (id : String) (u : ℕ)
      → R.list (R.del s (session_key id)).0 (user_key R H C u) ≡ R.list s (user_key R H C u)
  pub exec_ok : (s : R.State) (cs : List Command) → (R.exec s cs).1 ≡ ok tt
  pub exec-list :
      (s : R.State) (cs : List Command) (k : String)
      → R.list (R.exec s cs).0 k ≡ list_after k cs (R.list s k)
  pub exec_others :
      (s : R.State) (u : ℕ) (id j : String) (d : Session)
      → j ≢ id
      → R.held (R.exec s (store_commands R H C u id d)).0 (session_key j) ≡ R.held s (session_key j)

module _ (R : Redis) (H : Hashing) (C : SessionStore) (L : IsReliable R H C) (u : ℕ) where
  abbrev pub Gone : R.State → String → Type 0
  Gone s j = j ≢ "" → R.held s (session_key j) ≡ none

  popped-Gone :
      (s : R.State) (o : Option String) (j : String)
      → R.held s (session_key j) ≡ none
      → R.held (delete_popped R H C s o) (session_key j) ≡ none
  popped-Gone s none j h = h
  popped-Gone s (some id) j h =
      if_elim (λ t. R.held t (session_key j) ≡ none) (id == "") h
        (L.del_none s (session_key id) (session_key j) h)

  delete_popped-list :
      (s : R.State) (o : Option String)
      → R.list (delete_popped R H C s o) (user_key R H C u) ≡ R.list s (user_key R H C u)
  delete_popped-list s none = refl
  delete_popped-list s (some id) =
      if_elim (λ t. R.list t (user_key R H C u) ≡ R.list s (user_key R H C u)) (id == "") refl
        (L.del-list s id u)

  remove_step :
      (n : ℕ) (s : R.State) (o : Option String)
      → (R.rpop s (user_key R H C u)).1 ≡ ok o
      → remove_oldest R H C (suc n) (user_key R H C u) s
        ≡ remove_oldest R H C n
            (user_key R H C u)
            (delete_popped R H C (R.rpop s (user_key R H C u)).0 o)
  remove_step n s o q = rw (remove_oldest, q) refl

  remove_none :
      (n : ℕ) (s : R.State) (j : String)
      → R.held s (session_key j) ≡ none
      → R.held (remove_oldest R H C n (user_key R H C u) s).0 (session_key j) ≡ none
  remove_none zero s j h = h
  remove_none (suc n) s j h =
      let s' = (R.rpop s (user_key R H C u)).0 in
      let h' = L.rpop-held s (user_key R H C u) (session_key j) ∙ h in
      elim (Result-cases (R.rpop s (user_key R H C u)).1) [
        | inr (e, q) ↦ rw (remove_oldest, q) h'
        | inl (o, q) ↦
            ap (λ r. R.held r.0 (session_key j)) (remove_step n s o q)
            ∙ remove_none n (delete_popped R H C s' o) j (popped-Gone s' o j h')
      ]

  popped_self : (s : R.State) (z : String) → Gone (delete_popped R H C s (some z)) z
  popped_self s z named = elim (Bool-cases (z == "")) [
    | inl e ↦ absurd (named (eq_of_== z "" e))
    | inr e ↦ rw (delete_popped, e) (L.del_gone s (session_key z))
  ]

  -- The loop takes the last sessions off the list, and their data with them.
  remove_oldest-Gone :
      (zs xs : List String) (s : R.State)
      → R.list s (user_key R H C u) ≡ xs ++ reverse zs
      → let r = remove_oldest R H C (length zs) (user_key R H C u) s in
        (r.1 ≡ ok tt) × (R.list r.0 (user_key R H C u) ≡ xs) × All (Gone r.0) zs
  remove_oldest-Gone [] xs s h = (refl, h ∙ append-nil xs, tt)
  remove_oldest-Gone (z ∷ zs) xs s h =
      let k = user_key R H C u in
      let last : R.list s k ≡ (xs ++ reverse zs) ++ (z ∷ []) =
        h ∙ ap (λ l. xs ++ l) (reverse-cons z zs) ∙ sym (append_assoc xs (reverse zs) (z ∷ [])) in
      let (q, rest) = L.rpop_last s k (xs ++ reverse zs) z last in
      let s' = delete_popped R H C (R.rpop s k).0 (some z) in
      let (done, left, gone) =
        remove_oldest-Gone zs xs s' (delete_popped-list (R.rpop s k).0 (some z) ∙ rest) in
      let first : Gone (remove_oldest R H C (length zs) k s').0 z =
        λ named. remove_none (length zs) s' z (popped_self (R.rpop s k).0 z named) in
      subst (λ r. (r.1 ≡ ok tt) × (R.list r.0 k ≡ xs) × All (Gone r.0) (z ∷ zs))
        (sym (remove_step (length zs) s (some z) q)) (done, left, (first, gone))

  -- What the limit leaves: the newest sessions, one fewer than the limit at most.
  pub record Limited (old : List String) (r : R.State × Result {0} Unit) : Type 0 where
    pub kept : List String
    pub dropped : List String
    pub old_cut : old ≡ kept ++ dropped
    pub answered : r.1 ≡ ok tt
    pub left : R.list r.0 (user_key R H C u) ≡ kept
    pub bounded : length kept < C.max_sessions
    pub tight : (dropped ≡ []) ⊎ (suc (length kept) ≡ C.max_sessions)
    pub gone : All (Gone r.0) dropped

  enforce_all :
      (s : R.State)
      → enforce_session_limit R H C u s
        ≡ enforce_on R H C (user_key R H C u) s (R.list s (user_key R H C u))
  enforce_all s = ap (enforce_read R H C (user_key R H C u)) (L.lrange_all s (user_key R H C u))

  removed-Limited :
      (s : R.State) (old zs xs : List String) (n : ℕ)
      → R.list s (user_key R H C u) ≡ old
      → old ≡ xs ++ reverse zs
      → length zs ≡ n
      → suc (length xs) ≡ C.max_sessions
      → Limited old (remove_oldest R H C n (user_key R H C u) s)
  removed-Limited s old zs xs n all cut count size =
      let (done, left, gone) = remove_oldest-Gone zs xs s (all ∙ cut) in
      subst (λ m. Limited old (remove_oldest R H C m (user_key R H C u) s)) count
        (record {
          kept = xs;
          dropped = reverse zs;
          old_cut = cut;
          answered = done;
          left = left;
          bounded = omega (arith, size);
          tight = inr size;
          gone = All-reverse _ zs gone;
        })

  enforce_on-Limited :
      (s : R.State) (old : List String)
      → 0 < C.max_sessions
      → R.list s (user_key R H C u) ≡ old
      → Limited old (enforce_on R H C (user_key R H C u) s old)
  enforce_on-Limited s old some_allowed all = elim (Bool-cases (leb C.max_sessions (length old))) [
    | inr q ↦
        rw (enforce_on, q)
          (record {
            kept = old;
            dropped = [];
            old_cut = sym (append-nil old);
            answered = refl;
            left = all;
            bounded = ground (arith, q);
            tight = inl refl;
            gone = tt;
          })
    | inl q ↦
        let n = length old - C.max_sessions + 1 in
        let full : C.max_sessions ≤ length old = ground (arith, q) in
        let (a, b, cut, count) =
          cut_at n (reverse old) (omega (arith, full, some_allowed, length-reverse old)) in
        let cut' : old ≡ reverse b ++ reverse a =
          sym (reverse-reverse old) ∙ ap reverse cut ∙ reverse-append a b in
        rw (enforce_on, q)
          (removed-Limited s old a (reverse b) n all cut' count (
            omega (
              arith,
              full,
              some_allowed,
              count,
              ap length cut',
              length-reverse a,
              length-append (reverse b) (reverse a),
            )))
  ]

  pub enforce-Limited :
      (s : R.State)
      → 0 < C.max_sessions
      → Limited (R.list s (user_key R H C u)) (enforce_session_limit R H C u s)
  enforce-Limited s some_allowed =
      subst (Limited (R.list s (user_key R H C u))) (sym (enforce_all s))
        (enforce_on-Limited s (R.list s (user_key R H C u)) some_allowed refl)
