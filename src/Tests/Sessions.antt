-- ===== src/Tests/Sessions.antt =====
-- Sessions over a Redis in memory, where a token is its own hash.
use mathlib.Core.List.{reverse, reverse-append, reverse-reverse}
use sync_vault.Base.{
  ◌≡◌, ◌≢◌, refl, sym, ap, subst, ◌∙◌, inl, inr, String, true, List, [], ◌∷◌, Option, none, some,
  Result, ok, arith, string_eq, ◌==◌, ==-refl, eq_of_==, if◌then◌else◌, Bool-cases,
}
use sync_vault.Base.Text.{append_inj}
use sync_vault.Sessions.{
  Session, Value, marshal, Command, set_session, push_front, expire_list, trim_list, Redis, Hashing,
  SessionStore, session_key, create_session, validate_session, rotate_token, new_session,
}
use sync_vault.Sessions.Limit
use sync_vault.Sessions.Limit.{list_after}
use sync_vault.Sessions.Creating.{Kept, create_session-Kept}
use sync_vault.Sessions.Rotation
use sync_vault.Sessions.Rotation.{rotate_token-validate_session}

record Memory : Type 0 where
  pub held : String → Option Value
  pub lists : String → List String

abbrev put : {A : Type 0} → String → A → (String → A) → String → A
put k v f j = if j == k then v else f j

abbrev popped : Memory → String → List String → Memory × Result (Option String)
popped s k [] = (s, ok none)
popped s k (y ∷ ys) = (record s { lists = put k (reverse ys) s.lists }, ok (some y))

abbrev held_after : String → List Command → Option Value → Option Value
held_after k [] o = o
held_after k (set_session j v t ∷ cs) o = held_after k cs (if k == j then some v else o)
held_after k (push_front j x ∷ cs) o = held_after k cs o
held_after k (trim_list j n ∷ cs) o = held_after k cs o
held_after k (expire_list j t ∷ cs) o = held_after k cs o

abbrev memory_redis : Redis
memory_redis = record {
  State = Memory;
  held = λ s k. s.held k;
  list = λ s k. s.lists k;
  get = λ s k. (s, ok (s.held k));
  set = λ s k v t. (record s { held = put k (some v) s.held }, ok tt);
  del = λ s k. (record s { held = put k none s.held }, ok tt);
  lrange = λ s k. (s, ok (s.lists k));
  rpop = λ s k. popped s k (reverse (s.lists k));
  lrem = λ s k id. s;
  exec = λ s cs. (
    record { held = λ k. held_after k cs (s.held k); lists = λ k. list_after k cs (s.lists k) },
    ok tt,
  );
}

abbrev plain_hashing : Hashing
plain_hashing = record {
  hash = λ salt token. ok token;
  verify = λ h token. h == token;
  digest = λ token. token;
  show = λ n. "7";
}

ok_inj : {A : Type 0} {a b : A} → ok a ≡ ok b → a ≡ b
ok_inj h = cc h

memory_redis-IsLawful : Rotation.IsLawful memory_redis
memory_redis-IsLawful = record {
  get_read = λ s k v h. ok_inj h;
  set_ok = λ s k v t h. inl (rw (==-refl k) refl);
}

abbrev store : SessionStore
store = record { token_expiry = 100; max_sessions = 2 }

key_inj : (i j : String) → session_key i ≡ session_key j → i ≡ j
key_inj i j h = (append_inj "session:id:" i "session:id:" j h refl).1

put_none : (f : String → Option Value) (k j : String) → f j ≡ none → put k none f j ≡ none
put_none f k j h = ground (arith, h)

popped_at :
    (s : Memory) (k : String) (l : List String) (y : String) (xs : List String)
    → xs ≡ y ∷ reverse l
    → ((popped s k xs).1 ≡ ok (some y)) × ((popped s k xs).0.lists k ≡ l)
popped_at s k l y xs h =
    subst (λ ys. ((popped s k ys).1 ≡ ok (some y)) × ((popped s k ys).0.lists k ≡ l)) (sym h)
      (refl, rw (==-refl k) (reverse-reverse l))

popped_held : (s : Memory) (k j : String) (xs : List String) → (popped s k xs).0.held j ≡ s.held j
popped_held s k j [] = refl
popped_held s k j (x ∷ xs) = refl

other_key :
    (j id : String) (v o : Option Value)
    → j ≢ id
    → (if session_key j == session_key id then v else o) ≡ o
other_key j id v o differ = elim (Bool-cases (session_key j == session_key id)) [
  | inl q ↦ absurd (differ (key_inj j id (eq_of_== (session_key j) (session_key id) q)))
  | inr q ↦ rw (q) refl
]

memory_redis-IsReliable : Limit.IsReliable memory_redis plain_hashing store
memory_redis-IsReliable = record {
  lrange_all = λ s k. refl;
  rpop_last = λ s k l y h.
      popped_at s k l y (reverse (s.lists k)) (ap reverse h ∙ reverse-append l (y ∷ []));
  rpop-held = λ s k j. popped_held s k j (reverse (s.lists k));
  del_gone = λ s k. rw (==-refl k) refl;
  del_none = λ s k j h. put_none s.held k j h;
  del-list = λ s id u. refl;
  exec_ok = λ s cs. refl;
  exec-list = λ s cs k. refl;
  exec_others =
      λ s u id j d differ. other_key j id (some (marshal d)) (s.held (session_key j)) differ;
}

abbrev full : Memory
full = record { held = λ k. none; lists = λ k. "b" ∷ "a" ∷ [] }

create_session-Kept_example :
    Kept memory_redis plain_hashing store memory_redis-IsReliable 7
      ("b" ∷ "a" ∷ [])
      "c"
      (create_session memory_redis plain_hashing store 5 "salt" (ok "c") 7 [] full)
create_session-Kept_example =
    create_session-Kept memory_redis plain_hashing store memory_redis-IsReliable 7 5 "salt" "c" "c"
      [] full (omega arith) refl

abbrev opened : Session
opened = new_session memory_redis plain_hashing store 5 7 [] "c"

abbrev live : Memory
live = record { held = λ k. some (marshal opened); lists = λ k. [] }

abbrev turned : Session
turned = record opened { refresh_token = "d"; last_used = 6; expires_at = 106 }

turns : (rotate_token memory_redis plain_hashing store 6 "salt" (ok "d") "c" "c" live).1 ≡ ok turned
unfolding rotate_token validate_session string_eq
turns = refl

renewed :
    (validate_session memory_redis plain_hashing store 7 "c" "d"
      (rotate_token memory_redis plain_hashing store 6 "salt" (ok "d") "c" "c" live).0).1
    ≡ ok (record turned { last_used = 7 })
unfolding rotate_token validate_session string_eq
renewed = refl

rotate_token-validate_session_example : plain_hashing.verify "d" "d" ≡ true
rotate_token-validate_session_example =
    rotate_token-validate_session memory_redis plain_hashing memory_redis-IsLawful store 6 7 "salt"
      "d" "c" "c" "d" "d" live turned (record turned { last_used = 7 }) refl turns renewed
