-- ===== src/Lock/Redlock/Majority.antt =====
-- Two majorities share a store.
use sync_vault.Base.{
  ℕ, suc, ◌+◌, ◌/◌, ◌≤◌, ◌<◌, ◌≡◌, refl, sym, ap, ◌∙◌, String, Bool, true, false, List, [], ◌∷◌,
  Option, none, some, Result, ok, err, arith, length, if◌then◌else◌, string_eq, ==-refl, eq_of_==,
}
use sync_vault.Lock.Commands.{Redis, IsLawful}
use sync_vault.Lock.{owns, try_acquire}
use sync_vault.Lock.Scripts.{try_acquire_ok}
use sync_vault.Lock.Redlock.{granted, quorum, try_all, acquire_all}

module _ (R : Redis) (L : IsLawful R) (key : String) where
  -- How many stores hold the lock for this value.
  unfoldable pub holders : String → List R.State → ℕ
  holders v [] = 0
  holders v (s ∷ ss) = (if owns (R.get s key) v then 1 else 0) + holders v ss

  -- Later stores, in which the lock still holds the value wherever it did.
  abbrev pub StillHeld : String → List R.State → List R.State → Type 0
  StillHeld v [] [] = Unit
  StillHeld v (s ∷ ss) (t ∷ ts) = (R.get s key ≡ some v → R.get t key ≡ some v) × StillHeld v ss ts
  StillHeld v _ _ = ⊥

  granted_owner :
      (v : String) (r : Result Bool) (o : Option String)
      → (r ≡ ok true → o ≡ some v)
      → granted r ≤ (if owns o v then 1 else 0)
  granted_owner v (err e) o h = omega arith
  granted_owner v (ok false) o h = omega arith
  granted_owner v (ok true) o h = ground (arith, h refl, ==-refl v)

  granted-none :
      (w : String) (r : Result Bool) (o : Option String)
      → (r ≡ ok true → o ≡ none)
      → granted r + (if owns o w then 1 else 0) ≤ 1
  granted-none w (err e) o h = ground arith
  granted-none w (ok false) o h = ground arith
  granted-none w (ok true) o h = ground (arith, h refl)

  granted-holder :
      (n : ℕ) (v : String) (ttl : ℕ) (s : R.State)
      → granted (try_acquire R key n v ttl s).1
        ≤ (if owns (R.get (try_acquire R key n v ttl s).0 key) v then 1 else 0)
  granted-holder n v ttl s =
      granted_owner v (try_acquire R key n v ttl s).1 _
        (λ r. (try_acquire_ok R L key n v ttl s r).1)

  granted-free :
      (n : ℕ) (v w : String) (ttl : ℕ) (s : R.State)
      → granted (try_acquire R key n v ttl s).1 + (if owns (R.get s key) w then 1 else 0) ≤ 1
  granted-free n v w ttl s =
      granted-none w (try_acquire R key n v ttl s).1 _ (λ r. (try_acquire_ok R L key n v ttl s r).0)

  try_all-holders :
      (n : ℕ) (v : String) (ttl : ℕ) (ss : List R.State)
      → (try_all R key n v ttl ss).1 ≤ holders v (try_all R key n v ttl ss).0
  unfolding try_all holders
  try_all-holders n v ttl [] = omega arith
  try_all-holders n v ttl (s ∷ ss) =
      omega (arith, granted-holder n v ttl s, try_all-holders (n + 1) v ttl ss)

  try_all-free :
      (n : ℕ) (v w : String) (ttl : ℕ) (ss : List R.State)
      → (try_all R key n v ttl ss).1 + holders w ss ≤ length ss
  unfolding try_all holders
  try_all-free n v w ttl [] = omega arith
  try_all-free n v w ttl (s ∷ ss) =
      omega (arith, granted-free n v w ttl s, try_all-free (n + 1) v w ttl ss)

  owned_le :
      (v : String) (o p : Option String)
      → (o ≡ some v → p ≡ some v)
      → (if owns o v then 1 else 0) ≤ (if owns p v then 1 else 0)
  owned_le v none p h = omega arith
  owned_le v (some u) p h = ground (arith, eq_of_== u v, ==-refl v)

  holders-StillHeld :
      (v : String) (ss ts : List R.State)
      → StillHeld v ss ts
      → (holders v ss ≤ holders v ts) × (length ss ≡ length ts)
  unfolding holders
  holders-StillHeld v [] [] h = (omega arith, refl)
  holders-StillHeld v (s ∷ ss) (t ∷ ts) h =
      let rest = holders-StillHeld v ss ts h.1 in
      (omega (arith, owned_le v (R.get s key) (R.get t key) h.0, rest.0), ap suc rest.1)
  holders-StillHeld v [] (t ∷ ts) h = absurd h
  holders-StillHeld v (s ∷ ss) [] h = absurd h

  length-try_all :
      (n : ℕ) (v : String) (ttl : ℕ) (ss : List R.State)
      → length (try_all R key n v ttl ss).0 ≡ length ss
  unfolding try_all
  length-try_all n v ttl [] = refl
  length-try_all n v ttl (s ∷ ss) = ap suc (length-try_all (n + 1) v ttl ss)

  -- A call of `Acquire` that succeeds leaves a majority of the stores holding its value.
  acquire_all-holders :
      (n : ℕ) (v : String) (ttl elapsed : ℕ) (ss : List R.State)
      → (acquire_all R key n v ttl elapsed ss).1 ≡ none
      → (quorum R ss ≤ holders v (acquire_all R key n v ttl elapsed ss).0)
        × (length (acquire_all R key n v ttl elapsed ss).0 ≡ length ss)
  unfolding acquire_all
  acquire_all-holders n v ttl elapsed ss h =
      ground (arith, try_all-holders n v ttl ss, length-try_all n v ttl ss)

  acquire_all-majority :
      (n : ℕ) (w : String) (ttl elapsed : ℕ) (ts : List R.State)
      → (acquire_all R key n w ttl elapsed ts).1 ≡ none
      → (v : String) → holders v ts + quorum R ts ≤ length ts
  unfolding acquire_all
  acquire_all-majority n w ttl elapsed ts h v = ground (arith, try_all-free n w v ttl ts)

  quorum_twice : (ss : List R.State) → length ss < quorum R ss + quorum R ss
  unfolding quorum
  quorum_twice ss = omega arith

  quorum-length : (ss ts : List R.State) → length ss ≡ length ts → quorum R ss ≡ quorum R ts
  unfolding quorum
  quorum-length ss ts h = ap (λ n. n / 2 + 1) h

  -- Over stores that keep their contract: after a call of `Acquire` that succeeds, and as long as
  -- the stores that it has locked still hold its value, no other call of `Acquire` over the stores
  -- succeeds.
  pub acquire_all-excludes :
      (n m : ℕ) (v w : String) (ttl elapsed ttl' elapsed' : ℕ) (ss ts : List R.State)
      → (acquire_all R key n v ttl elapsed ss).1 ≡ none
      → StillHeld v (acquire_all R key n v ttl elapsed ss).0 ts
      → ¬ ((acquire_all R key m w ttl' elapsed' ts).1 ≡ none)
  acquire_all-excludes n m v w ttl elapsed ttl' elapsed' ss ts won kept again =
      let first = acquire_all-holders n v ttl elapsed ss won in
      let later = holders-StillHeld v (acquire_all R key n v ttl elapsed ss).0 ts kept in
      let second = acquire_all-majority m w ttl' elapsed' ts again v in
      omega (
        arith,
        quorum_twice ss,
        quorum_twice ts,
        first.0,
        first.1,
        later.0,
        later.1,
        second,
        quorum-length ss ts (sym first.1 ∙ later.1),
      )
