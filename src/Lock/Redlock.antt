-- ===== src/Lock/Redlock.antt =====
-- Redlock of internal/lock/distributed.go: the lock over several stores of one kind, of which a
-- majority decides.
pub mod Majority
use sync_vault.Base.{
  ℕ, suc, ◌+◌, ◌/◌, String, Bool, true, false, List, [], ◌∷◌, Option, none, some, Result, ok, err,
  ltb, leb, length, if◌then◌else◌,
}
use sync_vault.Lock.Commands.{Redis}
use sync_vault.Lock.{OwnerError, try_acquire, release}

abbrev pub granted : Result Bool → ℕ
granted (err e) = 0
granted (ok b) = if b then 1 else 0

abbrev pub done : Option OwnerError → ℕ
done none = 1
done (some e) = 0

-- The numbers are those of the quorum that was missed, and how often the call succeeded.
pub data RedlockError : Type 0 where
  too_slow : RedlockError
  no_quorum : ℕ → RedlockError

module _ (R : Redis) where
  unfoldable pub quorum : List R.State → ℕ
  quorum clients = length clients / 2 + 1

  -- The loop of `Acquire` over the clients, with the number of successes. `n` counts the calls.
  unfoldable pub try_all : String → ℕ → String → ℕ → List R.State → List R.State × ℕ
  unfolding try_acquire
  try_all key n value ttl [] = ([], 0)
  try_all key n value ttl (s ∷ ss) =
      let (s', r) = try_acquire R key n value ttl s in
      let (ss', count) = try_all key (n + 1) value ttl ss in (s' ∷ ss', granted r + count)

  unfoldable pub release_clients : String → ℕ → String → List R.State → List R.State × ℕ
  unfolding release
  release_clients key n value [] = ([], 0)
  release_clients key n value (s ∷ ss) =
      let (s', e) = release R key n value s in
      let (ss', count) = release_clients key (n + 1) value ss in (s' ∷ ss', done e + count)

  unfoldable pub release_all :
      String → ℕ → String → List R.State → List R.State × Option RedlockError
  unfolding release_clients quorum
  release_all key n value ss =
      let (ss', count) = release_clients key n value ss in
      (ss', if leb (quorum ss) count then none else some (no_quorum count))

  -- `elapsed` is the time that the calls took. Without a lock the clients are released again.
  unfoldable pub acquire_all :
      String → ℕ → String → ℕ → ℕ → List R.State → List R.State × Option RedlockError
  unfolding try_all release_all quorum
  acquire_all key n value ttl elapsed ss =
      let (ss', count) = try_all key n value ttl ss in
      let released = (release_all key (n + length ss) value ss').0 in
      if ltb ttl elapsed
      then (released, some too_slow)
      else if leb (quorum ss) count
      then (ss', none)
      else (released, some (no_quorum count))
