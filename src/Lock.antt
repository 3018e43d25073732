-- ===== src/Lock.antt =====
-- internal/lock/distributed.go: one lock, kept as a key of Redis.
pub mod Commands
pub mod Scripts
pub mod Exclusion
pub mod Acquiring
pub mod Redlock
use sync_vault.Base.{
  ℕ, zero, suc, ◌+◌, ◌/◌, ◌<>◌, String, Bool, true, false, Option, none, some, Result, ok, err,
  nat_eqb, ◌==◌, string_eq, if◌then◌else◌,
}
use Commands.{Redis}

-- Nanoseconds in a millisecond, in which Redis takes a time to live.
abbrev pub millisecond : ℕ
millisecond = 1_000_000

abbrev pub lock_key : String → String
lock_key name = "lock:" <> name

abbrev pub owns : Option String → String → Bool
owns none value = false
owns (some current) value = current == value

pub data OwnerError : Type 0 where
  script_failed : String → OwnerError
  not_owned : OwnerError

abbrev pub owner_error : Result ℕ → Option OwnerError
owner_error (err e) = some (script_failed e)
owner_error (ok a) = if nat_eqb a 0 then some not_owned else none

pub data AcquireError : Type 0 where
  cancelled held : AcquireError
  failed : String → AcquireError

pub data Acquired : Type 0 where
  handle : String → Acquired
  refused : AcquireError → Acquired

module _ (R : Redis) where
  -- The three scripts. Each gives its number as its answer.
  unfoldable pub acquire_script : String → String → ℕ → R.State → R.State × ℕ
  acquire_script key value ttl s =
      let (s', set) = R.set_nx s key value ttl in (s', if set then 1 else 0)

  unfoldable pub release_script : String → String → R.State → R.State × ℕ
  release_script key value s = if owns (R.get s key) value then R.del s key else (s, 0)

  unfoldable pub extend_script : String → String → ℕ → R.State → R.State × ℕ
  extend_script key value ttl s =
      if owns (R.get s key) value then (R.pexpire s key ttl, 1) else (s, 0)

  -- `n` tells the calls of a run apart.
  unfoldable pub try_acquire : String → ℕ → String → ℕ → R.State → R.State × Result Bool
  unfolding acquire_script
  try_acquire key n value ttl s =
      let (s', r) = R.eval n (acquire_script key value (ttl / millisecond)) s in
      (s', elim r [ err e ↦ err e | ok a ↦ ok (nat_eqb a 1) ])

  unfoldable pub release : String → ℕ → String → R.State → R.State × Option OwnerError
  unfolding release_script
  release key n value s = let (s', r) = R.eval n (release_script key value) s in (s', owner_error r)

  unfoldable pub extend : String → ℕ → String → ℕ → R.State → R.State × Option OwnerError
  unfolding extend_script
  extend key n value ttl s =
      let (s', r) = R.eval n (extend_script key value (ttl / millisecond)) s in (s', owner_error r)

  -- What the store has become when attempt `n` starts: the first starts at once, a later one after
  -- `wait n`, which is none where the context ended during the delay.
  abbrev pub before : (ℕ → R.State → Option R.State) → ℕ → R.State → Option R.State
  before wait n s = if nat_eqb n 0 then some s else wait n s

  -- What an attempt comes to: the handle, or the next attempt, with the error of this one.
  abbrev pub judge :
      String → R.State → (AcquireError → R.State × Acquired) → Result Bool → R.State × Acquired
  judge value s again (err e) = again (failed e)
  judge value s again (ok true) = (s, handle value)
  judge value s again (ok false) = again held

  -- The loop of `Acquire`: attempt `n`, with the number of attempts from it on, and the error of
  -- the attempt before it.
  unfoldable pub attempts :
      (ℕ → R.State → Option R.State)
      → String
      → String
      → ℕ
      → ℕ
      → ℕ
      → AcquireError
      → R.State
      → R.State × Acquired
  unfolding try_acquire
  attempts wait key value ttl zero n last s = (s, refused last)
  attempts wait key value ttl (suc left) n last s = elim (before wait n s) [
    | none ↦ (s, refused cancelled)
    | some s' ↦
        (let (s'', r) = try_acquire key n value ttl s' in
          judge value s'' (λ e. attempts wait key value ttl left (n + 1) e s'') r)
  ]

  -- The value is drawn at random by the caller.
  unfoldable pub acquire :
      (ℕ → R.State → Option R.State) → String → String → ℕ → ℕ → R.State → R.State × Acquired
  unfolding attempts
  acquire wait key value ttl retry_count s = attempts wait key value ttl (suc retry_count) 0 held s
