-- ===== src/Lock/Commands.antt =====
-- What internal/lock uses of Redis and its client: commands on keys that may expire, and scripts
-- that run in one step.
use sync_vault.Base.{
  ℕ, ◌<◌, ◌≡◌, ◌⊎◌, String, Bool, true, false, Option, none, some, Result, ok, err,
}

pub record Redis : Type 1 where
  pub State : Type 0
  pub get : State → String → Option String
  pub set_nx : State → String → String → ℕ → State × Bool
  pub del : State → String → State × ℕ
  pub pexpire : State → String → ℕ → State
  pub eval : ℕ → (State → State × ℕ) → State → State × Result ℕ

pub record IsLawful (R : Redis) : Type 0 where
  pub set_nx_done :
      (s : R.State) (k v : String) (t : ℕ)
      → (R.set_nx s k v t).1 ≡ true
      → (R.get s k ≡ none) × (R.get (R.set_nx s k v t).0 k ≡ some v)
  pub set_nx_refused :
      (s : R.State) (k v : String) (t : ℕ)
      → (R.set_nx s k v t).1 ≡ false
      → R.get (R.set_nx s k v t).0 k ≡ R.get s k
  pub set_nx_free :
      (s : R.State) (k v : String) (t : ℕ) → R.get s k ≡ none → 0 < t → (R.set_nx s k v t).1 ≡ true
  pub get-pexpire :
      (s : R.State) (k : String) (t : ℕ) → 0 < t → R.get (R.pexpire s k t) k ≡ R.get s k
  pub get-del : (s : R.State) (k : String) → R.get (R.del s k).0 k ≡ none
  -- A script runs whole or not at all, and its answer may be lost.
  pub eval_outcome :
      (n : ℕ) (f : R.State → R.State × ℕ) (s : R.State)
      → (R.eval n f s ≡ ((f s).0, ok (f s).1))
        ⊎ ((e : String) × ((R.eval n f s ≡ ((f s).0, err e)) ⊎ (R.eval n f s ≡ (s, err e))))
