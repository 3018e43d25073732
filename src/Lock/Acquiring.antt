-- ===== src/Lock/Acquiring.antt =====
-- What `Acquire` returns.
use sync_vault.Base.{
  ℕ, zero, suc, ◌+◌, ◌/◌, ◌<◌, ◌≡◌, refl, ap, String, Bool, true, false, Option, none, some, Result,
  ok, err, string_eq,
}
use sync_vault.Lock.Commands.{Redis, IsLawful}
use sync_vault.Lock.{
  millisecond, try_acquire, AcquireError, Acquired, handle, refused, cancelled, held, failed,
  before, judge, attempts, acquire,
}
use sync_vault.Lock.Scripts.{try_acquire_ok, try_acquire_free}

module _ (R : Redis) (L : IsLawful R) (key : String) where
  abbrev pub Handled : String → R.State × Acquired → Type 0
  Handled v (s, handle w) = (w ≡ v) × (R.get s key ≡ some v)
  Handled v (s, refused e) = Unit

  judge-Handled :
      (v : String) (s : R.State) (again : AcquireError → R.State × Acquired) (r : Result Bool)
      → (r ≡ ok true → R.get s key ≡ some v)
      → ((e : AcquireError) → Handled v (again e))
      → Handled v (judge R v s again r)
  judge-Handled v s again (err e) got rest = rest (failed e)
  judge-Handled v s again (ok true) got rest = (refl, got refl)
  judge-Handled v s again (ok false) got rest = rest held

  started-Handled :
      (v : String) (s : R.State) (o : Option R.State) (go : R.State → R.State × Acquired)
      → ((t : R.State) → Handled v (go t))
      → Handled v (elim o [ none ↦ (s, refused cancelled) | some t ↦ go t ])
  started-Handled v s none go h = tt
  started-Handled v s (some t) go h = h t

  attempts-Handled :
      (wait : ℕ → R.State → Option R.State) (v : String) (ttl left n : ℕ) (last : AcquireError)
      (s : R.State)
      → Handled v (attempts R wait key v ttl left n last s)
  unfolding attempts
  attempts-Handled wait v ttl zero n last s = tt
  attempts-Handled wait v ttl (suc left) n last s = started-Handled v s (before R wait n s) _ (λ t.
      judge-Handled v (try_acquire R key n v ttl t).0 _ (try_acquire R key n v ttl t).1
        (λ r. (try_acquire_ok R L key n v ttl t r).1)
        (λ e. attempts-Handled wait v ttl left (n + 1) e (try_acquire R key n v ttl t).0))

  -- Over a Redis that keeps its contract, a handle that `Acquire` returns, at whichever attempt,
  -- carries the given value, and the lock then holds that value.
  pub acquire-Handled :
      (wait : ℕ → R.State → Option R.State) (v : String) (ttl retry_count : ℕ) (s : R.State)
      → Handled v (acquire R wait key v ttl retry_count s)
  unfolding acquire
  acquire-Handled wait v ttl retry_count s = attempts-Handled wait v ttl (suc retry_count) 0 held s

  -- On a free lock of a Redis that keeps its contract, where the first call is answered and the
  -- time to live is a millisecond or more, `Acquire` returns a handle.
  pub acquire_free :
      (wait : ℕ → R.State → Option R.State) (v : String) (ttl retry_count : ℕ) (s : R.State)
      → R.get s key ≡ none
      → 0 < ttl / millisecond
      → ((f : R.State → R.State × ℕ) → R.eval 0 f s ≡ ((f s).0, ok (f s).1))
      → (acquire R wait key v ttl retry_count s).1 ≡ handle v
  unfolding acquire attempts
  acquire_free wait v ttl retry_count s free pos answered =
      ap
        (λ r.
          (judge R v (try_acquire R key 0 v ttl s).0
            (λ e. attempts R wait key v ttl retry_count 1 e (try_acquire R key 0 v ttl s).0) r).1)
        (try_acquire_free R L key v ttl s free pos answered)
