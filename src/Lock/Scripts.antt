-- ===== src/Lock/Scripts.antt =====
-- What one call does to the key of the lock.
use sync_vault.Base.{
  ℕ, ◌/◌, ◌<◌, ◌≡◌, sym, ap, ◌∙◌, inl, inr, String, Bool, true, false, none, some, arith, Result,
  ok, err, nat_eqb, ◌==◌, string_eq, Bool-cases,
}
use sync_vault.Lock.Commands.{Redis, IsLawful}
use sync_vault.Lock.{
  millisecond, acquire_script, release_script, extend_script, try_acquire, release, extend,
}

module _ (R : Redis) (L : IsLawful R) (key : String) where
  -- A script that leaves the key as it is does so whether or not its answer arrives.
  eval_keeps :
      (n : ℕ) (f : R.State → R.State × ℕ) (s : R.State)
      → R.get (f s).0 key ≡ R.get s key
      → R.get (R.eval n f s).0 key ≡ R.get s key
  eval_keeps n f s h = elim (L.eval_outcome n f s) [
    | inl e ↦ ap (λ x. R.get x.0 key) e ∙ h
    | inr (m, inl e) ↦ ap (λ x. R.get x.0 key) e ∙ h
    | inr (m, inr e) ↦ ap (λ x. R.get x.0 key) e
  ]

  -- An answer that arrives is that of a script that has run.
  eval_ok :
      (n a : ℕ) (f : R.State → R.State × ℕ) (s : R.State)
      → (R.eval n f s).1 ≡ ok a
      → ((f s).1 ≡ a) × ((R.eval n f s).0 ≡ (f s).0)
  eval_ok n a f s h = elim (L.eval_outcome n f s) [
    | inl e ↦ (let q : ok (f s).1 ≡ ok a = sym (ap (λ x. x.1) e) ∙ h in cc q, ap (λ x. x.0) e)
    | inr (m, inl e) ↦ (let q : err m ≡ ok a = sym (ap (λ x. x.1) e) ∙ h in cc q)
    | inr (m, inr e) ↦ (let q : err m ≡ ok a = sym (ap (λ x. x.1) e) ∙ h in cc q)
  ]

  abbrev answer_of : Result ℕ → Result Bool
  answer_of r = elim r [ err e ↦ err e | ok a ↦ ok (nat_eqb a 1) ]

  answer_of_ok : (r : Result ℕ) → answer_of r ≡ ok true → r ≡ ok 1
  answer_of_ok (err e) h = cc
  answer_of_ok (ok a) h = ground arith

  acquire_script_ok :
      (v : String) (t : ℕ) (s : R.State)
      → (acquire_script R key v t s).1 ≡ 1
      → (R.get s key ≡ none) × (R.get (acquire_script R key v t s).0 key ≡ some v)
  unfolding acquire_script
  acquire_script_ok v t s h = L.set_nx_done s key v t (ground arith)

  acquire_script-held :
      (v w : String) (t : ℕ) (s : R.State)
      → R.get s key ≡ some w
      → R.get (acquire_script R key v t s).0 key ≡ R.get s key
  unfolding acquire_script
  acquire_script-held v w t s h = elim (Bool-cases (R.set_nx s key v t).1) [
    | inl e ↦ (let q : none ≡ some w = sym (L.set_nx_done s key v t e).0 ∙ h in cc q)
    | inr e ↦ L.set_nx_refused s key v t e
  ]

  -- An attempt that reports the lock has found it free, and its value is now the holder's.
  pub try_acquire_ok :
      (n : ℕ) (v : String) (ttl : ℕ) (s : R.State)
      → (try_acquire R key n v ttl s).1 ≡ ok true
      → (R.get s key ≡ none) × (R.get (try_acquire R key n v ttl s).0 key ≡ some v)
  unfolding try_acquire
  try_acquire_ok n v ttl s h =
      let t = ttl / millisecond in
      let done =
        eval_ok n 1 (acquire_script R key v t) s
          (answer_of_ok (R.eval n (acquire_script R key v t) s).1 h) in
      let free = acquire_script_ok v t s done.0 in (free.0, ap (λ x. R.get x key) done.1 ∙ free.1)

  pub try_acquire-held :
      (n : ℕ) (v w : String) (ttl : ℕ) (s : R.State)
      → R.get s key ≡ some w
      → R.get (try_acquire R key n v ttl s).0 key ≡ some w
  unfolding try_acquire
  try_acquire-held n v w ttl s h =
      eval_keeps n (acquire_script R key v (ttl / millisecond)) s
        (acquire_script-held v w (ttl / millisecond) s h)
      ∙ h

  release_script_other :
      (v w : String) (s : R.State)
      → R.get s key ≡ some w
      → (w == v) ≡ false
      → R.get (release_script R key v s).0 key ≡ R.get s key
  unfolding release_script
  release_script_other v w s h d = ground arith

  pub release_other :
      (n : ℕ) (v w : String) (s : R.State)
      → R.get s key ≡ some w
      → (w == v) ≡ false
      → R.get (release R key n v s).0 key ≡ some w
  unfolding release
  release_other n v w s h d =
      eval_keeps n (release_script R key v) s (release_script_other v w s h d) ∙ h

  extend_script_keeps :
      (v : String) (t : ℕ) (s : R.State)
      → 0 < t
      → R.get (extend_script R key v t s).0 key ≡ R.get s key
  unfolding extend_script
  extend_script_keeps v t s p = ground (arith, L.get-pexpire s key t p)

  pub extend_keeps :
      (n : ℕ) (v : String) (ttl : ℕ) (s : R.State)
      → 0 < ttl / millisecond
      → R.get (extend R key n v ttl s).0 key ≡ R.get s key
  unfolding extend
  extend_keeps n v ttl s p =
      eval_keeps n (extend_script R key v (ttl / millisecond)) s
        (extend_script_keeps v (ttl / millisecond) s p)

  acquire_script_free :
      (v : String) (t : ℕ) (s : R.State)
      → R.get s key ≡ none
      → 0 < t
      → (acquire_script R key v t s).1 ≡ 1
  unfolding acquire_script
  acquire_script_free v t s free pos = ground (arith, L.set_nx_free s key v t free pos)

  pub try_acquire_free :
      (v : String) (ttl : ℕ) (s : R.State)
      → R.get s key ≡ none
      → 0 < ttl / millisecond
      → ((f : R.State → R.State × ℕ) → R.eval 0 f s ≡ ((f s).0, ok (f s).1))
      → (try_acquire R key 0 v ttl s).1 ≡ ok true
  unfolding try_acquire
  try_acquire_free v ttl s free pos answered =
      ap (λ x. answer_of x.1) (answered (acquire_script R key v (ttl / millisecond)))
      ∙ ap (λ a. answer_of (ok a)) (acquire_script_free v (ttl / millisecond) s free pos)
