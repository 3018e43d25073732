-- ===== src/Lock/Exclusion.antt =====
-- Who holds a lock: any sequence of calls by any clients, with time passing between them.
use sync_vault.Base.{
  ℕ, ◌/◌, ◌<◌, ◌≡◌, sym, ◌∙◌, String, Bool, true, false, List, [], ◌∷◌, none, some, Result, ok,
  ◌==◌, string_eq,
}
use sync_vault.Lock.Commands.{Redis, IsLawful}
use sync_vault.Lock.{millisecond, try_acquire, release, extend}
use sync_vault.Lock.Scripts.{try_acquire_ok, try_acquire-held, release_other, extend_keeps}

pub data Event : Type 0 where
  tried : String → Result Bool → Event
  released : String → Event
  extended waited expired : Event

module _ (R : Redis) (L : IsLawful R) (key : String) where
  pub data Step : R.State → Event → R.State → Type 0 where
    tries :
        (s : R.State) (n : ℕ) (v : String) (ttl : ℕ)
        → Step s (tried v (try_acquire R key n v ttl s).1) (try_acquire R key n v ttl s).0
    releases : (s : R.State) (n : ℕ) (v : String) → Step s (released v) (release R key n v s).0
    extends :
        (s : R.State) (n : ℕ) (v : String) (ttl : ℕ)
        → 0 < ttl / millisecond
        → Step s extended (extend R key n v ttl s).0
    waits : (s t : R.State) → R.get t key ≡ R.get s key → Step s waited t
    expires : (s t : R.State) → R.get t key ≡ none → Step s expired t

  pub data Run : R.State → List Event → R.State → Type 0 where
    stop : (s : R.State) → Run s [] s
    next :
        (s t u : R.State) (e : Event) (es : List Event) → Step s e t → Run t es u → Run s (e ∷ es) u

  -- The holder does not release the lock, and it does not expire.
  abbrev pub Spares : String → Event → Type 0
  Spares v (released w) = (v == w) ≡ false
  Spares v expired = ⊥
  Spares v _ = Unit

  abbrev pub AllSpare : String → List Event → Type 0
  AllSpare v [] = Unit
  AllSpare v (e ∷ es) = Spares v e × AllSpare v es

  -- No attempt reports the lock.
  abbrev pub Refuses : Event → Type 0
  Refuses (tried w r) = ¬ (r ≡ ok true)
  Refuses _ = Unit

  abbrev pub AllRefuse : List Event → Type 0
  AllRefuse [] = Unit
  AllRefuse (e ∷ es) = Refuses e × AllRefuse es

  Step-held :
      (v : String) (s t : R.State) (e : Event)
      → Step s e t
      → R.get s key ≡ some v
      → Spares v e
      → Refuses e × (R.get t key ≡ some v)
  Step-held v _ _ _ (tries s n w ttl) h p = (
    λ r. (let q : none ≡ some v = sym (try_acquire_ok R L key n w ttl s r).0 ∙ h in cc q),
    try_acquire-held R L key n w v ttl s h,
  )
  Step-held v _ _ _ (releases s n w) h p = (tt, release_other R L key n w v s h p)
  Step-held v _ _ _ (extends s n w ttl pos) h p = (tt, extend_keeps R L key n w ttl s pos ∙ h)
  Step-held v _ _ _ (waits s t k) h p = (tt, k ∙ h)
  Step-held v _ _ _ (expires s t k) h p = absurd p

  -- Over a Redis that keeps its contract: while a client holds the lock, does not release it, and
  -- it does not expire, no attempt of any client reports the lock, in any sequence of attempts,
  -- releases and extensions of at least a millisecond, with lost answers among them; and the client
  -- still holds it at the end.
  pub Run-held :
      (v : String) (s t : R.State) (es : List Event)
      → Run s es t
      → R.get s key ≡ some v
      → AllSpare v es
      → AllRefuse es × (R.get t key ≡ some v)
  Run-held v _ _ _ (stop s) h p = (tt, h)
  Run-held v _ _ _ (next s t u e es st run) h p =
      let one = Step-held v s t e st h p.0 in
      let rest = Run-held v t u es run one.1 p.1 in ((one.0, rest.0), rest.1)
