-- ===== src/Tests/Locks.antt =====
-- A store in memory whose keys do not expire, and two clients.
use sync_vault.Base.{
  ℕ, zero, suc, ◌<◌, ◌≡◌, refl, inl, String, Bool, true, false, List, [], ◌∷◌, Option, none, some,
  ok, arith, string_eq,
}
use sync_vault.Base.Dict.{Dict, lookup, insert, erase, lookup-insert_self, lookup-erase}
use sync_vault.Lock.Commands.{Redis, IsLawful}
use sync_vault.Lock.{try_acquire, release, acquire, handle}
use sync_vault.Lock.Exclusion.{
  Event, tried, released, tries, releases, AllSpare, Run, stop, next, AllRefuse, Run-held,
}
use sync_vault.Lock.Redlock.{acquire_all, try_all}
use sync_vault.Lock.Redlock.Majority.{StillHeld, acquire_all-excludes}
use sync_vault.Lock.Acquiring.{acquire_free}

abbrev Store : Type 0
Store = Dict String String

abbrev set_absent : String → String → Store → Option String → Store × Bool
set_absent k v s none = (insert k v s, true)
set_absent k v s (some w) = (s, false)

abbrev expire : String → ℕ → Store → Store
expire k zero s = erase k s
expire k (suc t) s = s

abbrev plain : Redis
plain = record {
  State = Store;
  get = λ s k. lookup k s;
  set_nx = λ s k v t. set_absent k v s (lookup k s);
  del = λ s k. (erase k s, 1);
  pexpire = λ s k t. expire k t s;
  eval = λ n f s. ((f s).0, ok (f s).1);
}

set_done :
    (s : Store) (k v : String) (o : Option String)
    → lookup k s ≡ o
    → (set_absent k v s o).1 ≡ true
    → (lookup k s ≡ none) × (lookup k (set_absent k v s o).0 ≡ some v)
set_done s k v none e h = (e, lookup-insert_self k v s)
set_done s k v (some w) e h = cc

set_refused :
    (s : Store) (k v : String) (o : Option String)
    → (set_absent k v s o).1 ≡ false
    → lookup k (set_absent k v s o).0 ≡ lookup k s
set_refused s k v none h = cc
set_refused s k v (some w) h = refl

set_free : (s : Store) (k v : String) (o : Option String) → o ≡ none → (set_absent k v s o).1 ≡ true
set_free s k v none h = refl
set_free s k v (some w) h = cc

expire_keeps : (s : Store) (k : String) (t : ℕ) → 0 < t → lookup k (expire k t s) ≡ lookup k s
expire_keeps s k zero p = absurd (omega arith)
expire_keeps s k (suc t) p = refl

plain-IsLawful : IsLawful plain
plain-IsLawful = record {
  set_nx_done = λ s k v t h. set_done s k v (lookup k s) refl h;
  set_nx_refused = λ s k v t h. set_refused s k v (lookup k s) h;
  set_nx_free = λ s k v t h p. set_free s k v (lookup k s) h;
  get-pexpire = expire_keeps;
  get-del = λ s k. ground (arith, lookup-erase k k s);
  eval_outcome = λ n f s. inl refl;
}

abbrev taken : Store
taken = ("lock:job", "first") ∷ []

abbrev second : Store
second = (try_acquire plain "lock:job" 0 "second" 1_000_000 taken).0

abbrev events : List Event
events =
    tried "second" (try_acquire plain "lock:job" 0 "second" 1_000_000 taken).1
    ∷ released "second"
    ∷ []

abbrev third : Store
third = (release plain "lock:job" 1 "second" second).0

abbrev a_run : Run plain plain-IsLawful "lock:job" taken events third
a_run =
    next taken second third _ _ (tries taken 0 "second" 1_000_000)
      (next second third third _ _ (releases second 1 "second") (stop third))

taken_by : lookup "lock:job" taken ≡ some "first"
unfolding lookup string_eq
taken_by = refl

spared : AllSpare plain plain-IsLawful "lock:job" "first" events
unfolding string_eq
spared = (tt, (refl, tt))

Run-held_example :
    AllRefuse plain plain-IsLawful "lock:job" events × (lookup "lock:job" third ≡ some "first")
Run-held_example =
    Run-held plain plain-IsLawful "lock:job" "first" taken third events a_run taken_by spared

abbrev nothing : Store
nothing = []

abbrev no_wait : ℕ → Store → Option Store
no_wait n s = some s

free_at_first : lookup "lock:job" nothing ≡ none
unfolding lookup
free_at_first = refl

acquire_free_example :
    (acquire plain no_wait "lock:job" "first" 1_000_000 3 nothing).1 ≡ handle "first"
acquire_free_example =
    acquire_free plain plain-IsLawful "lock:job" no_wait "first" 1_000_000 3 nothing free_at_first
      (omega arith) (λ f. refl)

abbrev three : List Store
three = nothing ∷ taken ∷ nothing ∷ []

abbrev won : List Store
won = (acquire_all plain "lock:job" 0 "mine" 1_000_000 0 three).0

three_won : (acquire_all plain "lock:job" 0 "mine" 1_000_000 0 three).1 ≡ none
unfolding acquire_all try_all try_acquire lookup string_eq
three_won = refl

still_held : StillHeld plain plain-IsLawful "lock:job" "mine" won won
unfolding acquire_all try_all try_acquire lookup string_eq
still_held = (λ h. h, (λ h. h, (λ h. h, tt)))

acquire_all-excludes_example : ¬ ((acquire_all plain "lock:job" 3 "yours" 1_000_000 0 won).1 ≡ none)
acquire_all-excludes_example =
    acquire_all-excludes plain plain-IsLawful "lock:job" 0 3 "mine" "yours" 1_000_000 0 1_000_000 0
      three won three_won still_held
