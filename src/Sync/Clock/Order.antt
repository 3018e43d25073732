-- ===== src/Sync/Clock/Order.antt =====
-- `Compare` decides the pointwise order of two clocks.
use sync_vault.Base.{
  ◌≤◌, ◌≡◌, refl, inl, inr, String, Bool, true, false, ◌||◌, List, [], ◌∷◌, arith, ltb, contains,
  string_eq, if◌then◌else◌, Bool-cases,
}
use sync_vault.Base.Dict.{keys, contains-keys}
use sync_vault.Sync.Clock.{
  VectorClock, count, add_keys, both_keys, scan_keys, relation_of, Relation, before, after, equal,
  concurrent, compare,
}

-- Every counter of the first clock is at most that of the second.
abbrev pub Leq : VectorClock → VectorClock → Type 0
Leq a b = (n : String) → count n a ≤ count n b

-- Some listed counter of `a` is above that of `b`.
exceeds : VectorClock → VectorClock → List String → Bool
exceeds a b [] = false
exceeds a b (k ∷ ks) = ltb (count k b) (count k a) || exceeds a b ks

scan_keys-exceeds :
    (a b : VectorClock) (ks : List String) (g o : Bool)
    → scan_keys a b ks g o ≡ (exceeds a b ks || g, exceeds b a ks || o)
unfolding scan_keys exceeds
scan_keys-exceeds a b [] g o = refl
scan_keys-exceeds a b (k ∷ ks) g o = ground (
  arith,
  scan_keys-exceeds a b ks (ltb (count k b) (count k a) || g)
      (if ltb (count k b) (count k a) then o else if ltb (count k a) (count k b) then true else o),
)

contains-add_keys :
    (n : String) (ks seen : List String)
    → contains n (add_keys ks seen) ≡ (contains n ks || contains n seen)
unfolding add_keys
contains-add_keys n [] seen = refl
contains-add_keys n (k ∷ ks) seen =
    ground (arith, contains-add_keys n ks (if contains k seen then seen else k ∷ seen))

exceeds_none :
    (a b : VectorClock) (ks : List String)
    → exceeds a b ks ≡ false
    → (n : String) → contains n ks ≡ true
    → count n a ≤ count n b
unfolding exceeds
exceeds_none a b [] h n m = ground arith
exceeds_none a b (k ∷ ks) h n m = ground (arith, exceeds_none a b ks (ground arith) n)

exceeds_of_Leq : (a b : VectorClock) (ks : List String) → Leq a b → exceeds a b ks ≡ false
unfolding exceeds
exceeds_of_Leq a b [] h = refl
exceeds_of_Leq a b (k ∷ ks) h = ground (arith, exceeds_of_Leq a b ks h, h k)

count_absent : (n : String) (a : VectorClock) → contains n (keys a) ≡ false → count n a ≡ 0
unfolding count
count_absent n a h = ground (arith, (contains-keys n a).0 h)

both_keys-exceeds : (a b : VectorClock) → exceeds a b (both_keys a b) ≡ false → Leq a b
both_keys-exceeds a b h n = elim (Bool-cases (contains n (both_keys a b))) [
  | inl m ↦ exceeds_none a b (both_keys a b) h n m
  | inr m ↦ ground (
    arith,
    count_absent n a,
    contains-add_keys n (keys b) (add_keys (keys a) []),
    contains-add_keys n (keys a) [],
  )
]

both_keys-exceeds' : (a b : VectorClock) → exceeds b a (both_keys a b) ≡ false → Leq b a
both_keys-exceeds' a b h n = elim (Bool-cases (contains n (both_keys a b))) [
  | inl m ↦ exceeds_none b a (both_keys a b) h n m
  | inr m ↦ ground (arith, count_absent n b, contains-add_keys n (keys b) (add_keys (keys a) []))
]

-- What a relation says of the two clocks.
abbrev pub Means : VectorClock → VectorClock → Relation → Type 0
Means a b equal = Leq a b × Leq b a
Means a b before = Leq a b × (¬ Leq b a)
Means a b after = (¬ Leq a b) × Leq b a
Means a b concurrent = (¬ Leq a b) × (¬ Leq b a)

not_Leq : (a b : VectorClock) (ks : List String) → exceeds a b ks ≡ true → ¬ Leq a b
not_Leq a b ks h l = ground (arith, exceeds_of_Leq a b ks l)

Means-relation_of :
    (a b : VectorClock) (g o : Bool)
    → exceeds a b (both_keys a b) ≡ g
    → exceeds b a (both_keys a b) ≡ o
    → Means a b (relation_of (g, o))
Means-relation_of a b false false p q = (both_keys-exceeds a b p, both_keys-exceeds' a b q)
Means-relation_of a b true false p q = (not_Leq a b _ p, both_keys-exceeds' a b q)
Means-relation_of a b false true p q = (both_keys-exceeds a b p, not_Leq b a _ q)
Means-relation_of a b true true p q = (not_Leq a b _ p, not_Leq b a _ q)

compare-relation_of :
    (a b : VectorClock)
    → compare a b ≡ relation_of (exceeds a b (both_keys a b), exceeds b a (both_keys a b))
unfolding compare
compare-relation_of a b = ground (arith, scan_keys-exceeds a b (both_keys a b) false false)

-- The relation that `Compare` answers is the pointwise order of the two clocks, over all nodes:
-- `Equal`, `Before` and `After` where one is below the other, `Concurrent` where neither is.
pub compare-Means : (a b : VectorClock) → Means a b (compare a b)
compare-Means a b = rw compare-relation_of (Means-relation_of a b _ _ refl refl)
