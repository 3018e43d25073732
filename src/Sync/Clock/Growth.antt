-- ===== src/Sync/Clock/Growth.antt =====
-- `Merge` and `Increment` in the order of clocks.
use native.Mathlib.Nat.{mod-eq_of_lt}
use sync_vault.Base.{
  ℕ, ◌+◌, ◌%◌, ◌<◌, max, ◌≡◌, refl, String, [], ◌∷◌, arith, ltb, ◌==◌, string_eq, if◌then◌else◌,
  ==-refl,
}
use sync_vault.Base.Dict.{lookup, insert, NodupKeys, lookup-insert, insert-NodupKeys}
use sync_vault.Sync.Clock.{
  VectorClock, u64, count, increment, merge, merge_entries, Relation, before, after, equal,
  concurrent, compare,
}
use sync_vault.Sync.Clock.Order.{Leq, Means, compare-Means}

pub flip : Relation → Relation
flip before = after
flip after = before
flip equal = equal
flip concurrent = concurrent

-- A pair of clocks stands in one relation only.
Means-unique : (a b : VectorClock) (r s : Relation) → Means a b r → Means a b s → r ≡ s
Means-unique a b before before m n = refl
Means-unique a b before after m n = absurd (n.0 m.0)
Means-unique a b before equal m n = absurd (m.1 n.1)
Means-unique a b before concurrent m n = absurd (n.0 m.0)
Means-unique a b after before m n = absurd (m.0 n.0)
Means-unique a b after after m n = refl
Means-unique a b after equal m n = absurd (m.0 n.0)
Means-unique a b after concurrent m n = absurd (n.1 m.1)
Means-unique a b equal before m n = absurd (n.1 m.1)
Means-unique a b equal after m n = absurd (n.0 m.0)
Means-unique a b equal equal m n = refl
Means-unique a b equal concurrent m n = absurd (n.0 m.0)
Means-unique a b concurrent before m n = absurd (m.0 n.0)
Means-unique a b concurrent after m n = absurd (m.1 n.1)
Means-unique a b concurrent equal m n = absurd (m.0 n.0)
Means-unique a b concurrent concurrent m n = refl

pub compare_of_Means : (a b : VectorClock) (r : Relation) → Means a b r → compare a b ≡ r
compare_of_Means a b r m = Means-unique a b (compare a b) r (compare-Means a b) m

Means-flip : (a b : VectorClock) (r : Relation) → Means a b r → Means b a (flip r)
unfolding flip
Means-flip a b before m = (m.1, m.0)
Means-flip a b after m = (m.1, m.0)
Means-flip a b equal m = (m.1, m.0)
Means-flip a b concurrent m = (m.1, m.0)

-- Comparing the other way round exchanges `Before` and `After`.
pub compare-flip : (a b : VectorClock) → compare b a ≡ flip (compare a b)
compare-flip a b = compare_of_Means b a _ (Means-flip a b (compare a b) (compare-Means a b))

pub count-insert :
    (m n : String) (v : ℕ) (vc : VectorClock)
    → count m (insert n v vc) ≡ (if m == n then v else count m vc)
unfolding count
count-insert m n v vc = ground (arith, lookup-insert m n v vc)

pub count-increment :
    (m n : String) (vc : VectorClock)
    → count m (increment vc n) ≡ (if m == n then (count n vc + 1) % u64 else count m vc)
unfolding increment
count-increment m n vc = count-insert m n _ vc

pub increment-NodupKeys :
    (vc : VectorClock) (n : String) → NodupKeys vc → NodupKeys (increment vc n)
unfolding increment
increment-NodupKeys vc n u = insert-NodupKeys n _ vc u

increment_grows :
    (vc : VectorClock) (n : String) → count n vc + 1 < u64 → Means (increment vc n) vc after
increment_grows vc n h = (
  λ l. absurd (ground (arith, l n, count-increment n n vc, ==-refl n, mod-eq_of_lt h)),
  λ m. ground (arith, count-increment m n vc, mod-eq_of_lt h),
)

-- Counting a change puts the clock strictly after the one that it had, unless its counter is full.
pub compare-increment :
    (vc : VectorClock) (n : String) → count n vc + 1 < u64 → compare (increment vc n) vc ≡ after
compare-increment vc n h = compare_of_Means _ vc after (increment_grows vc n h)

-- A full counter wraps to 0, and the changed clock then counts as the older one.
pub compare-increment_full :
    (vc : VectorClock) (n : String) → count n vc + 1 ≡ u64 → compare (increment vc n) vc ≡ before
compare-increment_full vc n h = compare_of_Means _ vc before (
  λ m. ground (arith, count-increment m n vc),
  λ l. absurd (ground (arith, l n, count-increment n n vc, ==-refl n)),
)

count-merge_entries :
    (k : String) (result other : VectorClock)
    → NodupKeys other
    → count k (merge_entries result other) ≡ max (count k result) (count k other)
unfolding merge_entries count lookup
count-merge_entries k result [] u = omega arith
count-merge_entries k result ((j, v) ∷ other) (fresh, u) = ground (
  arith,
  count-merge_entries k (if ltb (count j result) v then insert j v result else result) other u,
  lookup-insert k j v result,
)

-- `Merge` takes the maximum at every node.
pub count-merge :
    (k : String) (a b : VectorClock)
    → NodupKeys b
    → count k (merge a b) ≡ max (count k a) (count k b)
unfolding merge
count-merge k a b u = count-merge_entries k a b u

merge_entries-NodupKeys :
    (result other : VectorClock) → NodupKeys result → NodupKeys (merge_entries result other)
unfolding merge_entries
merge_entries-NodupKeys result [] u = u
merge_entries-NodupKeys result ((j, v) ∷ other) u =
    merge_entries-NodupKeys (if ltb (count j result) v then insert j v result else result) other
      (ground (arith, insert-NodupKeys j v result u))

pub merge-NodupKeys : (a b : VectorClock) → NodupKeys a → NodupKeys (merge a b)
unfolding merge
merge-NodupKeys a b u = merge_entries-NodupKeys a b u

-- `Merge` is the least clock that is above both.
pub merge_lub :
    (a b c : VectorClock)
    → NodupKeys b
    → Leq a (merge a b) × Leq b (merge a b) × (Leq a c → Leq b c → Leq (merge a b) c)
merge_lub a b c u = (
  λ k. omega (arith, count-merge k a b u),
  λ k. omega (arith, count-merge k a b u),
  λ p q k. omega (arith, count-merge k a b u, p k, q k),
)
