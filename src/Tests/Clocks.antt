-- ===== src/Tests/Clocks.antt =====
-- Clocks at concrete data.
use sync_vault.Base.{◌≡◌, refl, [], ◌∷◌, arith, string_eq}
use sync_vault.Base.Dict.{lookup, NodupKeys}
use sync_vault.Sync.Clock.{
  VectorClock, count, increment, merge, after, concurrent, compare, add_keys,
}
use sync_vault.Sync.Clock.Order.{Leq, Means, compare-Means}
use sync_vault.Sync.Clock.Growth.{compare-increment, merge_lub}
use sync_vault.Domain.Clock.{compare as domain_compare}
use sync_vault.Domain.Clock.Agreement.{order_of_relation, compare-agrees}

abbrev left : VectorClock
left = ("a", 3) ∷ ("b", 1) ∷ []

abbrev right : VectorClock
right = ("b", 2) ∷ ("c", 5) ∷ []

concurrent_run : compare left right ≡ concurrent
unfolding compare add_keys count lookup string_eq
concurrent_run = refl

right-NodupKeys : NodupKeys right
unfolding lookup string_eq
right-NodupKeys = (refl, (refl, tt))

compare-Means_example : Means left right (compare left right)
compare-Means_example = compare-Means left right

compare-increment_example : compare (increment left "a") left ≡ after
unfolding count lookup string_eq
compare-increment_example = compare-increment left "a" (omega arith)

abbrev full : VectorClock
full = ("a", 18446744073709551615) ∷ []

merge_lub_example :
    Leq left (merge left right)
    × Leq right (merge left right)
    × (Leq left left → Leq right left → Leq (merge left right) left)
merge_lub_example = merge_lub left right left right-NodupKeys

compare-agrees_example : domain_compare left right ≡ order_of_relation (compare left right)
compare-agrees_example = compare-agrees left right
