-- ===== src/Sync/Clock.antt =====
-- internal/sync/vectorclock.go. A counter is a uint64, and wraps.
pub mod Order
pub mod Growth
use sync_vault.Base.{
  ℕ, ◌+◌, ◌%◌, ◌^◌, String, Bool, true, false, ◌||◌, List, [], ◌∷◌, ltb, contains, ◌==◌, string_eq,
  if◌then◌else◌, Option, none, some,
}
use sync_vault.Base.Dict.{Dict, lookup, insert, keys}

abbrev pub VectorClock : Type 0
VectorClock = Dict String ℕ

abbrev pub u64 : ℕ
u64 = 2 ^ 64

abbrev pub or_zero : Option ℕ → ℕ
or_zero none = 0
or_zero (some n) = n

-- `vc[nodeID]`, which is 0 for a node that the map lacks.
unfoldable pub count : String → VectorClock → ℕ
count n vc = or_zero (lookup n vc)

abbrev pub new_vector_clock : VectorClock
new_vector_clock = []

-- The values are immutable here, so a copy is the clock itself.
abbrev pub clone : VectorClock → VectorClock
clone vc = vc

unfoldable pub increment : VectorClock → String → VectorClock
increment vc n = insert n ((count n vc + 1) % u64) (clone vc)

unfoldable pub merge_entries : VectorClock → VectorClock → VectorClock
merge_entries result [] = result
merge_entries result ((k, v) ∷ other) =
    merge_entries (if ltb (count k result) v then insert k v result else result) other

unfoldable pub merge : VectorClock → VectorClock → VectorClock
unfolding merge_entries
merge vc other = merge_entries (clone vc) other

pub data Relation : Type 0 where
  before after equal concurrent : Relation

-- The set `keys` of `Compare`: a key is added once.
unfoldable pub add_keys : List String → List String → List String
add_keys [] seen = seen
add_keys (k ∷ ks) seen = add_keys ks (if contains k seen then seen else k ∷ seen)

abbrev pub both_keys : VectorClock → VectorClock → List String
both_keys vc other = add_keys (keys other) (add_keys (keys vc) [])

-- The loop over the keys, with the flags `vcGT` and `otherGT`.
unfoldable pub scan_keys : VectorClock → VectorClock → List String → Bool → Bool → Bool × Bool
scan_keys vc other [] gt other_gt = (gt, other_gt)
scan_keys vc other (k ∷ ks) gt other_gt =
    scan_keys vc other ks (ltb (count k other) (count k vc) || gt) (
      if ltb (count k other) (count k vc)
      then other_gt
      else if ltb (count k vc) (count k other)
      then true
      else other_gt)

abbrev pub relation_of : Bool × Bool → Relation
relation_of (false, false) = equal
relation_of (true, false) = after
relation_of (false, true) = before
relation_of (true, true) = concurrent

unfoldable pub compare : VectorClock → VectorClock → Relation
unfolding scan_keys
compare vc other = relation_of (scan_keys vc other (both_keys vc other) false false)
