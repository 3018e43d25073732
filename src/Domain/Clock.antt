-- ===== src/Domain/Clock.antt =====
-- internal/domain/valueobjects/vectorclock.go: the clocks of the domain model, a second version of
-- those of internal/sync with a loop that ends early.
pub mod Agreement
use sync_vault.Base.{
  ℕ, ◌+◌, ◌%◌, String, Bool, true, false, ◌&&◌, ◌||◌, List, [], ◌∷◌, ltb, string_eq, if◌then◌else◌,
}
use sync_vault.Base.Dict.{Dict, lookup, insert, keys}
use sync_vault.Sync.Clock.{u64, count, both_keys}

abbrev pub VectorClock : Type 0
VectorClock = Dict String ℕ

pub data VectorClockOrder : Type 0 where
  before concurrent after equal : VectorClockOrder

abbrev pub new_vector_clock : VectorClock
new_vector_clock = []

-- The values are immutable here, so a copy is the clock itself.
abbrev pub copy : VectorClock → VectorClock
copy vc = vc

unfoldable pub increment : VectorClock → String → VectorClock
increment vc n = insert n ((count n vc + 1) % u64) (copy vc)

unfoldable pub merge_entries : VectorClock → VectorClock → VectorClock
merge_entries result [] = result
merge_entries result ((k, v) ∷ other) =
    merge_entries (if ltb (count k result) v then insert k v result else result) other

unfoldable pub merge : VectorClock → VectorClock → VectorClock
unfolding merge_entries
merge vc other = merge_entries (copy vc) other

abbrev pub order_of : Bool → Bool → VectorClockOrder
order_of false false = equal
order_of true _ = after
order_of false true = before

-- The loop over the nodes, with the flags `vcDominates` and `otherDominates`. It returns as soon as
-- both are set.
unfoldable pub scan_nodes : VectorClock → VectorClock → List String → Bool → Bool → VectorClockOrder
scan_nodes vc other [] dominates other_dominates = order_of dominates other_dominates
scan_nodes vc other (n ∷ ns) dominates other_dominates =
    let above = ltb (count n other) (count n vc) in
    let below = ltb (count n vc) (count n other) in
    let d = above || dominates in
    let o = if above then other_dominates else below || other_dominates in
    let rest = scan_nodes vc other ns d o in if d && o then concurrent else rest

unfoldable pub compare : VectorClock → VectorClock → VectorClockOrder
unfolding scan_nodes
compare vc other = scan_nodes vc other (both_keys vc other) false false

abbrev pub is_concurrent : VectorClockOrder → Bool
is_concurrent concurrent = true
is_concurrent _ = false

unfoldable pub is_concurrent_with : VectorClock → VectorClock → Bool
unfolding compare
is_concurrent_with vc other = is_concurrent (compare vc other)
