-- ===== src/Domain/Clock/Agreement.antt =====
-- The clocks of the domain model agree with those of internal/sync.
use sync_vault.Base.{
  ◌≡◌, refl, sym, subst, ◌↔◌, String, Bool, true, false, ◌&&◌, ◌||◌, List, [], ◌∷◌, arith, ltb,
  string_eq, if◌then◌else◌,
}
use sync_vault.Sync.Clock.{
  Relation, compare as sync_compare, count, scan_keys, relation_of, both_keys,
}
use sync_vault.Sync.Clock.Order.{Leq, Means, compare-Means}
use sync_vault.Domain.Clock.{
  VectorClock, VectorClockOrder, scan_nodes, compare, before, concurrent, after, equal,
  is_concurrent, is_concurrent_with,
}

abbrev pub order_of_relation : Relation → VectorClockOrder
order_of_relation Relation.before = before
order_of_relation Relation.after = after
order_of_relation Relation.equal = equal
order_of_relation Relation.concurrent = concurrent

-- Flags that are both set stay set.
scan_keys_both : (a b : VectorClock) (ks : List String) → scan_keys a b ks true true ≡ (true, true)
unfolding scan_keys
scan_keys_both a b [] = refl
scan_keys_both a b (k ∷ ks) = ground (arith, scan_keys_both a b ks)

scan_nodes-scan_keys :
    (a b : VectorClock) (ks : List String) (d o : Bool)
    → d && o ≡ false
    → scan_nodes a b ks d o ≡ order_of_relation (relation_of (scan_keys a b ks d o))
unfolding scan_nodes scan_keys
scan_nodes-scan_keys a b [] false false h = refl
scan_nodes-scan_keys a b [] false true h = refl
scan_nodes-scan_keys a b [] true false h = refl
scan_nodes-scan_keys a b [] true true h = cc
scan_nodes-scan_keys a b (k ∷ ks) d o h = ground (
  arith,
  scan_keys_both a b ks,
  scan_nodes-scan_keys a b ks (ltb (count k b) (count k a) || d)
      (if ltb (count k b) (count k a) then o else ltb (count k a) (count k b) || o),
)

-- Both versions of `Compare` give two clocks the same relation: leaving the loop early loses
-- nothing.
pub compare-agrees : (a b : VectorClock) → compare a b ≡ order_of_relation (sync_compare a b)
unfolding compare sync_compare
compare-agrees a b = scan_nodes-scan_keys a b (both_keys a b) false false refl

concurrent_iff :
    (a b : VectorClock) (r : Relation)
    → Means a b r
    → (is_concurrent (order_of_relation r) ≡ true) ↔ ((¬ Leq a b) × (¬ Leq b a))
concurrent_iff a b Relation.before m = (λ h. cc, λ n. absurd (n.0 m.0))
concurrent_iff a b Relation.after m = (λ h. cc, λ n. absurd (n.1 m.1))
concurrent_iff a b Relation.equal m = (λ h. cc, λ n. absurd (n.0 m.0))
concurrent_iff a b Relation.concurrent m = (λ h. m, λ n. refl)

-- `IsConcurrentWith` holds exactly where neither clock is pointwise at most the other.
pub is_concurrent_with-Leq :
    (a b : VectorClock) → (is_concurrent_with a b ≡ true) ↔ ((¬ Leq a b) × (¬ Leq b a))
unfolding is_concurrent_with
is_concurrent_with-Leq a b =
    subst (λ c. (is_concurrent c ≡ true) ↔ ((¬ Leq a b) × (¬ Leq b a))) (sym (compare-agrees a b))
      (concurrent_iff a b (sync_compare a b) (compare-Means a b))
