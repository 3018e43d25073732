-- ===== src/Sync/Session/Wiped.antt =====
-- `checkNotWiped` in `Sync`: when the files of a node are taken for lost rather than deleted.
use sync_vault.Base.{
  suc, ◌≤◌, ◌<◌, ◌≡◌, ◌↔◌, refl, sym, ap, ◌∙◌, inl, inr, String, Bool, true, false, not, List, [],
  ◌∷◌, Option, none, some, arith, string_eq, contains, length, Bool-cases, eq_of_==, ==-refl, ◌==◌,
  if◌then◌else◌, ltb,
}
use sync_vault.Base.Dict.{
  Dict, lookup, insert, erase, values, NodupKeys, lookup-erase, insert-NodupKeys,
}
use sync_vault.Sync.Files.{FileEntry}
use sync_vault.Sync.Merkle.{Digest}
use sync_vault.Sync.Merkle.Distinct.{Distinct}
use sync_vault.Sync.State.{
  FileState, StateStore, add_states, index_states, count_live, check_not_wiped, wipe_threshold,
}
use sync_vault.Sync.State
use sync_vault.Sync.Node.{Node, ok}
use sync_vault.Sync.Engine.{ConflictStrategy, Progress, Clock}
use sync_vault.Sync.Session.{snapshot, sync_trees, sync_listed, sync, Outcome, done}

-- A state that is no tombstone.
abbrev pub is_live : Option FileState → Bool
is_live none = false
is_live (some st) = not st.deleted

count_live-erase-le :
    (p : String) (d : Dict String FileState)
    → count_live (values (erase p d)) ≤ count_live (values d)
unfolding count_live erase
count_live-erase-le p [] = omega arith
count_live-erase-le p ((q, st) ∷ d) = ground (arith, count_live-erase-le p d)

count_live-erase :
    (p : String) (d : Dict String FileState)
    → is_live (lookup p d) ≡ true
    → suc (count_live (values (erase p d))) ≤ count_live (values d)
unfolding count_live erase lookup
count_live-erase p [] h = absurd (cc h)
count_live-erase p ((q, st) ∷ d) h = ground (arith, count_live-erase-le p d, count_live-erase p d)

-- Distinct paths with live states are no more than the live states.
length-le-count_live :
    (ps : List String) (d : Dict String FileState)
    → Distinct ps
    → ((p : String) → contains p ps ≡ true → is_live (lookup p d) ≡ true)
    → length ps ≤ count_live (values d)
length-le-count_live [] d u h = omega arith
length-le-count_live (p ∷ ps) d (fresh, u) h = omega (
  arith,
  count_live-erase p d (h p (ground (arith, ==-refl p))),
  length-le-count_live ps (erase p d) u kept,
)
  where
    kept : (q : String) → contains q ps ≡ true → is_live (lookup q (erase p d)) ≡ true
    kept q m = elim (Bool-cases (q == p)) [
      | inl e ↦ absurd (ground (arith, ap (λ k. contains k ps) (eq_of_== q p e), m, fresh))
      | inr e ↦ ground (arith, lookup-erase q p d, e, h q, m)
    ]

-- The paths of the live states.
live_keys : Dict String FileState → List String
live_keys [] = []
live_keys ((p, st) ∷ d) = let rest = live_keys d in if st.deleted then rest else p ∷ rest

length-live_keys : (d : Dict String FileState) → length (live_keys d) ≡ count_live (values d)
unfolding live_keys count_live
length-live_keys [] = refl
length-live_keys ((p, st) ∷ d) = ground (arith, length-live_keys d)

contains-live_keys :
    (p : String) (d : Dict String FileState)
    → NodupKeys d
    → contains p (live_keys d) ≡ is_live (lookup p d)
unfolding live_keys lookup
contains-live_keys p [] u = refl
contains-live_keys p ((q, st) ∷ d) (fresh, u) =
    ground (arith, contains-live_keys p d u, eq_of_== p q)

live_keys-Distinct : (d : Dict String FileState) → NodupKeys d → Distinct (live_keys d)
unfolding live_keys lookup
live_keys-Distinct [] u = tt
live_keys-Distinct ((p, st) ∷ d) (fresh, u) =
    ground (arith, contains-live_keys p d u, live_keys-Distinct d u)

add_states-NodupKeys :
    (sts : List FileState) (d : Dict String FileState) → NodupKeys d → NodupKeys (add_states d sts)
unfolding add_states
add_states-NodupKeys [] d u = u
add_states-NodupKeys (st ∷ sts) d u =
    add_states-NodupKeys sts (insert st.path st d) (insert-NodupKeys st.path st d u)

index_states-NodupKeys : (sts : List FileState) → NodupKeys (index_states sts)
unfolding index_states
index_states-NodupKeys sts = add_states-NodupKeys sts [] tt

module _ (S : StateStore) (SL : State.IsLawful S) where
  -- More than ten paths have a live state on a node.
  abbrev pub KnowsMany : S.Store → String → Type 0
  KnowsMany s n =
      (ps : List String) × Distinct ps
      × ((p : String) → contains p ps ≡ true → is_live (S.get s n p) ≡ true)
      × (10 < length ps)

  few_of_check :
      (fs : List FileEntry) (s : S.Store) (n : String)
      → SL.IsValid s
      → check_not_wiped fs (index_states (S.all s n)) ≡ none
      → fs ≡ []
      → ¬ KnowsMany s n
  unfolding check_not_wiped
  few_of_check (f ∷ fs) s n v h e many = cc e
  few_of_check [] s n v h e (ps, u, live, long) =
      let d = index_states (S.all s n) in
      let bound =
        length-le-count_live ps d u (λ p m. ap is_live (SL.lookup-all s n p v) ∙ live p m) in
      ground (arith, h, bound)

  check_of_few :
      (fs : List FileEntry) (s : S.Store) (n : String)
      → SL.IsValid s
      → (fs ≡ [] → ¬ KnowsMany s n)
      → check_not_wiped fs (index_states (S.all s n)) ≡ none
  unfolding check_not_wiped
  check_of_few (f ∷ fs) s n v h = refl
  check_of_few [] s n v h =
      let d = index_states (S.all s n) in
      let u = index_states-NodupKeys (S.all s n) in
      elim (Bool-cases (ltb wipe_threshold (count_live (values d)))) [
        | inr few ↦ rw few refl
        | inl many ↦ absurd (
            h refl (
              live_keys d,
              live_keys-Distinct d u,
              (λ p m.
                  ap is_live (sym (SL.lookup-all s n p v)) ∙ sym (contains-live_keys p d u) ∙ m),
              ground (arith, many, length-live_keys d),
            ))
      ]

  module _ (D : Digest) (A B : Node) (now : Clock) (strategy : ConflictStrategy) where
    -- `Sync` goes ahead.
    abbrev pub GoesAhead : Outcome D S A B now strategy → Type 0
    GoesAhead o = (g : Progress S A B) × (o ≡ done g)

    GoesAhead-checks :
        (fs gs : List FileEntry) (s : S.Store) (a : A.State) (b : B.State)
        → GoesAhead (sync_listed D S A B now strategy fs gs s a b)
          ↔ (check_not_wiped fs (index_states (S.all s A.id)) ≡ none)
            × (check_not_wiped gs (index_states (S.all s B.id)) ≡ none)
    unfolding sync_listed
    GoesAhead-checks fs gs s a b = (
      λ (g, e). (ground (arith, e), ground (arith, e)),
      λ (p, q). (
        sync_trees D S A B now strategy fs gs (snapshot D S A B now strategy fs gs s) s a b,
        rw (p, q, sync_listed) refl,
      ),
    )

    -- Over two listings and a valid store `Sync` goes ahead exactly where no node that lists no
    -- file has more than ten paths with a state that is no tombstone: the loss of all the files of
    -- a node is not taken for their deletion, on either side, and nothing else is refused.
    pub sync-not_wiped :
        (s : S.Store) (a : A.State) (b : B.State) (fs gs : List FileEntry)
        → SL.IsValid s
        → A.list_files a ≡ ok fs
        → B.list_files b ≡ ok gs
        → GoesAhead (sync D S A B now strategy s a b)
          ↔ (fs ≡ [] → ¬ KnowsMany s A.id) × (gs ≡ [] → ¬ KnowsMany s B.id)
    unfolding sync
    sync-not_wiped s a b fs gs v la lb =
        let checks = GoesAhead-checks fs gs s a b in
        rw (la, lb, sync)
          (
            λ ahead.
                let c = checks.0 ahead in
                (few_of_check fs s A.id v c.0, few_of_check gs s B.id v c.1),
            λ (p, q). checks.1 (check_of_few fs s A.id v p, check_of_few gs s B.id v q),
          )
