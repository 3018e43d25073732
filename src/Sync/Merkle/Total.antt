-- ===== src/Sync/Merkle/Total.antt =====
-- `buildLevel` ends: the fuel is the number of leaves, and each level above the last is shorter.
use sync_vault.Base.{
  ℕ, zero, suc, ◌≤◌, ◌<◌, ◌≡◌, refl, ◌≢◌, List, [], ◌∷◌, map, some, arith, length,
}
use sync_vault.Sync.Files.{FileEntry, sort_entries, entry_at, entry_at-sort_entries}
use sync_vault.Base.{ap, string_eq, ==-refl}
use sync_vault.Sync.Merkle.{Digest, MerkleNode, leaf_of, pair_up, build_level, build_merkle_tree}

module _ (D : Digest) where
  length-pair_up-le : (ns : List MerkleNode) → length (pair_up D ns) ≤ length ns
  unfolding pair_up
  length-pair_up-le [] = omega arith
  length-pair_up-le (a ∷ []) = omega arith
  length-pair_up-le (a ∷ b ∷ rest) = omega (arith, length-pair_up-le rest)

  -- Enough fuel gives a root, over at least one node.
  pub build_level_total :
      (f : ℕ) (n : MerkleNode) (ns : List MerkleNode)
      → length ns < f
      → (t : MerkleNode) × (build_level D f (n ∷ ns) ≡ some t)
  unfolding build_level pair_up
  build_level_total zero n ns h = absurd (omega arith)
  build_level_total (suc f) n [] h = (n, refl)
  build_level_total (suc f) n (b ∷ rest) h =
      build_level_total f _ (pair_up D rest) (omega (arith, length-pair_up-le rest))

  length-map : (fs : List FileEntry) → length (map (leaf_of D) fs) ≡ length fs
  length-map [] = refl
  length-map (f ∷ fs) = ap suc (length-map fs)

  pub build_leaves :
      (fs : List FileEntry)
      → fs ≢ []
      → (t : MerkleNode) × (build_level D (length fs) (map (leaf_of D) fs) ≡ some t)
  build_leaves [] h = absurd (h refl)
  build_leaves (f ∷ fs) h =
      build_level_total _ (leaf_of D f) (map (leaf_of D) fs) (omega (arith, length-map fs))

  pub sort_entries-ne-nil : (f : FileEntry) (fs : List FileEntry) → sort_entries (f ∷ fs) ≢ []
  unfolding entry_at
  sort_entries-ne-nil f fs h =
      ground (arith, ap (entry_at f.path) h, entry_at-sort_entries f.path (f ∷ fs), ==-refl f.path)

  -- `BuildMerkleTree` gives every listing a root: its recursion never runs out of fuel.
  pub build_merkle_tree_root :
      (fs : List FileEntry) → (t : MerkleNode) × ((build_merkle_tree D fs).root ≡ some t)
  unfolding build_merkle_tree
  build_merkle_tree_root [] = (_, refl)
  build_merkle_tree_root (f ∷ fs) = build_leaves (sort_entries (f ∷ fs)) (sort_entries-ne-nil f fs)
