-- ===== src/Sync/Merkle.antt =====
-- internal/sync/merkletree.go, over a digest: SHA-256 in hexadecimal.
pub mod Roots
pub mod Agreement
pub mod Soundness
pub mod Total
pub mod Diff
pub mod Distinct
use sync_vault.Base.{
  ℕ, zero, suc, ◌≡◌, ◌≢◌, String, ◌<>◌, Bool, true, false, not, List, [], ◌∷◌, ◌++◌, map, Option,
  none, some, ◌==◌, contains, string_eq, if◌then◌else◌, length,
}
use sync_vault.Base.Dict.{Dict, lookup, insert, keys}
use sync_vault.Base.Text.{width, holds}
use sync_vault.Sync.Files.{FileEntry, sort_entries, sort_texts}

-- What the tree relies on of the digest: its form, and nothing about collisions.
pub record Digest : Type 0 where
  pub digest : String → String
  pub width-digest : (s : String) → width (digest s) ≡ 64
  pub holds-digest : (s : String) → holds b':' (digest s) ≡ false

pub data MerkleNode : Type 0 where
  leaf : String → String → MerkleNode
  branch : String → MerkleNode → MerkleNode → MerkleNode

abbrev pub node_hash : MerkleNode → String
node_hash (leaf hash path) = hash
node_hash (branch hash left right) = hash

pub record MerkleTree : Type 0 where
  pub root : Option MerkleNode
  pub entries : List FileEntry

-- What `hashLeaf` hashes.
abbrev pub leaf_text : FileEntry → String
leaf_text f = f.path <> (":" <> f.hash)

module _ (D : Digest) where
  abbrev pub hash_leaf : FileEntry → String
  hash_leaf f = D.digest (leaf_text f)

  abbrev pub hash_pair : String → String → String
  hash_pair a b = D.digest (a <> b)

  abbrev pub empty_hash : String
  empty_hash = D.digest ""

  abbrev pub leaf_of : FileEntry → MerkleNode
  leaf_of f = leaf (hash_leaf f) f.path

  abbrev pub join : MerkleNode → MerkleNode → MerkleNode
  join a b = branch (hash_pair (node_hash a) (node_hash b)) a b

  -- One level up: neighbours are joined, and an odd last node is joined with itself.
  unfoldable pub pair_up : List MerkleNode → List MerkleNode
  pair_up [] = []
  pair_up (a ∷ []) = join a a ∷ []
  pair_up (a ∷ b ∷ rest) = join a b ∷ pair_up rest

  -- The recursion of `buildLevel`, on fuel.
  unfoldable pub build_level : ℕ → List MerkleNode → Option MerkleNode
  unfolding pair_up
  build_level zero nodes = none
  build_level (suc f) [] = none
  build_level (suc f) (a ∷ []) = some a
  build_level (suc f) (a ∷ b ∷ rest) = build_level f (pair_up (a ∷ b ∷ rest))

  unfoldable pub build_merkle_tree : List FileEntry → MerkleTree
  unfolding build_level
  build_merkle_tree [] = record { root = some (leaf empty_hash ""); entries = [] }
  build_merkle_tree (f ∷ fs) = record {
    root = build_level (length (sort_entries (f ∷ fs))) (map leaf_of (sort_entries (f ∷ fs)));
    entries = sort_entries (f ∷ fs);
  }

  abbrev pub hash_of_root : Option MerkleNode → String
  hash_of_root none = empty_hash
  hash_of_root (some n) = node_hash n

  unfoldable pub root_hash : MerkleTree → String
  root_hash t = hash_of_root t.root

-- `m[e.Path] = e.Hash` for each entry.
unfoldable pub add_hashes : Dict String String → List FileEntry → Dict String String
add_hashes m [] = m
add_hashes m (f ∷ fs) = add_hashes (insert f.path f.hash m) fs

-- `!ok || aHash != bHash`
abbrev pub differs : String → Option String → Bool
differs h none = true
differs h (some g) = not (h == g)

-- The loop over the first map, and the loop over the second: `seen` is the first map's keys.
unfoldable pub changed : Dict String String → Dict String String → List String
changed [] b = []
changed ((p, h) ∷ a) b = let rest = changed a b in if differs h (lookup p b) then p ∷ rest else rest

unfoldable pub added : List String → Dict String String → List String
added seen [] = []
added seen ((p, h) ∷ b) = let rest = added seen b in if contains p seen then rest else p ∷ rest

-- `Diff` past its comparison of the roots.
unfoldable pub diff_entries : List FileEntry → List FileEntry → List String
unfolding add_hashes changed added
diff_entries fs gs =
    let a = add_hashes [] fs in
    let b = add_hashes [] gs in sort_texts (changed a b ++ added (keys a) b)

unfoldable pub diff : (D : Digest) → MerkleTree → MerkleTree → List String
unfolding diff_entries
diff D a b = if root_hash D a == root_hash D b then [] else diff_entries a.entries b.entries
