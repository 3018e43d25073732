-- ===== src/Sync/Merkle/Roots.antt =====
-- What a tree hashes, and that it stands over its listing.

use sync_vault.Base.{
  ℕ, zero, suc, ◌≡◌, refl, sym, ap, subst, ◌≢◌, ◌⊎◌, inl, inr, String, List, [], ◌∷◌, map, some,
  All, string_eq, ◌<>◌,
}
use sync_vault.Sync.Files.{FileEntry}
use sync_vault.Sync.Merkle.{
  Digest, MerkleNode, MerkleTree, leaf, branch, node_hash, leaf_text, hash_leaf, hash_pair, leaf_of,
  pair_up, build_level,
}

abbrev pub In : {A : Type 0} → A → List A → Type 0
In a [] = ⊥
In a (x ∷ xs) = (a ≡ x) ⊎ In a xs

module _ (D : Digest) where
  -- A text of one kind and a different one of another, with one digest.
  abbrev pub Collide : (String → Type 0) → (String → Type 0) → Type 0
  Collide P Q = (s : String) × (t : String) × P s × Q t × (s ≢ t) × (D.digest s ≡ D.digest t)

  pub Collide-map :
      (P P' Q Q' : String → Type 0)
      → ((s : String) → P s → P' s)
      → ((s : String) → Q s → Q' s)
      → Collide P Q
      → Collide P' Q'
  Collide-map P P' Q Q' f g (s, t, p, q, n, h) = (s, t, f s p, g t q, n, h)

  pub Collide_sym : (P Q : String → Type 0) → Collide P Q → Collide Q P
  Collide_sym P Q (s, t, p, q, n, h) = (t, s, q, p, (λ e. n (sym e)), sym h)

  -- Equal digests come from equal texts, or the texts collide.
  pub same_or_collide :
      (P Q : String → Type 0) (s t : String)
      → P s
      → Q t
      → D.digest s ≡ D.digest t
      → (s ≡ t) ⊎ Collide P Q
  same_or_collide P Q s t p q h = elim (string_eq.dec s t) [
    | yes e ↦ inl e
    | no n ↦ inr (s, t, p, q, n, h)
  ]

  -- The texts that a tree over the entries hashes: those of the entries, and those of the branches.
  abbrev pub Texts : List FileEntry → MerkleNode → String → Type 0
  Texts fs (leaf hash path) s = (f : FileEntry) × In f fs × (s ≡ leaf_text f)
  Texts fs (branch hash a b) s = (s ≡ node_hash a <> node_hash b) ⊎ Texts fs a s ⊎ Texts fs b s

  pub Texts-leaf_text :
      (f : FileEntry) (fs : List FileEntry) (t : MerkleNode) → In f fs → Texts fs t (leaf_text f)
  Texts-leaf_text f fs (leaf hash path) m = (f, m, refl)
  Texts-leaf_text f fs (branch hash a b) m = inr (inl (Texts-leaf_text f fs a m))

  -- The texts that `BuildMerkleTree` hashes for a tree: the empty one where there is no entry.
  abbrev pub Hashes : MerkleTree → String → Type 0
  Hashes tree s =
      ((tree.entries ≡ []) × (s ≡ ""))
      ⊎ ((n : MerkleNode) × (tree.root ≡ some n) × Texts tree.entries n s)

  -- A text that is hashed for one tree and a different one that is hashed for the other have the
  -- same digest.
  abbrev pub Collision : MerkleTree → MerkleTree → Type 0
  Collision a b = Collide (Hashes a) (Hashes b)

  -- A tree over the entries of a listing.
  pub data Over (fs : List FileEntry) : MerkleNode → Type 0 where
    over_leaf : (f : FileEntry) → In f fs → Over fs (leaf (hash_leaf D f) f.path)
    over_branch :
        {a b : MerkleNode}
        → Over fs a
        → Over fs b
        → Over fs (branch (hash_pair D (node_hash a) (node_hash b)) a b)

  -- An entry stands at a leaf.
  abbrev pub Occurs : FileEntry → MerkleNode → Type 0
  Occurs f (leaf hash path) = hash ≡ hash_leaf D f
  Occurs f (branch hash a b) = Occurs f a ⊎ Occurs f b

  abbrev pub OccursIn : FileEntry → List MerkleNode → Type 0
  OccursIn f [] = ⊥
  OccursIn f (n ∷ ns) = Occurs f n ⊎ OccursIn f ns

  pair_up-Over :
      (fs : List FileEntry) (ns : List MerkleNode) → All (Over fs) ns → All (Over fs) (pair_up D ns)
  unfolding pair_up
  pair_up-Over fs [] h = tt
  pair_up-Over fs (a ∷ []) h = (over_branch h.0 h.0, tt)
  pair_up-Over fs (a ∷ b ∷ rest) (ha, (hb, h)) = (over_branch ha hb, pair_up-Over fs rest h)

  pair_up-OccursIn :
      (f : FileEntry) (ns : List MerkleNode) → OccursIn f ns → OccursIn f (pair_up D ns)
  unfolding pair_up
  pair_up-OccursIn f [] h = h
  pair_up-OccursIn f (a ∷ []) (inl h) = inl (inl h)
  pair_up-OccursIn f (a ∷ []) (inr h) = absurd h
  pair_up-OccursIn f (a ∷ b ∷ rest) (inl h) = inl (inl h)
  pair_up-OccursIn f (a ∷ b ∷ rest) (inr (inl h)) = inl (inr h)
  pair_up-OccursIn f (a ∷ b ∷ rest) (inr (inr h)) = inr (pair_up-OccursIn f rest h)

  pub build_level-Over :
      (fs : List FileEntry) (k : ℕ) (ns : List MerkleNode) (t : MerkleNode)
      → All (Over fs) ns
      → build_level D k ns ≡ some t
      → Over fs t
  unfolding build_level
  build_level-Over fs zero ns t h e = absurd (cc)
  build_level-Over fs (suc k) [] t h e = absurd (cc)
  build_level-Over fs (suc k) (a ∷ []) t h e = subst (Over fs) ((cc)) h.0
  build_level-Over fs (suc k) (a ∷ b ∷ rest) t h e =
      build_level-Over fs k (pair_up D (a ∷ b ∷ rest)) t (pair_up-Over fs (a ∷ b ∷ rest) h) e

  pub build_level-Occurs :
      (f : FileEntry) (k : ℕ) (ns : List MerkleNode) (t : MerkleNode)
      → OccursIn f ns
      → build_level D k ns ≡ some t
      → Occurs f t
  unfolding build_level
  build_level-Occurs f zero ns t h e = absurd (cc)
  build_level-Occurs f (suc k) [] t h e = absurd (cc)
  build_level-Occurs f (suc k) (a ∷ []) t (inl h) e = subst (Occurs f) ((cc)) h
  build_level-Occurs f (suc k) (a ∷ []) t (inr h) e = absurd h
  build_level-Occurs f (suc k) (a ∷ b ∷ rest) t h e =
      build_level-Occurs f k (pair_up D (a ∷ b ∷ rest)) t (pair_up-OccursIn f (a ∷ b ∷ rest) h) e

  pub leaves-Over :
      (fs all : List FileEntry)
      → ((f : FileEntry) → In f fs → In f all)
      → All (Over all) (map (leaf_of D) fs)
  leaves-Over [] all h = tt
  leaves-Over (f ∷ fs) all h =
      (over_leaf f (h f (inl refl)), leaves-Over fs all (λ g m. h g (inr m)))

  pub leaves-OccursIn :
      (f : FileEntry) (fs : List FileEntry) → In f fs → OccursIn f (map (leaf_of D) fs)
  leaves-OccursIn f (g ∷ fs) (inl e) = inl (ap (hash_leaf D) (sym e))
  leaves-OccursIn f (g ∷ fs) (inr m) = inr (leaves-OccursIn f fs m)
  leaves-OccursIn f [] m = absurd m
