-- ===== src/Sync/Merkle/Agreement.antt =====
-- The comparison of root hashes that `Sync` and `Diff` make first.
use sync_vault.Base.{
  ℕ, ◌≡◌, refl, sym, ap, ◌∙◌, ◌⊎◌, inl, inr, String, List, [], ◌∷◌, map, some, arith, All, length,
  string_eq, Option-cases, ==-refl,
}
use sync_vault.Base.Text.{width, width-append, holds}
use sync_vault.Sync.Files.{
  FileEntry, entry_at, NodupPaths, sort_entries, sort_entries-All, sort_entries-NodupPaths,
  entry_at-sort_entries, entry_at-path, hash_at, hash_of,
}
use sync_vault.Sync.Merkle.{
  Digest, MerkleNode, node_hash, leaf_of, hash_of_root, root_hash, build_merkle_tree, build_level,
}
use sync_vault.Sync.Merkle.Roots.{
  In, Collide, Collide-map, Collide_sym, Collision, Texts, Texts-leaf_text, Hashes, Over, over_leaf,
  over_branch, build_level-Over, build_level-Occurs, leaves-Over, leaves-OccursIn,
}
use sync_vault.Sync.Merkle.Soundness.{IsHex, SameFile, All-In, Over-width, holds-leaf_text, found}
use sync_vault.Sync.Merkle.Total.{build_leaves, sort_entries-ne-nil}

-- Membership and `entry_at` agree on a listing with distinct paths.
In-entry_at :
    (f : FileEntry) (fs : List FileEntry) → NodupPaths fs → In f fs → entry_at f.path fs ≡ some f
unfolding entry_at
In-entry_at f [] u m = absurd m
In-entry_at f (g ∷ gs) (fresh, u) (inl e) = ground (arith, ==-refl g.path)
In-entry_at f (g ∷ gs) (fresh, u) (inr m) = ground (arith, In-entry_at f gs u m)

entry_at-In : (p : String) (fs : List FileEntry) (f : FileEntry) → entry_at p fs ≡ some f → In f fs
unfolding entry_at
entry_at-In p [] f h = cc
entry_at-In p (g ∷ gs) f h = ground (arith, entry_at-In p gs f)

abbrev Includes : List FileEntry → List FileEntry → Type 0
Includes fs gs = (f : FileEntry) → In f fs → (g : FileEntry) × In g gs × SameFile f g

module _ (D : Digest) where
  collect_found :
      (P Q : String → Type 0) (fs gs : List FileEntry)
      → ((f : FileEntry) → In f fs → ((g : FileEntry) × In g gs × SameFile f g) ⊎ Collide D P Q)
      → Includes fs gs ⊎ Collide D P Q
  collect_found P Q [] gs h = inl (λ f m. absurd m)
  collect_found P Q (f ∷ fs) gs h = elim (h f (inl refl)) [
    | inr c ↦ inr c
    | inl here ↦ elim (collect_found P Q fs gs (λ g m. h g (inr m))) [
      | inr c ↦ inr c
      | inl rest ↦ inl (extend here rest)
    ]
  ]
    where
      extend : ((g : FileEntry) × In g gs × SameFile f g) → Includes fs gs → Includes (f ∷ fs) gs
      extend here rest k (inl e) =
          (here.0, here.1, (ap (λ x. x.path) e ∙ here.2.0, ap (λ x. x.hash) e ∙ here.2.1))
      extend here rest k (inr m) = rest k m

  -- Trees of leaves with the same root hash.
  levels_agree :
      (fs gs : List FileEntry) (j k : ℕ) (t u : MerkleNode)
      → All IsHex fs
      → All IsHex gs
      → build_level D j (map (leaf_of D) fs) ≡ some t
      → build_level D k (map (leaf_of D) gs) ≡ some u
      → node_hash t ≡ node_hash u
      → Includes fs gs ⊎ Collide D (Texts D fs t) (Texts D gs u)
  levels_agree fs gs j k t u hf hg et eu h =
      collect_found (Texts D fs t) (Texts D gs u) fs gs λ f m.
        found D (Texts D fs t) (Texts D gs u) f fs gs t u (All-In IsHex f fs hf m) hg
          (Texts-leaf_text D f fs t m)
          (build_level-Over D fs j _ t (leaves-Over D fs fs (λ g i. i)) et)
          (build_level-Over D gs k _ u (leaves-Over D gs gs (λ g i. i)) eu) (λ s x. x) (λ s x. x) h
          (build_level-Occurs D f j _ t (leaves-OccursIn D f fs m) et)

  abbrev IsBlank : String → Type 0
  IsBlank s = s ≡ ""

  -- No root of a tree with leaves is the hash of the empty tree.
  root_not_empty :
      (fs : List FileEntry) (t : MerkleNode)
      → Over D fs t
      → node_hash t ≡ D.digest ""
      → Collide D (Texts D fs t) IsBlank
  unfolding width holds
  root_not_empty fs t (over_leaf f m) h =
      (_, _, (f, m, refl), refl, (λ e. ground (arith, ap (holds b':') e, holds-leaf_text f)), h)
  root_not_empty fs t (over_branch {a} {b} oa ob) h = (
    _,
    _,
    inl refl,
    refl,
    (λ e. absurd (
        omega (arith, ap width e, width-append (node_hash a) (node_hash b), Over-width D fs a oa))),
    h,
  )

hash_at_of_Includes :
    (fs gs : List FileEntry) (p : String) (f : FileEntry)
    → NodupPaths gs
    → Includes fs gs
    → entry_at p fs ≡ some f
    → hash_at p gs ≡ some f.hash
hash_at_of_Includes fs gs p f u inc e =
    let (g, m, same) = inc f (entry_at-In p fs f e) in
    ap (λ q. hash_at q gs) (sym (entry_at-path p fs f e) ∙ same.0)
    ∙ ap hash_of (In-entry_at g gs u m)
    ∙ ap some (sym same.1)

abbrev pub Agree : List FileEntry → List FileEntry → Type 0
Agree fs gs = (p : String) → hash_at p fs ≡ hash_at p gs

Agree-of_Includes :
    (fs gs : List FileEntry)
    → NodupPaths fs
    → NodupPaths gs
    → Includes fs gs
    → Includes gs fs
    → Agree fs gs
Agree-of_Includes fs gs uf ug i j p = elim (Option-cases (entry_at p fs)) [
  | inr (f, e) ↦ ap hash_of e ∙ sym (hash_at_of_Includes fs gs p f ug i e)
  | inl e ↦ elim (Option-cases (entry_at p gs)) [
    | inl e' ↦ ap hash_of e ∙ sym (ap hash_of e')
    | inr (g, e') ↦ absurd (ground (arith, hash_at_of_Includes gs fs p g uf j e'))
  ]
]

module _ (D : Digest) where
  abbrev Rooted : List FileEntry → MerkleNode → Type 0
  Rooted fs t = build_level D (length fs) (map (leaf_of D) fs) ≡ some t

  sorted-Agree :
      (fs gs : List FileEntry) (t u : MerkleNode)
      → NodupPaths fs
      → NodupPaths gs
      → All IsHex fs
      → All IsHex gs
      → Rooted fs t
      → Rooted gs u
      → node_hash t ≡ node_hash u
      → Agree fs gs ⊎ Collide D (Texts D fs t) (Texts D gs u)
  sorted-Agree fs gs t u uf ug hf hg et eu h = elim (levels_agree D fs gs _ _ t u hf hg et eu h) [
    | inr c ↦ inr c
    | inl i ↦ elim (levels_agree D gs fs _ _ u t hg hf eu et (sym h)) [
      | inr c ↦ inr (Collide_sym D (Texts D gs u) (Texts D fs t) c)
      | inl j ↦ inl (Agree-of_Includes fs gs uf ug i j)
    ]
  ]

  -- The root of the tree of a listing that is not empty.
  abbrev rooted :
      (f : FileEntry) (fs : List FileEntry) → (t : MerkleNode) × Rooted (sort_entries (f ∷ fs)) t
  rooted f fs = build_leaves D (sort_entries (f ∷ fs)) (sort_entries-ne-nil D f fs)

  root_hash-rooted :
      (f : FileEntry) (fs : List FileEntry)
      → root_hash D (build_merkle_tree D (f ∷ fs)) ≡ node_hash (rooted f fs).0
  unfolding root_hash build_merkle_tree
  root_hash-rooted f fs = ap (hash_of_root D) (rooted f fs).1

  root_hash-empty : root_hash D (build_merkle_tree D []) ≡ D.digest ""
  unfolding root_hash build_merkle_tree
  root_hash-empty = refl

  Hashes-rooted :
      (f : FileEntry) (fs : List FileEntry) (s : String)
      → Texts D (sort_entries (f ∷ fs)) (rooted f fs).0 s
      → Hashes D (build_merkle_tree D (f ∷ fs)) s
  unfolding build_merkle_tree
  Hashes-rooted f fs s x = inr ((rooted f fs).0, (rooted f fs).1, x)

  Hashes-IsBlank : (s : String) → IsBlank D s → Hashes D (build_merkle_tree D []) s
  unfolding build_merkle_tree
  Hashes-IsBlank s x = inl (refl, x)

  rooted_not_empty :
      (f : FileEntry) (fs : List FileEntry)
      → node_hash (rooted f fs).0 ≡ D.digest ""
      → Collision D (build_merkle_tree D (f ∷ fs)) (build_merkle_tree D [])
  rooted_not_empty f fs h =
      let es = sort_entries (f ∷ fs) in
      let t = (rooted f fs).0 in
      Collide-map D (Texts D es t) (Hashes D (build_merkle_tree D (f ∷ fs))) (IsBlank D)
        (Hashes D (build_merkle_tree D [])) (Hashes-rooted f fs) Hashes-IsBlank
        (root_not_empty D es t
          (build_level-Over D es _ _ t (leaves-Over D es es (λ g i. i)) (rooted f fs).1) h)

  -- Where the trees of two listings have one root hash, the listings give every path the same hash
  -- or none, or else a text hashed for the one tree and a different text hashed for the other have
  -- the same digest. No path is listed twice, and the hashes of the files hold no colon.
  pub root_hash-Agree :
      (fs gs : List FileEntry)
      → NodupPaths fs
      → NodupPaths gs
      → All IsHex fs
      → All IsHex gs
      → root_hash D (build_merkle_tree D fs) ≡ root_hash D (build_merkle_tree D gs)
      → Agree fs gs ⊎ Collision D (build_merkle_tree D fs) (build_merkle_tree D gs)
  root_hash-Agree [] [] uf ug hf hg h = inl (λ p. refl)
  root_hash-Agree [] (g ∷ gs) uf ug hf hg h = inr (
      Collide_sym D (Hashes D (build_merkle_tree D (g ∷ gs))) (Hashes D (build_merkle_tree D []))
        (rooted_not_empty g gs (sym (root_hash-rooted g gs) ∙ sym h ∙ root_hash-empty)))
  root_hash-Agree (f ∷ fs) [] uf ug hf hg h =
      inr (rooted_not_empty f fs (sym (root_hash-rooted f fs) ∙ h ∙ root_hash-empty))
  root_hash-Agree (f ∷ fs) (g ∷ gs) uf ug hf hg h =
      let xs = sort_entries (f ∷ fs) in
      let ys = sort_entries (g ∷ gs) in
      let t = (rooted f fs).0 in
      let u = (rooted g gs).0 in
      elim (sorted-Agree xs ys t u (sort_entries-NodupPaths (f ∷ fs) uf)
        (sort_entries-NodupPaths (g ∷ gs) ug) (sort_entries-All IsHex (f ∷ fs) hf)
        (sort_entries-All IsHex (g ∷ gs) hg) (rooted f fs).1 (rooted g gs).1
        (sym (root_hash-rooted f fs) ∙ h ∙ root_hash-rooted g gs)) [
          | inr c ↦ inr (
              Collide-map D (Texts D xs t) (Hashes D (build_merkle_tree D (f ∷ fs))) (Texts D ys u)
                (Hashes D (build_merkle_tree D (g ∷ gs))) (Hashes-rooted f fs) (Hashes-rooted g gs)
                c)
          | inl agree ↦ inl (λ p.
              sym (ap hash_of (entry_at-sort_entries p (f ∷ fs)))
              ∙ agree p
              ∙ ap hash_of (entry_at-sort_entries p (g ∷ gs)))
        ]
