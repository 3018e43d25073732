-- ===== src/Sync/Merkle/Soundness.antt =====
-- Equal root hashes mean equal listings, unless texts that the two trees hash collide.
use Prim.Native.String.append
use Prim.Native.String.{String}
use sync_vault.Base.{
  ◌≡◌, refl, sym, ap, ◌∙◌, subst, ◌⊎◌, inl, inr, ◌<>◌, true, false, List, [], ◌∷◌, arith, All,
  string_eq,
}
use sync_vault.Base.Text.{width, holds, append_inj, mark_inj, holds-append}
use sync_vault.Sync.Files.{FileEntry}
use sync_vault.Sync.Merkle.{Digest, MerkleNode, node_hash, leaf_text, hash_leaf, hash_pair}
use sync_vault.Sync.Merkle.Roots.{
  In, Collide, Collide_sym, same_or_collide, Texts, Over, over_leaf, over_branch, Occurs,
}

-- The hash of an entry holds no colon, as hexadecimal digits do not.
abbrev pub IsHex : FileEntry → Type 0
IsHex f = holds b':' f.hash ≡ false

abbrev pub SameFile : FileEntry → FileEntry → Type 0
SameFile f g = (f.path ≡ g.path) × (f.hash ≡ g.hash)

pub All-In :
    (P : FileEntry → Type 0) (f : FileEntry) (fs : List FileEntry) → All P fs → In f fs → P f
All-In P f [] h m = absurd m
All-In P f (g ∷ fs) h (inl e) = subst P (sym e) h.0
All-In P f (g ∷ fs) h (inr m) = All-In P f fs h.1 m

colon_text : (p h : String) → p <> (":" <> h) ≡ p <> String.◌∷◌ ":" h
colon_text p h = ap (λ s. p <> s) (append.cons ":" "" h ∙ ap (String.◌∷◌ ":") (append.nil h))

leaf_text_inj : (f g : FileEntry) → IsHex f → IsHex g → leaf_text f ≡ leaf_text g → SameFile f g
leaf_text_inj f g hf hg e =
    mark_inj ":" f.path f.hash g.path g.hash
      (sym (colon_text f.path f.hash) ∙ e ∙ colon_text g.path g.hash) hf hg

pub holds-leaf_text : (f : FileEntry) → holds b':' (leaf_text f) ≡ true
unfolding holds
holds-leaf_text f =
    ap (holds b':') (colon_text f.path f.hash) ∙ holds-append b':' f.path _ ∙ ground arith

module _ (D : Digest) where
  -- A node's hash is a digest.
  Over-digest :
      (fs : List FileEntry) (t : MerkleNode)
      → Over D fs t
      → (s : String) × (node_hash t ≡ D.digest s)
  Over-digest fs t (over_leaf f m) = (_, refl)
  Over-digest fs t (over_branch a b) = (_, refl)

  pub Over-width : (fs : List FileEntry) (t : MerkleNode) → Over D fs t → width (node_hash t) ≡ 64
  Over-width fs t o = let d = Over-digest fs t o in ap width d.1 ∙ D.width-digest d.0

  Over-holds :
      (fs : List FileEntry) (t : MerkleNode) → Over D fs t → holds b':' (node_hash t) ≡ false
  Over-holds fs t o = let d = Over-digest fs t o in ap (holds b':') d.1 ∙ D.holds-digest d.0

  pair_text_holds :
      (fs : List FileEntry) (a b : MerkleNode)
      → Over D fs a
      → Over D fs b
      → holds b':' (node_hash a <> node_hash b) ≡ false
  pair_text_holds fs a b oa ob =
      holds-append b':' (node_hash a) (node_hash b)
      ∙ ground (arith, Over-holds fs a oa, Over-holds fs b ob)

  -- A leaf cannot share its digest with a branch.
  leaf_or_branch :
      (P Q : String → Type 0) (f : FileEntry) (gs : List FileEntry) (a b : MerkleNode)
      → Over D gs a
      → Over D gs b
      → P (leaf_text f)
      → Q (node_hash a <> node_hash b)
      → hash_leaf D f ≡ hash_pair D (node_hash a) (node_hash b)
      → Collide D P Q
  leaf_or_branch P Q f gs a b oa ob p q h = (
    _,
    _,
    p,
    q,
    λ e. ground (arith, ap (holds b':') e, holds-leaf_text f, pair_text_holds gs a b oa ob),
    h,
  )

  module _ (P Q : String → Type 0) where
    abbrev Found : FileEntry → List FileEntry → Type 0
    Found f gs = ((g : FileEntry) × In g gs × SameFile f g) ⊎ Collide D P Q

    same_leaf :
        (f g : FileEntry) (gs : List FileEntry)
        → IsHex f
        → IsHex g
        → In g gs
        → P (leaf_text f)
        → Q (leaf_text g)
        → hash_leaf D f ≡ hash_leaf D g
        → Found f gs
    same_leaf f g gs hf hg m p q h = elim (same_or_collide D P Q _ _ p q h) [
      | inl e ↦ inl (g, m, leaf_text_inj f g hf hg e)
      | inr c ↦ inr c
    ]

    -- An entry at a leaf of a tree is an entry of any other tree with the same root hash, or a text
    -- of the one tree collides with one of the other.
    pub found :
        (f : FileEntry) (fs gs : List FileEntry) (t u : MerkleNode)
        → IsHex f
        → All IsHex gs
        → P (leaf_text f)
        → Over D fs t
        → Over D gs u
        → ((s : String) → Texts D fs t s → P s)
        → ((s : String) → Texts D gs u s → Q s)
        → node_hash t ≡ node_hash u
        → Occurs D f t
        → Found f gs
    found f fs gs t u hf hg pf (over_leaf f' m) (over_leaf g m') tp uq h e =
        same_leaf f g gs hf (All-In IsHex g gs hg m') m' pf (uq _ (g, m', refl)) (sym e ∙ h)
    found f fs gs t u hf hg pf (over_leaf f' m) (over_branch {a} {b} oa ob) tp uq h e =
        inr (leaf_or_branch P Q f gs a b oa ob pf (uq _ (inl refl)) (sym e ∙ h))
    found f fs gs t u hf hg pf (over_branch {a} {b} oa ob) (over_leaf g m') tp uq h e = inr (
        Collide_sym D Q P
          (leaf_or_branch Q P g fs a b oa ob (uq _ (g, m', refl)) (tp _ (inl refl)) (sym h)))
    found f fs gs t u hf hg pf (over_branch {a} {b} oa ob) (over_branch {a = c} {b = d} oc od) tp uq
          h e =
        elim (same_or_collide D P Q _ _ (tp _ (inl refl)) (uq _ (inl refl)) h) [
          | inr x ↦ inr x
          | inl cat ↦
              let parts =
                append_inj (node_hash a) (node_hash b) (node_hash c) (node_hash d) cat
                  (Over-width fs a oa ∙ sym (Over-width gs c oc)) in
              elim e [
                | inl ea ↦
                    found f fs gs a c hf hg pf oa oc (λ s x. tp s (inr (inl x)))
                      (λ s x. uq s (inr (inl x))) parts.0 ea
                | inr eb ↦
                    found f fs gs b d hf hg pf ob od (λ s x. tp s (inr (inr x)))
                      (λ s x. uq s (inr (inr x))) parts.1 eb
              ]
        ]
