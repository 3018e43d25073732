-- ===== src/Tests/Trees.antt =====
-- Trees and changes at concrete data.
use sync_vault.Base.{
  ◌≡◌, refl, sym, ap, subst, ◌∙◌, ◌⊎◌, inl, inr, ◌≢◌, String, false, All, List, [], ◌∷◌, some,
  arith, string_eq, contains,
}
use text.Mathlib.TextEquality.{eq_iff}
use sync_vault.Base.Text.{holds, text_lt}
use sync_vault.Base.Dict.{lookup}
use sync_vault.Sync.Clock.{count, compare, concurrent}
use sync_vault.Sync.Files.{FileEntry, sort_entries, NodupPaths, entry_at, hash_at}
use sync_vault.Sync.Merkle.{
  Digest, MerkleNode, leaf, leaf_text, hash_leaf, build_merkle_tree, root_hash, diff,
}
use sync_vault.Sync.Merkle.Roots.{In, Texts, Hashes, Collision}
use sync_vault.Sync.Merkle.Soundness.{IsHex}
use sync_vault.Sync.Merkle.Total.{build_merkle_tree_root}
use sync_vault.Sync.Merkle.Agreement.{root_hash-Agree}
use sync_vault.Sync.Merkle.Diff.{contains-diff, differ}
use sync_vault.Sync.State.{FileState, observe}
use sync_vault.Sync.Engine.Detection.{observe-compare, expected}
use sync_vault.Tests.Nodes.{toy}

abbrev file : String → String → FileEntry
file p h = record { path = p; hash = h; size = 1; mod_time = 5 }

abbrev here : List FileEntry
here = file "b" "2" ∷ file "a" "1" ∷ file "c" "3" ∷ []

abbrev there : List FileEntry
there = file "a" "1" ∷ file "b" "9" ∷ []

here-NodupPaths : NodupPaths here
unfolding entry_at string_eq
here-NodupPaths = (refl, (refl, (refl, tt)))

there-NodupPaths : NodupPaths there
unfolding entry_at string_eq
there-NodupPaths = (refl, (refl, tt))

here-IsHex : All IsHex here
unfolding holds
here-IsHex = (refl, (refl, (refl, tt)))

there-IsHex : All IsHex there
unfolding holds
there-IsHex = (refl, (refl, tt))

build_merkle_tree_root_example : (t : MerkleNode) × ((build_merkle_tree toy here).root ≡ some t)
build_merkle_tree_root_example = build_merkle_tree_root toy here

abbrev moved : List FileEntry
moved = file "a" "1" ∷ file "b" "2" ∷ file "c" "3" ∷ []

moved-NodupPaths : NodupPaths moved
unfolding entry_at string_eq
moved-NodupPaths = (refl, (refl, (refl, tt)))

moved-IsHex : All IsHex moved
unfolding holds
moved-IsHex = (refl, (refl, (refl, tt)))

root_hash-Agree_example :
    ((p : String) → hash_at p here ≡ hash_at p moved)
    ⊎ Collision toy (build_merkle_tree toy here) (build_merkle_tree toy moved)
unfolding build_merkle_tree root_hash sort_entries text_lt
root_hash-Agree_example =
    root_hash-Agree toy here moved here-NodupPaths moved-NodupPaths here-IsHex moved-IsHex refl

contains-diff_example :
    ((p : String)
      → contains p (diff toy (build_merkle_tree toy here) (build_merkle_tree toy there))
        ≡ differ (hash_at p here) (hash_at p there))
    ⊎ Collision toy (build_merkle_tree toy here) (build_merkle_tree toy there)
contains-diff_example =
    contains-diff toy here there here-NodupPaths there-NodupPaths here-IsHex there-IsHex

-- The tree of one file hashes one text, under every digest, so that there is nothing to collide.
one_text :
    (D : Digest) (f : FileEntry) (s : String)
    → Hashes D (build_merkle_tree D (f ∷ [])) s
    → s ≡ leaf_text f
unfolding build_merkle_tree sort_entries
one_text D f s (inl (e, blank)) = absurd (cc e)
one_text D f s (inr (n, e, x)) =
    let root : n ≡ leaf (hash_leaf D f) f.path = cc (sym e) in
    of_leaf (subst (λ k. Texts D (f ∷ []) k s) root x)
  where
    of_leaf : ((g : FileEntry) × In g (f ∷ []) × (s ≡ leaf_text g)) → s ≡ leaf_text f
    of_leaf (g, inl q, r) = r ∙ ap leaf_text q
    of_leaf (g, inr m, r) = absurd m

no_clash :
    (D : Digest) (f : FileEntry)
    → ¬ Collision D (build_merkle_tree D (f ∷ [])) (build_merkle_tree D (f ∷ []))
no_clash D f (s, t, hs, ht, differ, e) = differ (one_text D f s hs ∙ sym (one_text D f t ht))

abbrev recorded : String → FileState
recorded n = record {
  path = "f";
  hash = "1";
  size = 1;
  clock = ("a", 4) ∷ ("b", 2) ∷ [];
  updated_at = 7;
  node_id = n;
  deleted = false;
}

a_not_b : ◌≢◌ {A = String} "a" "b"
a_not_b = ground (arith, eq_iff "a" "b")

observe-compare_example :
    compare
      (observe "a" (file "f" "2") (recorded "a") 9).clock
      (observe "b" (file "f" "3") (recorded "b") 9).clock
    ≡ concurrent
unfolding string_eq count lookup expected
observe-compare_example =
    observe-compare "a" "b" (file "f" "2") (file "f" "3") (recorded "a") (recorded "b") 9 9 a_not_b
      (λ n. refl) (omega arith) (omega arith)
