-- ===== src/Sync/Merkle/Diff.antt =====
-- `Diff` lists exactly the paths at which two listings differ.
use sync_vault.Base.{
  ◌≡◌, refl, sym, ap, ◌∙◌, ◌⊎◌, inl, inr, String, Bool, true, false, ◌||◌, List, [], ◌∷◌, ◌++◌,
  Option, none, some, arith, All, string_eq, ◌==◌, contains, if◌then◌else◌, Bool-cases, ==-refl,
  eq_of_==,
}
use sync_vault.Base.Dict.{
  Dict, lookup, insert, keys, NodupKeys, lookup-insert, insert-NodupKeys, contains-keys,
}
use sync_vault.Sync.Files.{
  FileEntry, entry_at, NodupPaths, sort_entries, contains-sort_texts, sort_entries-NodupPaths,
  entry_at-sort_entries, hash_at, or_else,
}
use sync_vault.Sync.Merkle.{
  Digest, root_hash, build_merkle_tree, add_hashes, differs, changed, added, diff_entries, diff,
}
use sync_vault.Sync.Merkle.Roots.{Collision}
use sync_vault.Sync.Merkle.Soundness.{IsHex}
use sync_vault.Sync.Merkle.Agreement.{root_hash-Agree}

lookup-add_hashes :
    (p : String) (m : Dict String String) (fs : List FileEntry)
    → NodupPaths fs
    → lookup p (add_hashes m fs) ≡ or_else (hash_at p fs) (lookup p m)
unfolding add_hashes entry_at
lookup-add_hashes p m [] u = refl
lookup-add_hashes p m (f ∷ fs) (fresh, u) =
    lookup-add_hashes p (insert f.path f.hash m) fs u
    ∙ ground (arith, lookup-insert p f.path f.hash m)

pub add_hashes-NodupKeys :
    (m : Dict String String) (fs : List FileEntry) → NodupKeys m → NodupKeys (add_hashes m fs)
unfolding add_hashes
add_hashes-NodupKeys m [] u = u
add_hashes-NodupKeys m (f ∷ fs) u =
    add_hashes-NodupKeys (insert f.path f.hash m) fs (insert-NodupKeys f.path f.hash m u)

-- Whether two answers differ.
abbrev pub differ : Option String → Option String → Bool
differ none none = false
differ none (some g) = true
differ (some h) o = differs h o

abbrev changed_at : Option String → Option String → Bool
changed_at none o = false
changed_at (some h) o = differs h o

pub contains-changed :
    (p : String) (a b : Dict String String)
    → NodupKeys a
    → contains p (changed a b) ≡ changed_at (lookup p a) (lookup p b)
unfolding changed lookup
contains-changed p [] b u = refl
contains-changed p ((q, h) ∷ a) b (fresh, u) = ground (arith, contains-changed p a b u)

pub contains-added :
    (p : String) (seen : List String) (b : Dict String String)
    → contains p (added seen b) ≡ (if contains p seen then false else contains p (keys b))
unfolding added
contains-added p seen [] = ground arith
contains-added p seen ((q, h) ∷ b) = ground (arith, contains-added p seen b)

pub contains-append :
    (p : String) (xs ys : List String) → contains p (xs ++ ys) ≡ (contains p xs || contains p ys)
contains-append p [] ys = refl
contains-append p (x ∷ xs) ys = ground (arith, contains-append p xs ys)

contains-parts :
    (p : String) (a b : Dict String String)
    → NodupKeys a
    → contains p (changed a b ++ added (keys a) b) ≡ differ (lookup p a) (lookup p b)
contains-parts p a b u = ground (
  arith,
  contains-append p (changed a b) (added (keys a) b),
  contains-changed p a b u,
  contains-added p (keys a) b,
  contains-keys p a,
  contains-keys p b,
)

pub contains-diff_entries :
    (p : String) (fs gs : List FileEntry)
    → NodupPaths fs
    → NodupPaths gs
    → contains p (diff_entries fs gs) ≡ differ (hash_at p fs) (hash_at p gs)
unfolding diff_entries lookup
contains-diff_entries p fs gs uf ug =
    contains-sort_texts p _
    ∙ contains-parts p (add_hashes [] fs) (add_hashes [] gs) (add_hashes-NodupKeys [] fs tt)
    ∙ ground (arith, lookup-add_hashes p [] fs uf, lookup-add_hashes p [] gs ug)

pub differ_self : (o : Option String) → differ o o ≡ false
differ_self none = refl
differ_self (some h) = ground (arith, ==-refl h)

pub eq_of_differ : (o q : Option String) → differ o q ≡ false → o ≡ q
eq_of_differ none none h = refl
eq_of_differ none (some g) h = cc
eq_of_differ (some h) none d = cc
eq_of_differ (some h) (some g) d = ap some (eq_of_== h g (ground arith))

module _ (D : Digest) where
  pub entries-build : (fs : List FileEntry) → (build_merkle_tree D fs).entries ≡ sort_entries fs
  unfolding build_merkle_tree sort_entries
  entries-build [] = refl
  entries-build (f ∷ fs) = refl

  contains-diff_built :
      (p : String) (fs gs : List FileEntry)
      → NodupPaths fs
      → NodupPaths gs
      → contains p (diff_entries (build_merkle_tree D fs).entries (build_merkle_tree D gs).entries)
        ≡ differ (hash_at p fs) (hash_at p gs)
  contains-diff_built p fs gs uf ug =
      rw (entries-build fs, entries-build gs)
        (contains-diff_entries p (sort_entries fs) (sort_entries gs) (sort_entries-NodupPaths fs uf)
            (sort_entries-NodupPaths gs ug)
          ∙ ground (arith, entry_at-sort_entries p fs, entry_at-sort_entries p gs))

  -- `Diff` of the trees of two listings lists the paths that the listings give different hashes, or
  -- that one of them lacks, and no others, or else a text hashed for the one tree and a different
  -- text hashed for the other have the same digest. No path is listed twice, and the hashes of the
  -- files hold no colon.
  pub contains-diff :
      (fs gs : List FileEntry)
      → NodupPaths fs
      → NodupPaths gs
      → All IsHex fs
      → All IsHex gs
      → ((p : String)
          → contains p (diff D (build_merkle_tree D fs) (build_merkle_tree D gs))
            ≡ differ (hash_at p fs) (hash_at p gs))
        ⊎ Collision D (build_merkle_tree D fs) (build_merkle_tree D gs)
  unfolding diff
  contains-diff fs gs uf ug hf hg =
      elim (Bool-cases
        (root_hash D (build_merkle_tree D fs) == root_hash D (build_merkle_tree D gs))) [
          | inr e ↦ inl (λ p. rw e (contains-diff_built p fs gs uf ug))
          | inl e ↦ elim (root_hash-Agree D fs gs uf ug hf hg (eq_of_== _ _ e)) [
            | inr c ↦ inr c
            | inl agree ↦ inl (λ p. rw e (
                sym (differ_self (hash_at p gs))
                ∙ ap (λ o. differ o (hash_at p gs)) (sym (agree p))))
          ]
        ]
