-- ===== src/Sync/Merkle/Distinct.antt =====
-- `Diff` lists no path twice.
use sync_vault.Base.{
  ◌≡◌, refl, ◌∙◌, String, true, false, List, [], ◌∷◌, ◌++◌, arith, string_eq, contains, ==_comm,
}
use sync_vault.Base.Dict.{Dict, lookup, keys, NodupKeys, contains-keys}
use sync_vault.Sync.Files.{
  FileEntry, insert_text, sort_texts, contains-insert_text, contains-sort_texts,
}
use sync_vault.Sync.Merkle.{Digest, MerkleTree, add_hashes, changed, added, diff_entries, diff}
use sync_vault.Sync.Merkle.Diff.{
  contains-changed, contains-added, contains-append, add_hashes-NodupKeys,
}

abbrev pub Distinct : List String → Type 0
Distinct [] = Unit
Distinct (x ∷ xs) = (contains x xs ≡ false) × Distinct xs

changed-Distinct : (a b : Dict String String) → NodupKeys a → Distinct (changed a b)
unfolding changed lookup
changed-Distinct [] b u = tt
changed-Distinct ((p, h) ∷ a) b (fresh, u) =
    ground (arith, changed-Distinct a b u, contains-changed p a b u)

added-Distinct :
    (seen : List String) (b : Dict String String) → NodupKeys b → Distinct (added seen b)
unfolding added
added-Distinct seen [] u = tt
added-Distinct seen ((p, h) ∷ b) (fresh, u) =
    ground (arith, added-Distinct seen b u, contains-added p seen b, contains-keys p b)

append-Distinct :
    (xs ys : List String)
    → Distinct xs
    → Distinct ys
    → ((p : String) → contains p xs ≡ true → contains p ys ≡ false)
    → Distinct (xs ++ ys)
append-Distinct [] ys u v h = v
append-Distinct (x ∷ xs) ys (fresh, u) v h =
    let rest = append-Distinct xs ys u v (λ p m. h p (ground arith)) in
    (ground (arith, contains-append x xs ys, h x), rest)

insert_text-Distinct :
    (s : String) (ts : List String)
    → contains s ts ≡ false
    → Distinct ts
    → Distinct (insert_text s ts)
unfolding insert_text
insert_text-Distinct s [] h u = (refl, tt)
insert_text-Distinct s (t ∷ ts) h (fresh, u) =
    ground
      (arith, insert_text-Distinct s ts (ground arith) u, contains-insert_text t s ts, ==_comm s t)

sort_texts-Distinct : (ss : List String) → Distinct ss → Distinct (sort_texts ss)
unfolding sort_texts
sort_texts-Distinct [] u = tt
sort_texts-Distinct (s ∷ ss) (fresh, u) =
    insert_text-Distinct s (sort_texts ss) (contains-sort_texts s ss ∙ fresh)
      (sort_texts-Distinct ss u)

changed_or_added :
    (p : String) (a b : Dict String String)
    → NodupKeys a
    → contains p (changed a b) ≡ true
    → contains p (added (keys a) b) ≡ false
changed_or_added p a b u h =
    ground (arith, contains-changed p a b u, contains-added p (keys a) b, contains-keys p a)

pub diff_entries-Distinct : (fs gs : List FileEntry) → Distinct (diff_entries fs gs)
unfolding diff_entries
diff_entries-Distinct fs gs =
    let a = add_hashes [] fs in
    let b = add_hashes [] gs in
    let ua = add_hashes-NodupKeys [] fs tt in
    sort_texts-Distinct (changed a b ++ added (keys a) b) (
      append-Distinct (changed a b) (added (keys a) b) (changed-Distinct a b ua)
        (added-Distinct (keys a) b (add_hashes-NodupKeys [] gs tt))
        (λ p. changed_or_added p a b ua))

pub diff-Distinct : (D : Digest) (t u : MerkleTree) → Distinct (diff D t u)
unfolding diff
diff-Distinct D t u = ground (arith, diff_entries-Distinct t.entries u.entries)
