-- ===== src/Tests/Nodes.antt =====
-- A digest of the required form, and a node kept in memory, for the examples.
use sync_vault.Base.{
  ℕ, zero, suc, ◌+◌, ◌*◌, ◌%◌, ◌≡◌, refl, sym, ap, subst, ◌∙◌, ◌≢◌, String, false, List, [], ◌∷◌,
  Option, none, some, arith, All, string_eq,
}
use Prim.Native.Char.{code}
use sync_vault.Base.Dict.{
  Dict, lookup, insert, erase, NodupKeys, lookup-insert, lookup-insert_self, lookup-erase,
  insert-NodupKeys, erase-NodupKeys,
}
use sync_vault.Base.Text.{width, holds}
use sync_vault.Sync.Files.{FileEntry, entry_at, NodupPaths, hash_at}
use sync_vault.Sync.Merkle.{Digest}
use sync_vault.Sync.Merkle.Soundness.{IsHex}
use sync_vault.Sync.Node.{Node, Result, ok, err, IsLawful}

-- `n` letters a, then letters b, `k` in all.
unfoldable pub fill : ℕ → ℕ → String
fill zero n = String.[]
fill (suc k) zero = String.◌∷◌ "b" (fill k zero)
fill (suc k) (suc n) = String.◌∷◌ "a" (fill k n)

width-fill : (k n : ℕ) → width (fill k n) ≡ k
unfolding width fill
width-fill zero n = refl
width-fill (suc k) zero = ap suc (width-fill k zero)
width-fill (suc k) (suc n) = ap suc (width-fill k n)

holds-fill : (k n : ℕ) → holds b':' (fill k n) ≡ false
unfolding holds fill
holds-fill zero n = refl
holds-fill (suc k) zero = holds-fill k zero
holds-fill (suc k) (suc n) = holds-fill k n

unfoldable pub weight : ℕ → String → ℕ
weight n String.[] = n
weight n (String.◌∷◌ c s) = weight ((n * 31 + code c) % 61) s

unfoldable pub toy_digest : String → String
unfolding fill weight
toy_digest s = fill 64 (weight 7 s)

pub width-toy_digest : (s : String) → width (toy_digest s) ≡ 64
unfolding toy_digest
width-toy_digest s = width-fill 64 (weight 7 s)

pub holds-toy_digest : (s : String) → holds b':' (toy_digest s) ≡ false
unfolding toy_digest
holds-toy_digest s = holds-fill 64 (weight 7 s)

abbrev pub toy : Digest
toy = record {
  digest = toy_digest;
  width-digest = width-toy_digest;
  holds-digest = holds-toy_digest;
}

-- Contents by path.
abbrev pub Contents : Type 0
Contents = (d : Dict String String) × NodupKeys d

unfoldable pub list_contents : Dict String String → List FileEntry
list_contents [] = []
list_contents ((p, c) ∷ d) =
    record { path = p; hash = toy_digest c; size = 1; mod_time = 5 } ∷ list_contents d

abbrev pub hashed : Option String → Option String
hashed none = none
hashed (some c) = some (toy_digest c)

abbrev pub found : Option String → Result String
found none = err "no such file"
found (some c) = ok c

abbrev pub memory_node : String → Node
memory_node n = record {
  State = Contents;
  id = n;
  list_files = λ s. ok (list_contents s.0);
  read_file = λ s p. found (lookup p s.0);
  write_file = λ s p c. ((insert p c s.0, insert-NodupKeys p c s.0 s.1), none);
  delete_file = λ s p. ((erase p s.0, erase-NodupKeys p s.0 s.1), none);
}

pub hash_at-list_contents :
    (p : String) (d : Dict String String) → hash_at p (list_contents d) ≡ hashed (lookup p d)
unfolding list_contents entry_at lookup
hash_at-list_contents p [] = refl
hash_at-list_contents p ((q, c) ∷ d) = ground (arith, hash_at-list_contents p d)

pub list_contents-NodupPaths : (d : Dict String String) → NodupKeys d → NodupPaths (list_contents d)
unfolding list_contents
list_contents-NodupPaths [] u = tt
list_contents-NodupPaths ((q, c) ∷ d) (fresh, u) =
    (ground (arith, hash_at-list_contents q d), list_contents-NodupPaths d u)

pub list_contents-IsHex : (d : Dict String String) → All IsHex (list_contents d)
unfolding list_contents
list_contents-IsHex [] = tt
list_contents-IsHex ((q, c) ∷ d) = (holds-toy_digest c, list_contents-IsHex d)

pub list_eq :
    (d : Dict String String) (fs : List FileEntry)
    → ok (list_contents d) ≡ ok fs
    → list_contents d ≡ fs
list_eq d fs e = cc

pub found-ok :
    (p c : String) (d : Dict String String)
    → found (lookup p d) ≡ ok c
    → hashed (lookup p d) ≡ some (toy_digest c)
found-ok p c d e = ground arith

pub hashed-insert :
    (p c q : String) (d : Dict String String)
    → q ≢ p
    → hashed (lookup q (insert p c d)) ≡ hashed (lookup q d)
hashed-insert p c q d ne = ground (arith, lookup-insert q p c d)

pub hashed-erase_self : (p : String) (d : Dict String String) → hashed (lookup p (erase p d)) ≡ none
hashed-erase_self p d = ground (arith, lookup-erase p p d)

pub hashed-erase :
    (p q : String) (d : Dict String String)
    → q ≢ p
    → hashed (lookup q (erase p d)) ≡ hashed (lookup q d)
hashed-erase p q d ne = ground (arith, lookup-erase q p d)

abbrev pub memory_node-IsLawful : (n : String) → IsLawful (memory_node n) toy_digest
memory_node-IsLawful n = record {
  view = λ s p. hashed (lookup p s.0);
  listed = λ s fs e. subst NodupPaths (list_eq s.0 fs e) (list_contents-NodupPaths s.0 s.1);
  listed_hex = λ s fs e. subst (All IsHex) (list_eq s.0 fs e) (list_contents-IsHex s.0);
  listed_view = λ s fs e p. ap (hash_at p) (sym (list_eq s.0 fs e)) ∙ hash_at-list_contents p s.0;
  read = λ s p c e. found-ok p c s.0 e;
  write = λ s p c e. ap hashed (lookup-insert_self p c s.0);
  write_elsewhere = λ s p c q ne. hashed-insert p c q s.0 ne;
  delete = λ s p e. hashed-erase_self p s.0;
  delete_elsewhere = λ s p q ne. hashed-erase p q s.0 ne;
}

-- A node with the given files.
unfoldable pub contents : Dict String String → Contents
unfolding insert lookup
contents [] = ([], tt)
contents ((p, c) ∷ d) = let s = contents d in (insert p c s.0, insert-NodupKeys p c s.0 s.1)
