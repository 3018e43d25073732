-- ===== src/Sync/Files.antt =====
-- FileEntry of internal/sync/merkletree.go: what a node lists, and the maps built from listings.
use sync_vault.Base.{
  ℕ, ◌≡◌, refl, String, true, List, [], ◌∷◌, Option, none, some, arith, ◌==◌, contains, string_eq,
  if◌then◌else◌, ==_comm, ◌∙◌, All,
}
use sync_vault.Base.Dict.{Dict, lookup, insert, NodupKeys, lookup-insert, insert-NodupKeys}
use sync_vault.Base.Text.{text_lt, text_lt_irrefl}

-- A modification time is in nanoseconds, and 0 is the zero time.
pub record FileEntry : Type 0 where
  pub path : String
  pub hash : String
  pub size : ℕ
  pub mod_time : ℕ

-- The first entry of a path.
unfoldable pub entry_at : String → List FileEntry → Option FileEntry
entry_at p [] = none
entry_at p (f ∷ fs) = if p == f.path then some f else entry_at p fs

-- No path is listed twice.
abbrev pub NodupPaths : List FileEntry → Type 0
NodupPaths [] = Unit
NodupPaths (f ∷ fs) = (entry_at f.path fs ≡ none) × NodupPaths fs

-- `for _, f := range files { m[f.Path] = f }`
unfoldable pub add_entries : Dict String FileEntry → List FileEntry → Dict String FileEntry
add_entries m [] = m
add_entries m (f ∷ fs) = add_entries (insert f.path f m) fs

unfoldable pub index_entries : List FileEntry → Dict String FileEntry
unfolding add_entries
index_entries fs = add_entries [] fs

abbrev pub or_else {ℓ} : {A : Type ℓ} → Option A → Option A → Option A
or_else none o = o
or_else (some a) o = some a

lookup-add_entries :
    (p : String) (m : Dict String FileEntry) (fs : List FileEntry)
    → NodupPaths fs
    → lookup p (add_entries m fs) ≡ or_else (entry_at p fs) (lookup p m)
unfolding add_entries entry_at
lookup-add_entries p m [] u = refl
lookup-add_entries p m (f ∷ fs) (fresh, u) =
    lookup-add_entries p (insert f.path f m) fs u ∙ ground (arith, lookup-insert p f.path f m)

-- Over a listing with distinct paths the map answers what the listing says.
pub lookup-index_entries :
    (p : String) (fs : List FileEntry) → NodupPaths fs → lookup p (index_entries fs) ≡ entry_at p fs
unfolding index_entries lookup
lookup-index_entries p fs u = lookup-add_entries p [] fs u ∙ ground arith

add_entries-NodupKeys :
    (m : Dict String FileEntry) (fs : List FileEntry) → NodupKeys m → NodupKeys (add_entries m fs)
unfolding add_entries
add_entries-NodupKeys m [] u = u
add_entries-NodupKeys m (f ∷ fs) u =
    add_entries-NodupKeys (insert f.path f m) fs (insert-NodupKeys f.path f m u)

pub index_entries-NodupKeys : (fs : List FileEntry) → NodupKeys (index_entries fs)
unfolding index_entries
index_entries-NodupKeys fs = add_entries-NodupKeys [] fs tt

-- `sort.Slice` by path, as an insertion sort.
insert_sorted : FileEntry → List FileEntry → List FileEntry
insert_sorted f [] = f ∷ []
insert_sorted f (g ∷ gs) = if text_lt g.path f.path then g ∷ insert_sorted f gs else f ∷ g ∷ gs

unfoldable pub sort_entries : List FileEntry → List FileEntry
unfolding insert_sorted
sort_entries [] = []
sort_entries (f ∷ fs) = insert_sorted f (sort_entries fs)

entry_at-insert_sorted :
    (p : String) (f : FileEntry) (fs : List FileEntry)
    → entry_at p (insert_sorted f fs) ≡ (if p == f.path then some f else entry_at p fs)
unfolding entry_at insert_sorted
entry_at-insert_sorted p f [] = refl
entry_at-insert_sorted p f (g ∷ gs) =
    ground (arith, entry_at-insert_sorted p f gs, text_lt_irrefl p)

-- Sorting changes no entry.
pub entry_at-sort_entries :
    (p : String) (fs : List FileEntry) → entry_at p (sort_entries fs) ≡ entry_at p fs
unfolding sort_entries entry_at
entry_at-sort_entries p [] = refl
entry_at-sort_entries p (f ∷ fs) =
    entry_at-insert_sorted p f (sort_entries fs) ∙ ground (arith, entry_at-sort_entries p fs)

insert_sorted-NodupPaths :
    (f : FileEntry) (fs : List FileEntry)
    → entry_at f.path fs ≡ none
    → NodupPaths fs
    → NodupPaths (insert_sorted f fs)
unfolding insert_sorted entry_at
insert_sorted-NodupPaths f [] h u = (refl, tt)
insert_sorted-NodupPaths f (g ∷ gs) h (fresh, u) = ground (
  arith,
  insert_sorted-NodupPaths f gs (ground arith) u,
  entry_at-insert_sorted g.path f gs,
  ==_comm f.path g.path,
)

pub sort_entries-NodupPaths : (fs : List FileEntry) → NodupPaths fs → NodupPaths (sort_entries fs)
unfolding sort_entries
sort_entries-NodupPaths [] u = tt
sort_entries-NodupPaths (f ∷ fs) (fresh, u) =
    insert_sorted-NodupPaths f (sort_entries fs) (entry_at-sort_entries f.path fs ∙ fresh)
      (sort_entries-NodupPaths fs u)

-- `sort.Strings`, likewise.
unfoldable pub insert_text : String → List String → List String
insert_text s [] = s ∷ []
insert_text s (t ∷ ts) = if text_lt t s then t ∷ insert_text s ts else s ∷ t ∷ ts

unfoldable pub sort_texts : List String → List String
unfolding insert_text
sort_texts [] = []
sort_texts (s ∷ ss) = insert_text s (sort_texts ss)

pub contains-insert_text :
    (p s : String) (ts : List String)
    → contains p (insert_text s ts) ≡ (if p == s then true else contains p ts)
unfolding insert_text
contains-insert_text p s [] = ground arith
contains-insert_text p s (t ∷ ts) = ground (arith, contains-insert_text p s ts)

pub contains-sort_texts :
    (p : String) (ss : List String) → contains p (sort_texts ss) ≡ contains p ss
unfolding sort_texts
contains-sort_texts p [] = refl
contains-sort_texts p (s ∷ ss) =
    contains-insert_text p s (sort_texts ss) ∙ ground (arith, contains-sort_texts p ss)

insert_sorted-All :
    (P : FileEntry → Type 0) (f : FileEntry) (fs : List FileEntry)
    → P f
    → All P fs
    → All P (insert_sorted f fs)
unfolding insert_sorted
insert_sorted-All P f [] h hs = (h, tt)
insert_sorted-All P f (g ∷ gs) h hs = ground (arith, insert_sorted-All P f gs h hs.1)

pub sort_entries-All :
    (P : FileEntry → Type 0) (fs : List FileEntry) → All P fs → All P (sort_entries fs)
unfolding sort_entries
sort_entries-All P [] h = tt
sort_entries-All P (f ∷ fs) h =
    insert_sorted-All P f (sort_entries fs) h.0 (sort_entries-All P fs h.1)

-- The hash that a listing gives a path.
abbrev pub hash_of : Option FileEntry → Option String
hash_of none = none
hash_of (some f) = some f.hash

abbrev pub hash_at : String → List FileEntry → Option String
hash_at p fs = hash_of (entry_at p fs)

-- What is found at a path has that path.
pub entry_at-path :
    (p : String) (fs : List FileEntry) (f : FileEntry) → entry_at p fs ≡ some f → f.path ≡ p
unfolding entry_at
entry_at-path p [] f h = absurd (cc)
entry_at-path p (g ∷ gs) f h = ground (arith, entry_at-path p gs f)
