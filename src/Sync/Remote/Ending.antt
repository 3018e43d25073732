-- ===== src/Sync/Remote/Ending.antt =====
-- The walk of ListFiles over nested folders ends.
use sync_vault.Base.{
  ℕ, zero, suc, ◌≡◌, inl, inr, String, true, false, List, [], ◌∷◌, ◌++◌, Option, none, some, Result,
  ok, err, arith, All, All-weaken, if_elim, ◌<◌, string_eq, contains, Bool-cases, Result-cases,
}
use sync_vault.Sync.Remote.{
  RemoteFile, RemoteEntry, ComplexStorageApi, cons_entry, append_entries, list_items,
  list_recursive,
}

abbrev pub Ends : Option (Result (List RemoteEntry)) → Type 0
Ends none = true ≡ false
Ends (some r) = Unit

append_entries-Ends :
    (r t : Option (Result (List RemoteEntry))) → Ends r → Ends t → Ends (append_entries r t)
append_entries-Ends none t h g = h
append_entries-Ends (some (err m)) t h g = tt
append_entries-Ends (some (ok es)) none h g = g
append_entries-Ends (some (ok es)) (some (err m)) h g = tt
append_entries-Ends (some (ok es)) (some (ok fs)) h g = tt

cons_entry-Ends :
    (e : RemoteEntry) (r : Option (Result (List RemoteEntry))) → Ends r → Ends (cons_entry e r)
cons_entry-Ends e none h = h
cons_entry-Ends e (some (err m)) h = tt
cons_entry-Ends e (some (ok es)) h = tt

list_items-Ends :
    (below : String → List String → Option (Result (List RemoteEntry))) (ds seen : List String)
    (fs : List RemoteFile)
    → All (λ f. f.is_dir ≡ true → (es : List String) → Ends (below f.id es)) fs
    → Ends (list_items below ds seen fs)
list_items-Ends below ds seen [] h = tt
list_items-Ends below ds seen (f ∷ fs) h = elim (Bool-cases f.is_dir) [
  | inl dir ↦ rw (dir) (
      append_entries-Ends _ _ (h.0 dir (ds ++ (f.name ∷ [])))
        (list_items-Ends below ds seen fs h.1))
  | inr file ↦ rw (file) (
      if_elim Ends (contains f.name seen) (list_items-Ends below ds seen fs h.1)
        (cons_entry-Ends _ _ (list_items-Ends below ds (f.name ∷ seen) fs h.1)))
]

-- The folders are nested: each is of a lower rank than the one it lies in.
abbrev pub Nested : (P : ComplexStorageApi) → P.State → (String → ℕ) → Type 0
Nested P s rank =
    (folder : String) (items : List RemoteFile)
    → P.list_files s folder ≡ ok items
    → All (λ f. f.is_dir ≡ true → rank f.id < rank folder) items

pub list_recursive-Ends :
    (P : ComplexStorageApi) (s : P.State) (rank : String → ℕ)
    → Nested P s rank
    → (fuel : ℕ) (k : String) (ds : List String) → rank k < fuel
    → Ends (list_recursive P fuel s k ds)
unfolding list_recursive
list_recursive-Ends P s rank nested zero k ds h = absurd (omega arith)
list_recursive-Ends P s rank nested (suc fuel) k ds h = elim (Result-cases (P.list_files s k)) [
  | inr (e, q) ↦ rw (q, list_recursive) tt
  | inl (items, q) ↦
      rw (q, list_recursive)
        (list_items-Ends (list_recursive P fuel s) ds [] items (
          All-weaken (λ f. f.is_dir ≡ true → rank f.id < rank k)
            (λ f. f.is_dir ≡ true → (es : List String) → Ends (list_recursive P fuel s f.id es))
            items
            (λ f lower dir es.
              list_recursive-Ends P s rank nested fuel f.id es (omega (arith, lower dir, h)))
            (nested k items q)))
]
