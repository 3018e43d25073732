-- ===== src/Sync/Remote/Listing.antt =====
-- What ListFiles lists is found again under its path.
use mathlib.Core.List.{append_assoc}
use sync_vault.Base.{
  ℕ, zero, suc, ◌≡◌, refl, sym, ap, ◌∙◌, inl, inr, String, Bool, true, false, List, [], ◌∷◌, ◌++◌,
  Option, none, some, Result, ok, err, arith, All, All-append, ◌<◌, ◌⊎◌, string_eq, ==-refl,
  ==_comm, eq_of_==, contains, Bool-cases, Result-cases,
}
use sync_vault.Sync.Paths.Shape.{IsName}
use sync_vault.Sync.Remote.{
  RemoteFile, RemoteEntry, ComplexStorageApi, found, matching, cons_entry, append_entries,
  list_items, list_recursive, find_child, find_from, child_of, resolve,
}
use sync_vault.Sync.Remote.Ending.{Ends, Nested, list_recursive-Ends}
use sync_vault.Sync.Remote.Folders.{find_from_next, resolve_names}

-- An item has a name of its own, and a folder is the first of its name.
abbrev pub Plain : List RemoteFile → RemoteFile → Type 0
Plain items f = IsName f.name × (f.is_dir ≡ true → matching f.name true items ≡ some f)

matching-append :
    (n : String) (b : Bool) (xs ys : List RemoteFile)
    → matching n b xs ≡ none
    → matching n b (xs ++ ys) ≡ matching n b ys
matching-append n b [] ys h = refl
matching-append n b (x ∷ xs) ys h = ground (arith, h, matching-append n b xs ys)

-- The first item that matches.
matching_head :
    (f : RemoteFile) (fs : List RemoteFile)
    → f.is_dir ≡ false
    → matching f.name false (f ∷ fs) ≡ some f
matching_head f fs h = rw (==-refl f.name, h) refl

abbrev AllIn : (RemoteEntry → Type 0) → Option (Result (List RemoteEntry)) → Type 0
AllIn Q none = Unit
AllIn Q (some (err e)) = Unit
AllIn Q (some (ok es)) = All Q es

cons_entry-AllIn :
    (Q : RemoteEntry → Type 0) (e : RemoteEntry) (r : Option (Result (List RemoteEntry)))
    → Q e
    → AllIn Q r
    → AllIn Q (cons_entry e r)
cons_entry-AllIn Q e none q h = tt
cons_entry-AllIn Q e (some (err m)) q h = tt
cons_entry-AllIn Q e (some (ok es)) q h = (q, h)

append_entries-AllIn :
    (Q : RemoteEntry → Type 0) (r t : Option (Result (List RemoteEntry)))
    → AllIn Q r
    → AllIn Q t
    → AllIn Q (append_entries r t)
append_entries-AllIn Q none t h g = tt
append_entries-AllIn Q (some (err m)) t h g = tt
append_entries-AllIn Q (some (ok es)) none h g = tt
append_entries-AllIn Q (some (ok es)) (some (err m)) h g = tt
append_entries-AllIn Q (some (ok es)) (some (ok fs)) h g = All-append Q es fs h g

-- No file of the items before has a name that was not seen.
abbrev Seen : List String → List RemoteFile → Type 0
Seen seen pre = (n : String) → contains n seen ≡ false → matching n false pre ≡ none

past_folder :
    (seen : List String) (pre : List RemoteFile) (f : RemoteFile)
    → Seen seen pre
    → f.is_dir ≡ true
    → Seen seen (pre ++ (f ∷ []))
past_folder seen pre f h dir n fresh =
    matching-append n false pre (f ∷ []) (h n fresh) ∙ ground (arith, dir)

past_again :
    (seen : List String) (pre : List RemoteFile) (f : RemoteFile)
    → Seen seen pre
    → contains f.name seen ≡ true
    → Seen seen (pre ++ (f ∷ []))
past_again seen pre f h again n fresh =
    matching-append n false pre (f ∷ []) (h n fresh)
    ∙ ground (arith, eq_of_== f.name n, again, fresh)

past_new :
    (seen : List String) (pre : List RemoteFile) (f : RemoteFile)
    → Seen seen pre
    → Seen (f.name ∷ seen) (pre ++ (f ∷ []))
past_new seen pre f h n fresh =
    matching-append n false pre (f ∷ []) (h n (ground (arith, fresh)))
    ∙ ground (arith, fresh, ==_comm n f.name)

-- The state's folders have plain items.
pub record IsPlain (P : ComplexStorageApi) (s : P.State) : Type 0 where
  pub items_plain :
      (folder : String) (items : List RemoteFile)
      → P.list_files s folder ≡ ok items
      → All (Plain items) items

module _ (P : ComplexStorageApi) (s : P.State) (plain : IsPlain P s) where
  abbrev Way : List String → String → Type 0
  Way ds k = find_from P ds false (s, found "") ≡ (s, found k)

  -- The entry's path leads to a file with the entry's hash.
  abbrev pub Resolves : RemoteEntry → Type 0
  Resolves e =
      (f : RemoteFile) × (resolve P s e.path ≡ found f)
      × (f.hash ≡ e.hash)
      × (f.size ≡ e.size)
      × (f.mod_time ≡ e.mod_time)

  child_at :
      (k n : String) (b : Bool) (items : List RemoteFile) (f : RemoteFile)
      → P.list_files s k ≡ ok items
      → matching n b items ≡ some f
      → find_child P s k n b ≡ ok (some f)
  unfolding find_child
  child_at k n b items f h m = rw (h, find_child) (ap ok m)

  abbrev Below : (String → List String → Option (Result (List RemoteEntry))) → Type 0
  Below below =
      (ds : List String) (k : String) → All IsName ds → Way ds k → AllIn Resolves (below k ds)

  list_items-Resolves :
      (below : String → List String → Option (Result (List RemoteEntry))) (ds seen : List String)
      (k : String) (items pre fs : List RemoteFile)
      → Below below
      → All IsName ds
      → Way ds k
      → P.list_files s k ≡ ok items
      → items ≡ pre ++ fs
      → Seen seen pre
      → All (Plain items) fs
      → AllIn Resolves (list_items below ds seen fs)
  list_items-Resolves below ds seen k items pre [] under names way at cut sn pl = tt
  list_items-Resolves below ds seen k items pre (f ∷ fs) under names way at cut sn pl =
      let (name, first) = pl.0 in
      let cut' : items ≡ (pre ++ (f ∷ [])) ++ fs = cut ∙ sym (append_assoc pre (f ∷ []) fs) in
      let go : (seen' : List String)
          → Seen seen' (pre ++ (f ∷ []))
          → AllIn Resolves (list_items below ds seen' fs) =
        λ seen' sn'.
          list_items-Resolves below ds seen' k items (pre ++ (f ∷ [])) fs under names way at cut'
            sn' pl.1 in
      elim (Bool-cases f.is_dir) [
        | inl dir ↦ rw (dir) (
            append_entries-AllIn Resolves _ _
              (under (ds ++ (f.name ∷ [])) f.id
                (All-append IsName ds (f.name ∷ []) names (name, tt))
                (find_from_next P s ds k f.name f way
                  (child_at k f.name true items f at (first dir))))
              (go seen (past_folder seen pre f sn dir)))
        | inr file ↦ elim (Bool-cases (contains f.name seen)) [
          | inl again ↦ rw (file, again) (go seen (past_again seen pre f sn again))
          | inr new ↦
              let here : matching f.name false items ≡ some f =
                ap (matching f.name false) cut
                ∙ matching-append f.name false pre (f ∷ fs) (sn f.name new)
                ∙ matching_head f fs file in
              rw (file, new)
                (cons_entry-AllIn Resolves _ _
                  (
                    f,
                    resolve_names P s ds f.name k names name way
                        ∙ ap (child_of P) (child_at k f.name false items f at here),
                    refl,
                    refl,
                    refl,
                  )
                  (go (f.name ∷ seen) (past_new seen pre f sn)))
        ]
      ]

  list_recursive-Resolves : (fuel : ℕ) → Below (list_recursive P fuel s)
  unfolding list_recursive
  list_recursive-Resolves zero ds k names way = tt
  list_recursive-Resolves (suc fuel) ds k names way = elim (Result-cases (P.list_files s k)) [
    | inr (e, q) ↦ rw (q, list_recursive) tt
    | inl (items, q) ↦
        rw (q, list_recursive)
          (list_items-Resolves (list_recursive P fuel s) ds [] k items [] items
            (list_recursive-Resolves fuel) names way q refl (λ n h. refl)
            (plain.items_plain k items q))
  ]

  ended :
      (r : Option (Result (List RemoteEntry)))
      → Ends r
      → AllIn Resolves r
      → ((e : String) × (r ≡ some (err e)))
        ⊎ ((es : List RemoteEntry) × (r ≡ some (ok es)) × All Resolves es)
  ended none h g = absurd (cc h)
  ended (some (err e)) h g = inl (e, refl)
  ended (some (ok es)) h g = inr (es, refl, g)

  -- In a remote folder with folders of distinct names, on more fuel than the rank of the root, ListFiles
  -- ends: with an error of the API, or with a listing of which every entry resolves to a file with the
  -- hash, the size and the time that are listed. Every item has a name of its own, without a slash.
  pub list_recursive-resolve :
      (rank : String → ℕ) (fuel : ℕ)
      → Nested P s rank
      → rank "" < fuel
      → ((e : String) × (list_recursive P fuel s "" [] ≡ some (err e)))
        ⊎ ((es : List RemoteEntry) × (list_recursive P fuel s "" [] ≡ some (ok es))
            × All Resolves es)
  list_recursive-resolve rank fuel nested h =
      ended (list_recursive P fuel s "" []) (list_recursive-Ends P s rank nested fuel "" [] h)
        (list_recursive-Resolves fuel [] "" tt refl)
