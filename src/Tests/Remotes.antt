-- ===== src/Tests/Remotes.antt =====
-- A remote storage in memory, of which an identifier is the path to its file or folder.
use sync_vault.Base.{
  ℕ, ◌<◌, ◌≡◌, ◌⊎◌, refl, sym, ap, subst, ◌∙◌, inl, inr, String, Bool, true, false, not, ◌&&◌, List,
  [], ◌∷◌, Option, none, some, Result, ok, err, arith, All, string_eq, ◌==◌, ==-refl, eq_of_==,
  ◌<>◌, if◌then◌else◌, Bool-cases,
}
use sync_vault.Base.Dict.{Dict, lookup, insert, lookup-insert, lookup-insert_self}
use sync_vault.Sync.Paths.{same_flag, clean}
use sync_vault.Sync.Paths.Shape.{IsName}
use sync_vault.Sync.Remote.{
  RemoteFile, RemoteEntry, ComplexStorageApi, found, matching, find_child, find_dir, ensure_dir,
  parent_path, resolve, read_file, write_file, list_recursive,
}
use sync_vault.Sync.Remote.Creation.{IsLawful}
use sync_vault.Sync.Remote.Writing.{write_file-read_file}
use sync_vault.Sync.Remote.Listing.{Plain, IsPlain, Resolves, list_recursive-resolve}
use sync_vault.Sync.Remote.Ending.{Nested}

record Drive : Type 0 where
  pub folders : Dict String (List RemoteFile)
  pub contents : Dict String String

abbrev items : Option (List RemoteFile) → List RemoteFile
items none = []
items (some fs) = fs

abbrev items_in : Drive → String → List RemoteFile
items_in s k = items (lookup k s.folders)

abbrev is_empty : List RemoteFile → Bool
is_empty [] = true
is_empty (f ∷ fs) = false

abbrev is_none : Option RemoteFile → Bool
is_none none = true
is_none (some f) = false

abbrev item : String → String → Bool → RemoteFile
item id name is_dir = record {
  id = id;
  name = name;
  hash = "h";
  size = 1;
  mod_time = 5;
  is_dir = is_dir;
}

abbrev add_item : Drive → String → RemoteFile → Drive
add_item s k f = record s { folders = insert k (f ∷ items_in s k) s.folders }

abbrev content_of : Option String → Result String
content_of none = err "not found"
content_of (some c) = ok c

abbrev drive_mk_dir : Drive → String → String → Drive × Result String
drive_mk_dir s name parent =
    let id = parent <> "/" <> name in
    if not (id == parent)
      && is_empty (items_in s id)
      && is_none (matching name true (items_in s parent))
    then (add_item s parent (item id name true), ok id)
    else (s, err "the folder exists")

abbrev drive_upload : Drive → String → String → String → Drive × Result String
drive_upload s name c folder =
    let id = folder <> "/" <> name in
    let s' = add_item s folder (item id name false) in
    (record s' { contents = insert id c s.contents }, ok id)

abbrev drive : ComplexStorageApi
drive = record {
  State = Drive;
  Content = String;
  list_files = λ s k. ok (items_in s k);
  download = λ s id. content_of (lookup id s.contents);
  upload = drive_upload;
  update = λ s id c. (record s { contents = insert id c s.contents }, ok tt);
  delete = λ s id. (s, err "not supported");
  mk_dir = drive_mk_dir;
}

items_add :
    (s : Drive) (k j : String) (f : RemoteFile)
    → items_in (add_item s k f) j ≡ (if j == k then f ∷ items_in s k else items_in s j)
items_add s k j f = elim (Bool-cases (j == k)) [
  | inl q ↦ ground (arith, q, lookup-insert j k (f ∷ items_in s k) s.folders)
  | inr q ↦ ground (arith, q, lookup-insert j k (f ∷ items_in s k) s.folders)
]

matching_add :
    (s : Drive) (parent k n : String) (b : Bool) (f : RemoteFile)
    → matching n b (items_in (add_item s parent f) k) ≡ (
        if k == parent
        then (if f.name == n && same_flag f.is_dir b
            then some f
            else matching n b (items_in s parent))
        else matching n b (items_in s k))
matching_add s parent k n b f = elim (Bool-cases (k == parent)) [
  | inl q ↦ ap (matching n b) (items_add s parent k f) ∙ rw (q) refl
  | inr q ↦ ap (matching n b) (items_add s parent k f) ∙ rw (q) refl
]

-- What a creation that succeeds has checked and done.
record Made (s s' : Drive) (name parent id : String) : Type 0 where
  pub put : s' ≡ add_item s parent (item id name true)
  pub apart : id == parent ≡ false
  pub empty : is_empty (items_in s id) ≡ true
  pub free : is_none (matching name true (items_in s parent)) ≡ true

made :
    (s s' : Drive) (name parent id : String)
    → drive_mk_dir s name parent ≡ (s', ok id)
    → Made s s' name parent id
made s s' name parent id h =
    let own = parent <> "/" <> name in
    elim (Bool-cases (
      not (own == parent)
      && is_empty (items_in s own)
      && is_none (matching name true (items_in s parent)))) [
        | inr q ↦ absurd (ground (arith, h, q))
        | inl q ↦
            let same : own ≡ id = ground (arith, h, q) in
            subst (Made s s' name parent) same (record {
              put = ground (arith, h, q);
              apart = ground (arith, q);
              empty = ground (arith, q);
              free = ground (arith, q);
            })
      ]

empty_items :
    (fs : List RemoteFile) (n : String) (b : Bool) → is_empty fs ≡ true → matching n b fs ≡ none
empty_items [] n b h = refl
empty_items (f ∷ fs) n b h = absurd (cc h)

ok_inj : {A : Type 0} {a b : A} → ok a ≡ ok b → a ≡ b
ok_inj h = cc h

kept :
    (s : Drive) (parent k n name : String) (f g : RemoteFile)
    → matching n true (items_in s k) ≡ some f
    → is_none (matching name true (items_in s parent)) ≡ true
    → (if k == parent
        then (if name == n && true then some g else matching n true (items_in s parent))
        else matching n true (items_in s k))
      ≡ some f
kept s parent k n name f g h free = elim (Bool-cases (k == parent)) [
  | inr q ↦ rw (q) h
  | inl q ↦
      let h' : matching n true (items_in s parent) ≡ some f =
        subst (λ j. matching n true (items_in s j) ≡ some f) (eq_of_== k parent q) h in
      elim (Bool-cases (name == n)) [
        | inr r ↦ rw (q, r) h'
        | inl r ↦
            let none_there =
              subst (λ m. is_none (matching m true (items_in s parent)) ≡ true) (eq_of_== name n r)
                free in
            absurd (ground (arith, h', none_there))
      ]
]

passed :
    (s : Drive) (parent k n name : String) (g : RemoteFile)
    → (if k == parent
        then (if name == n && false then some g else matching n true (items_in s parent))
        else matching n true (items_in s k))
      ≡ matching n true (items_in s k)
passed s parent k n name g = ground (arith, eq_of_== k parent)

drive-IsLawful : IsLawful drive
unfolding find_child
drive-IsLawful = record {
  mk_dir_found = λ s s' name parent id h free.
      let m = made s s' name parent id h in
      let f = item id name true in
      (
        f,
        subst (λ t. find_child drive t parent name true ≡ ok (some f)) (sym m.put)
            (ap ok
              (matching_add s parent parent name true f ∙ rw (==-refl parent, ==-refl name) refl)),
        refl,
      );
  mk_dir_empty = λ s s' name parent id n b h.
      let m = made s s' name parent id h in
      subst (λ t. find_child drive t id n b ≡ ok none) (sym m.put)
        (ap ok (
          matching_add s parent id n b (item id name true)
          ∙ rw (m.apart) (empty_items (items_in s id) n b m.empty)));
  mk_dir_keeps = λ s s' name parent id k n f h at.
      let m = made s s' name parent id h in
      subst (λ t. find_child drive t k n true ≡ ok (some f)) (sym m.put)
        (ap ok (
          matching_add s parent k n true (item id name true)
          ∙ kept s parent k n name f (item id name true) (ok_inj at) m.free));
  upload_found = λ s s' name folder id c h free.
      let f = item (folder <> "/" <> name) name false in
      (
        f,
        subst (λ t. find_child drive t folder name false ≡ ok (some f)) (ap (λ r. r.0) h)
            (ap ok
              (matching_add s folder folder name false f ∙ rw (==-refl folder, ==-refl name) refl)),
        subst (λ t. content_of (lookup f.id t.contents) ≡ ok c) (ap (λ r. r.0) h)
            (ap content_of (lookup-insert_self f.id c s.contents)),
      );
  upload_keeps = λ s s' name folder id c k n h.
      subst (λ t. find_child drive t k n true ≡ find_child drive s k n true) (ap (λ r. r.0) h)
        (ap ok (
          matching_add s folder k n true (item (folder <> "/" <> name) name false)
          ∙ passed s folder k n name (item (folder <> "/" <> name) name false)));
  update_done = λ s s' id c h.
      subst (λ t. content_of (lookup id t.contents) ≡ ok c) (ap (λ r. r.0) h)
        (ap content_of (lookup-insert_self id c s.contents));
  update_keeps =
      λ s s' id c k n b f h at. (f, ap (λ r. find_child drive r.0 k n b) (sym h) ∙ at, refl);
}

abbrev blank : Drive
blank = record { folders = []; contents = [] }

docs-IsName : IsName "docs"
unfolding string_eq
docs-IsName = (refl, (refl, refl))

note-IsName : IsName "note"
unfolding string_eq
note-IsName = (refl, (refl, refl))

abbrev written : Drive
written = (write_file drive blank ("docs" ∷ "note" ∷ []) "text").0

write_done : write_file drive blank ("docs" ∷ "note" ∷ []) "text" ≡ (written, found tt)
unfolding write_file resolve ensure_dir find_dir find_child parent_path clean string_eq lookup
    insert
write_done = refl

write_file-read_file_example : read_file drive written ("docs" ∷ "note" ∷ []) ≡ found "text"
write_file-read_file_example =
    write_file-read_file drive drive-IsLawful ("docs" ∷ []) "note" (docs-IsName, tt) note-IsName
      "text" blank written write_done

abbrev stored : Drive
stored = record {
  folders = ("", item "d" "docs" true ∷ item "n" "note" false ∷ item "m" "note" false ∷ []) ∷ [];
  contents = [];
}

stored_items :
    (k : String) → (items_in stored k ≡ []) ⊎ ((k ≡ "") × (items_in stored k ≡ items_in stored ""))
unfolding lookup
stored_items k = elim (Bool-cases (k == "")) [
  | inl q ↦ inr (eq_of_== k "" q, ap (items_in stored) (eq_of_== k "" q))
  | inr q ↦ inl (rw (q) refl)
]

abbrev root_items : List RemoteFile
root_items = item "d" "docs" true ∷ item "n" "note" false ∷ item "m" "note" false ∷ []

root_stored : items_in stored "" ≡ root_items
unfolding lookup string_eq
root_stored = refl

root-Plain : All (Plain root_items) root_items
unfolding string_eq
root-Plain = (
  (docs-IsName, λ h. refl),
  ((note-IsName, λ h. absurd (cc h)), ((note-IsName, λ h. absurd (cc h)), tt)),
)

-- A property of the items of the root, and of no items, is one of the items of every folder.
every_folder :
    (Q : String → List RemoteFile → Type 0)
    → Q "" root_items
    → ((k : String) → Q k [])
    → (k : String) (fs : List RemoteFile) → drive.list_files stored k ≡ ok fs
    → Q k fs
every_folder Q root none_there k fs h = elim (stored_items k) [
  | inl q ↦ subst (Q k) (sym q ∙ ok_inj h) (none_there k)
  | inr (is_root, q) ↦
      subst (Q k) (sym root_stored ∙ sym q ∙ ok_inj h)
        (subst (λ j. Q j root_items) (sym is_root) root)
]

stored-IsPlain : IsPlain drive stored
stored-IsPlain = record {
  items_plain = every_folder (λ k fs. All (Plain fs) fs) root-Plain (λ k. tt);
}

abbrev rank : String → ℕ
rank k = if k == "" then 1 else 0

root_ranked : All (λ f. f.is_dir ≡ true → rank f.id < rank "") root_items
unfolding string_eq
root_ranked = (λ h. omega arith, (λ h. omega arith, (λ h. omega arith, tt)))

stored-Nested : Nested drive stored rank
stored-Nested =
    every_folder (λ k fs. All (λ f. f.is_dir ≡ true → rank f.id < rank k) fs) root_ranked (λ k. tt)

list_recursive-resolve_example :
    ((e : String) × (list_recursive drive 2 stored "" [] ≡ some (err e)))
    ⊎ ((es : List RemoteEntry) × (list_recursive drive 2 stored "" [] ≡ some (ok es))
        × All (Resolves drive stored stored-IsPlain) es)
unfolding string_eq
list_recursive-resolve_example =
    list_recursive-resolve drive stored stored-IsPlain rank 2 stored-Nested (omega arith)
