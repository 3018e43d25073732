-- ===== src/Sync/Remote.antt =====
-- ComplexStorage of internal/sync/node.go: a folder of a remote storage, reached through its API. A
-- logical path is given by its elements between slashes. The file on disk that a transfer passes
-- through is left out: a content goes from the reader to the API and back.
pub mod Folders
pub mod Creation
pub mod Writing
pub mod Ending
pub mod Listing
use sync_vault.Base.{
  ℕ, zero, suc, ◌≡◌, String, Bool, true, false, not, ◌&&◌, ◌||◌, List, [], ◌∷◌, ◌++◌, Option, none,
  some, Result, ok, err, string_eq, ◌==◌, if◌then◌else◌, contains,
}
use sync_vault.Sync.Paths.{FilePath, clean, same_path, current_dir, same_flag}

pub record RemoteFile : Type 0 where
  pub id : String
  pub name : String
  pub hash : String
  pub size : ℕ
  pub mod_time : ℕ
  pub is_dir : Bool

-- The API. The root folder has the empty identifier.
pub record ComplexStorageApi : Type 1 where
  pub State : Type 0
  pub Content : Type 0
  pub list_files : State → String → Result (List RemoteFile)
  pub download : State → String → Result Content
  pub upload : State → String → Content → String → State × Result String
  pub update : State → String → Content → State × Result {0} Unit
  pub delete : State → String → State × Result {0} Unit
  pub mk_dir : State → String → String → State × Result String

-- A result, os.ErrNotExist, or another error.
pub data Search (A : Type 0) : Type 0 where
  found : A → Search A
  not_exist : Search A
  failed : String → Search A

-- The elements of filepath.Dir and of splitPath.
abbrev pub init : List String → List String
init [] = []
init (e ∷ []) = []
init (e ∷ x ∷ es) = e ∷ init (x ∷ es)

abbrev pub split_path : List String → List String
split_path [] = []
split_path (e ∷ es) = let rest = split_path es in if e == "" || e == "." then rest else e ∷ rest

unfoldable pub parent_path : List String → List String
unfolding clean
parent_path es =
    let dir = clean (record { rooted = false; elements = init es }) in
    if same_path dir current_dir then [] else dir.elements

-- filepath.Base: the last element that is not empty.
abbrev pub base_name : List String → String
base_name [] = "."
base_name (e ∷ es) = let rest = base_name es in if rest == "." && not (e == "") then e else rest

-- The first item of a folder with a name, a folder or a file as asked.
abbrev pub matching : String → Bool → List RemoteFile → Option RemoteFile
matching name is_dir [] = none
matching name is_dir (f ∷ fs) =
    if f.name == name && same_flag f.is_dir is_dir then some f else matching name is_dir fs

-- A file of a listing, by its logical path.
pub record RemoteEntry : Type 0 where
  pub path : List String
  pub hash : String
  pub size : ℕ
  pub mod_time : ℕ

abbrev pub cons_entry :
    RemoteEntry → Option (Result (List RemoteEntry)) → Option (Result (List RemoteEntry))
cons_entry e none = none
cons_entry e (some (err m)) = some (err m)
cons_entry e (some (ok es)) = some (ok (e ∷ es))

abbrev pub append_entries :
    Option (Result (List RemoteEntry))
    → Option (Result (List RemoteEntry))
    → Option (Result (List RemoteEntry))
append_entries none rest = none
append_entries (some (err m)) rest = some (err m)
append_entries (some (ok es)) none = none
append_entries (some (ok es)) (some (err m)) = some (err m)
append_entries (some (ok es)) (some (ok fs)) = some (ok (es ++ fs))

-- The entry of an item, under its path.
abbrev pub entry_of : List String → RemoteFile → RemoteEntry
entry_of path f = record { path = path; hash = f.hash; size = f.size; mod_time = f.mod_time }

-- The loop of `listRecursive` over the items of a folder, with the names of the files seen in it.
abbrev pub list_items :
    (String → List String → Option (Result (List RemoteEntry)))
    → List String
    → List String
    → List RemoteFile
    → Option (Result (List RemoteEntry))
list_items below prefix seen [] = some (ok [])
list_items below prefix seen (f ∷ fs) =
    let path = prefix ++ (f.name ∷ []) in
    let rest = list_items below prefix seen fs in
    let rest' = list_items below prefix (f.name ∷ seen) fs in
    if f.is_dir
    then append_entries (below f.id path) rest
    else if contains f.name seen
    then rest
    else cons_entry (entry_of path f) rest'

abbrev pub found_of : {A : Type 0} → Result A → Search A
found_of (err e) = failed e
found_of (ok a) = found a

abbrev pub acknowledged : Result String → Search (Unit {0})
acknowledged (err e) = failed e
acknowledged (ok id) = found tt

module _ (P : ComplexStorageApi) where
  unfoldable pub find_child : P.State → String → String → Bool → Result (Option RemoteFile)
  find_child s folder name is_dir = elim (P.list_files s folder) [
    | err e ↦ err e
    | ok items ↦ ok (matching name is_dir items)
  ]

  -- On as much fuel as folders are nested; none where it runs out.
  unfoldable pub list_recursive :
      ℕ → P.State → String → List String → Option (Result (List RemoteEntry))
  list_recursive zero s folder prefix = none
  list_recursive (suc n) s folder prefix = elim (P.list_files s folder) [
    | err e ↦ some (err e)
    | ok items ↦ list_items (list_recursive n s) prefix [] items
  ]

  -- What `findDir` does with a part of the path: the next folder, or one that it creates.
  abbrev pub step :
      P.State → String → String → Bool → Result (Option RemoteFile) → P.State × Search String
  step s parent part create (err e) = (s, failed e)
  step s parent part create (ok (some dir)) = (s, found dir.id)
  step s parent part false (ok none) = (s, not_exist)
  step s parent part true (ok none) = let (s', made) = P.mk_dir s part parent in (s', found_of made)

  -- A round of its loop, which an error ends.
  abbrev pub descend : String → Bool → P.State × Search String → P.State × Search String
  descend part create (s, found parent) = step s parent part create (find_child s parent part true)
  descend part create (s, not_exist) = (s, not_exist)
  descend part create (s, failed e) = (s, failed e)

  abbrev pub find_from : List String → Bool → P.State × Search String → P.State × Search String
  find_from [] create r = r
  find_from (part ∷ parts) create r = find_from parts create (descend part create r)

  unfoldable pub find_dir : P.State → List String → Bool → P.State × Search String
  unfolding find_child
  find_dir s path create = find_from (split_path path) create (s, found "")

  unfoldable pub ensure_dir : P.State → List String → P.State × Search String
  unfolding find_dir
  ensure_dir s path = find_dir s path true

  abbrev pub child_of : Result (Option RemoteFile) → Search RemoteFile
  child_of (err e) = failed e
  child_of (ok none) = not_exist
  child_of (ok (some f)) = found f

  abbrev pub resolve_in : P.State → String → Search String → Search RemoteFile
  resolve_in s name not_exist = not_exist
  resolve_in s name (failed e) = failed e
  resolve_in s name (found folder) = child_of (find_child s folder name false)

  unfoldable pub resolve : P.State → List String → Search RemoteFile
  unfolding find_child find_dir parent_path
  resolve s path = resolve_in s (base_name path) (find_dir s (parent_path path) false).1

  abbrev pub read_found : P.State → Search RemoteFile → Search P.Content
  read_found s not_exist = not_exist
  read_found s (failed e) = failed e
  read_found s (found f) = found_of (P.download s f.id)

  unfoldable pub read_file : P.State → List String → Search P.Content
  unfolding resolve
  read_file s path = read_found s (resolve s path)

  abbrev pub upload_into :
      P.Content → String → P.State × Search String → P.State × Search (Unit {0})
  upload_into c name (s, not_exist) = (s, not_exist)
  upload_into c name (s, failed e) = (s, failed e)
  upload_into c name (s, found folder) =
      let (s', sent) = P.upload s name c folder in (s', acknowledged sent)

  -- `WriteFile` after the content was read: a file that is there gets the content, none is created
  -- beside it.
  abbrev pub write_found :
      P.State → List String → P.Content → Search RemoteFile → P.State × Search (Unit {0})
  write_found s path c (failed e) = (s, failed e)
  write_found s path c (found f) = let (s', r) = P.update s f.id c in (s', found_of r)
  write_found s path c not_exist = upload_into c (base_name path) (ensure_dir s (parent_path path))

  unfoldable pub write_file : P.State → List String → P.Content → P.State × Search (Unit {0})
  unfolding resolve ensure_dir parent_path
  write_file s path c = write_found s path c (resolve s path)

  abbrev pub delete_found : P.State → Search RemoteFile → P.State × Search (Unit {0})
  delete_found s not_exist = (s, not_exist)
  delete_found s (failed e) = (s, failed e)
  delete_found s (found f) = let (s', r) = P.delete s f.id in (s', found_of r)

  unfoldable pub delete_file : P.State → List String → P.State × Search (Unit {0})
  unfolding resolve
  delete_file s path = delete_found s (resolve s path)
