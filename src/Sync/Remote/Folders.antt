-- ===== src/Sync/Remote/Folders.antt =====
-- The parts of a logical path, and the way down to a folder.
use mathlib.Core.List.{reverse}
use sync_vault.Base.{
  ◌≡◌, refl, ap, ◌∙◌, String, Bool, true, false, List, [], ◌∷◌, ◌++◌, Option, none, some, Result,
  ok, err, arith, All, string_eq, if◌then◌else◌,
}
use sync_vault.Sync.Paths.{FilePath, clean, spelled, enter_all, same_path, current_dir}
use sync_vault.Sync.Paths.Shape.{IsName}
use sync_vault.Sync.Paths.Spellings.{enter_all_names}
use sync_vault.Sync.Remote.{
  RemoteFile, ComplexStorageApi, Search, found, not_exist, failed, init, split_path, parent_path,
  base_name, find_child, step, descend, find_from, find_dir, ensure_dir, child_of, resolve_in,
  resolve,
}

pub split_path_names : (ns : List String) → All IsName ns → split_path ns ≡ ns
split_path_names [] h = refl
split_path_names (e ∷ es) h = rw (h.0.0, h.0.1.0, split_path_names es h.1) refl

init-append : (ds : List String) (n : String) → init (ds ++ (n ∷ [])) ≡ ds
init-append [] n = refl
init-append (d ∷ []) n = refl
init-append (d ∷ x ∷ ds) n = ap (λ l. d ∷ l) (init-append (x ∷ ds) n)

abbrev parent_of : FilePath → List String
parent_of p = if same_path p current_dir then [] else p.elements

parent_of_names : (ds : List String) → All IsName ds → parent_of (spelled false ds) ≡ ds
unfolding string_eq
parent_of_names [] h = refl
parent_of_names (d ∷ ds) h = rw (h.0.1.0) refl

pub parent_path_names :
    (ds : List String) (n : String) → All IsName ds → parent_path (ds ++ (n ∷ [])) ≡ ds
unfolding parent_path clean
parent_path_names ds n h =
    ap (λ l. parent_of (spelled false (reverse (enter_all false [] l)))) (init-append ds n)
    ∙ ap (λ l. parent_of (spelled false l)) (enter_all_names false ds h)
    ∙ parent_of_names ds h

pub base_name_names : (ds : List String) (n : String) → IsName n → base_name (ds ++ (n ∷ [])) ≡ n
unfolding string_eq
base_name_names [] n h = ground (arith, h.0)
base_name_names (d ∷ ds) n h = ground (arith, base_name_names ds n h, h.1.0)

module _ (P : ComplexStorageApi) where
  pub find_from-append :
      (xs ys : List String) (create : Bool) (r : P.State × Search String)
      → find_from P (xs ++ ys) create r ≡ find_from P ys create (find_from P xs create r)
  find_from-append [] ys create r = refl
  find_from-append (x ∷ xs) ys create r = find_from-append xs ys create (descend P x create r)

  -- The way to a folder, and on to a folder in it.
  pub find_from_next :
      (s : P.State) (ds : List String) (k d : String) (f : RemoteFile)
      → find_from P ds false (s, found "") ≡ (s, found k)
      → find_child P s k d true ≡ ok (some f)
      → find_from P (ds ++ (d ∷ [])) false (s, found "") ≡ (s, found f.id)
  find_from_next s ds k d f h c =
      find_from-append ds (d ∷ []) false (s, found "")
      ∙ ap (descend P d false) h
      ∙ ap (step P s k d false) c

  -- What `resolve` and `ensureDir` make of a path of names.
  pub resolve_parts :
      (s : P.State) (ds : List String) (n : String)
      → All IsName ds
      → IsName n
      → resolve P s (ds ++ (n ∷ [])) ≡ resolve_in P s n (find_from P ds false (s, found "")).1
  unfolding resolve find_dir
  resolve_parts s ds n h g =
      ap
        (λ l.
          resolve_in P s (base_name (ds ++ (n ∷ [])))
            (find_from P (split_path l) false (s, found "")).1)
        (parent_path_names ds n h)
      ∙ ap (λ l. resolve_in P s (base_name (ds ++ (n ∷ []))) (find_from P l false (s, found "")).1)
          (split_path_names ds h)
      ∙ ap (λ b. resolve_in P s b (find_from P ds false (s, found "")).1) (base_name_names ds n g)

  pub ensure_dir_parts :
      (s : P.State) (ds : List String) (n : String)
      → All IsName ds
      → ensure_dir P s (parent_path (ds ++ (n ∷ []))) ≡ find_from P ds true (s, found "")
  unfolding ensure_dir find_dir
  ensure_dir_parts s ds n h =
      ap (λ l. find_from P (split_path l) true (s, found "")) (parent_path_names ds n h)
      ∙ ap (λ l. find_from P l true (s, found "")) (split_path_names ds h)

  pub resolve_names :
      (s : P.State) (ds : List String) (n k : String)
      → All IsName ds
      → IsName n
      → find_from P ds false (s, found "") ≡ (s, found k)
      → resolve P s (ds ++ (n ∷ [])) ≡ child_of P (find_child P s k n false)
  resolve_names s ds n k h g way = resolve_parts s ds n h g ∙ ap (λ r. resolve_in P s n r.1) way

  descend_state : (d : String) (r : P.State × Search String) → (descend P d false r).0 ≡ r.0
  descend_state d (s, not_exist) = refl
  descend_state d (s, failed e) = refl
  descend_state d (s, found p) = stepped (find_child P s p d true)
    where
      stepped : (c : Result (Option RemoteFile)) → (step P s p d false c).0 ≡ s
      stepped (err e) = refl
      stepped (ok none) = refl
      stepped (ok (some f)) = refl

  -- Finding a folder changes nothing.
  pub find_from_state :
      (ds : List String) (r : P.State × Search String) → (find_from P ds false r).0 ≡ r.0
  find_from_state [] r = refl
  find_from_state (d ∷ ds) r = find_from_state ds (descend P d false r) ∙ descend_state d r
