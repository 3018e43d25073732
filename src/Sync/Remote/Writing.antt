-- ===== src/Sync/Remote/Writing.antt =====
-- What WriteFile reports written is what ReadFile reads.
use sync_vault.Base.{
  ◌≡◌, refl, sym, ap, subst, ◌∙◌, String, true, false, List, [], ◌∷◌, ◌++◌, Option, none, some,
  Result, ok, err, All,
}
use sync_vault.Sync.Paths.Shape.{IsName}
use sync_vault.Sync.Remote.{
  RemoteFile, ComplexStorageApi, Search, found, not_exist, failed, parent_path, find_child,
  find_from, ensure_dir, child_of, resolve_in, resolve, read_found, read_file, upload_into,
  found_of, acknowledged, write_found, write_file,
}
use sync_vault.Sync.Remote.Folders.{
  base_name_names, resolve_parts, ensure_dir_parts, resolve_names, find_from_state,
}
use sync_vault.Sync.Remote.Creation.{
  IsLawful, found_inj, Way, find_from_kept, create_Way, create_missing,
}

acknowledged_ok : (r : Result String) → acknowledged r ≡ found tt → (id : String) × (r ≡ ok id)
acknowledged_ok (err e) h = absurd (cc h)
acknowledged_ok (ok id) h = (id, refl)

found_of_ok : (r : Result {0} Unit) → found_of r ≡ found tt → r ≡ ok tt
found_of_ok (err e) h = absurd (cc h)
found_of_ok (ok tt) h = refl

module _ (P : ComplexStorageApi) (L : IsLawful P) (ds : List String) (n : String)
    (names : All IsName ds) (name : IsName n) where
  read_at :
      (s : P.State) (k : String) (f : RemoteFile) (c : P.Content)
      → Way P L s "" ds k
      → find_child P s k n false ≡ ok (some f)
      → P.download s f.id ≡ ok c
      → read_file P s (ds ++ (n ∷ [])) ≡ found c
  unfolding read_file
  read_at s k f c way there content =
      ap (read_found P s) (resolve_names P s ds n k names name way ∙ ap (child_of P) there)
      ∙ ap found_of content

  -- The folder and the item behind a file that was resolved.
  resolved_at :
      (s : P.State) (r : Search String) (f : RemoteFile)
      → (find_from P ds false (s, found "")).1 ≡ r
      → resolve_in P s n r ≡ found f
      → (k : String) × Way P L s "" ds k × (find_child P s k n false ≡ ok (some f))
  resolved_at s not_exist f q h = absurd (cc h)
  resolved_at s (failed e) f q h = absurd (cc h)
  resolved_at s (found k) f q h = (
    k,
    ap (λ t. (t, (find_from P ds false (s, found "")).1)) (find_from_state P ds (s, found ""))
        ∙ ap (λ r. (s, r)) q,
    the_child (find_child P s k n false) h,
  )
    where
      the_child : (r : Result (Option RemoteFile)) → child_of P r ≡ found f → r ≡ ok (some f)
      the_child (err e) g = absurd (cc g)
      the_child (ok none) g = absurd (cc g)
      the_child (ok (some f')) g = ap (λ x. ok (some x)) (found_inj g)

  uploaded :
      (c : P.Content) (s s' m : P.State) (r : Search String)
      → ((k : String) → r ≡ found k → Way P L m "" ds k × (find_child P m k n false ≡ ok none))
      → upload_into P c n (m, r) ≡ (s', found tt)
      → read_file P s' (ds ++ (n ∷ [])) ≡ found c
  uploaded c s s' m not_exist way h = absurd (cc (ap (λ r. r.1) h))
  uploaded c s s' m (failed e) way h = absurd (cc (ap (λ r. r.1) h))
  uploaded c s s' m (found k) way h =
      let u = P.upload m n c k in
      let (id, q) = acknowledged_ok u.1 (ap (λ r. r.1) h) in
      let sent : u ≡ (s', ok id) = ap (λ r. (u.0, r)) q ∙ ap (λ t. (t, ok id)) (ap (λ r. r.0) h) in
      let (there, missing) = way k refl in
      let (f, item, content) = L.upload_found m s' n k id c sent missing in
      read_at s' k f c
        (find_from_kept P L m s' "" ds k
          (λ j x g at. (g, L.upload_keeps m s' n k id c j x sent ∙ at, refl)) there)
        item content

  written :
      (c : P.Content) (s s' : P.State) (r : Search RemoteFile)
      → resolve P s (ds ++ (n ∷ [])) ≡ r
      → write_found P s (ds ++ (n ∷ [])) c r ≡ (s', found tt)
      → read_file P s' (ds ++ (n ∷ [])) ≡ found c
  written c s s' (failed e) q h = absurd (cc (ap (λ r. r.1) h))
  written c s s' (found f) q h =
      let u = P.update s f.id c in
      let sent : u ≡ (s', ok tt) =
        ap (λ r. (u.0, r)) (found_of_ok u.1 (ap (λ r. r.1) h))
        ∙ ap (λ t. (t, ok tt)) (ap (λ r. r.0) h) in
      let (k, way, there) = resolved_at s _ f refl (sym (resolve_parts P s ds n names name) ∙ q) in
      let (g, there', same) = L.update_keeps s s' f.id c k n false f sent there in
      read_at s' k g c
        (find_from_kept P L s s' "" ds k (λ j x i at. L.update_keeps s s' f.id c j x true i sent at)
          way)
        there' (subst (λ i. P.download s' i ≡ ok c) (sym same) (L.update_done s s' f.id c sent))
  written c s s' not_exist q h =
      let ensured = find_from P ds true (s, found "") in
      let missing = sym (resolve_parts P s ds n names name) ∙ q in
      uploaded c s s' ensured.0 ensured.1
        (λ k e.
          let at : ensured ≡ (ensured.0, found k) = ap (λ r. (ensured.0, r)) e in
          (
            create_Way P L s "" ds ensured.0 k at,
            create_missing P L s "" ds ensured.0 k n missing at,
          ))
        (ap (λ r. upload_into P c n r) (sym (ensure_dir_parts P s ds n names))
          ∙ ap (λ b. upload_into P c b (ensure_dir P s (parent_path (ds ++ (n ∷ [])))))
              (sym (base_name_names ds n name))
          ∙ h)

  -- Over an API that keeps its contract: what WriteFile reports written under a path of names, with
  -- the folders it created on the way, or over a file that was there, is what ReadFile then reads
  -- under it.
  pub write_file-read_file :
      (c : P.Content) (s s' : P.State)
      → write_file P s (ds ++ (n ∷ [])) c ≡ (s', found tt)
      → read_file P s' (ds ++ (n ∷ [])) ≡ found c
  unfolding write_file
  write_file-read_file c s s' h = written c s s' (resolve P s (ds ++ (n ∷ []))) refl h
