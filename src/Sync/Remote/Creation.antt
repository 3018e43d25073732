-- ===== src/Sync/Remote/Creation.antt =====
-- What WriteFile reports written is what ReadFile reads, over an API that keeps its contract.
use sync_vault.Base.{
  ◌≡◌, ◌⊎◌, refl, sym, ap, subst, ◌∙◌, inl, inr, String, Bool, true, false, List, [], ◌∷◌, Option,
  none, some, Result, ok, err, Result-cases,
}
use sync_vault.Sync.Remote.{
  RemoteFile, ComplexStorageApi, found, not_exist, failed, find_child, step, find_from, child_of,
  resolve_in, found_of,
}

-- The documented effect of the calls that succeed, on what a folder holds under a name. The order of
-- a listing is the API's own, and a file may change its hash with its content.
pub record IsLawful (P : ComplexStorageApi) : Type 0 where
  pub mk_dir_found :
      (s s' : P.State) (name parent id : String)
      → P.mk_dir s name parent ≡ (s', ok id)
      → find_child P s parent name true ≡ ok none
      → (f : RemoteFile) × (find_child P s' parent name true ≡ ok (some f)) × (f.id ≡ id)
  pub mk_dir_empty :
      (s s' : P.State) (name parent id : String) (n : String) (b : Bool)
      → P.mk_dir s name parent ≡ (s', ok id)
      → find_child P s' id n b ≡ ok none
  pub mk_dir_keeps :
      (s s' : P.State) (name parent id : String) (k n : String) (f : RemoteFile)
      → P.mk_dir s name parent ≡ (s', ok id)
      → find_child P s k n true ≡ ok (some f)
      → find_child P s' k n true ≡ ok (some f)
  pub upload_found :
      (s s' : P.State) (name folder id : String) (c : P.Content)
      → P.upload s name c folder ≡ (s', ok id)
      → find_child P s folder name false ≡ ok none
      → (f : RemoteFile) × (find_child P s' folder name false ≡ ok (some f))
        × (P.download s' f.id ≡ ok c)
  pub upload_keeps :
      (s s' : P.State) (name folder id : String) (c : P.Content) (k n : String)
      → P.upload s name c folder ≡ (s', ok id)
      → find_child P s' k n true ≡ find_child P s k n true
  pub update_done :
      (s s' : P.State) (id : String) (c : P.Content)
      → P.update s id c ≡ (s', ok tt)
      → P.download s' id ≡ ok c
  pub update_keeps :
      (s s' : P.State) (id : String) (c : P.Content) (k n : String) (b : Bool) (f : RemoteFile)
      → P.update s id c ≡ (s', ok tt)
      → find_child P s k n b ≡ ok (some f)
      → (f' : RemoteFile) × (find_child P s' k n b ≡ ok (some f')) × (f'.id ≡ f.id)

pub found_inj : {A : Type 0} {a b : A} → found a ≡ found b → a ≡ b
found_inj h = cc h

module _ (P : ComplexStorageApi) (L : IsLawful P) where
  -- The folders of a state are found under their names in another one.
  abbrev pub Keeps : P.State → P.State → Type 0
  Keeps s s' =
      (k n : String) (f : RemoteFile)
      → find_child P s k n true ≡ ok (some f)
      → (f' : RemoteFile) × (find_child P s' k n true ≡ ok (some f')) × (f'.id ≡ f.id)

  abbrev pub Way : P.State → String → List String → String → Type 0
  Way s p ds k = find_from P ds false (s, found p) ≡ (s, found k)

  find_from_below :
      (s : P.State) (p d : String) (ds : List String) (k : String) (f : RemoteFile)
      → find_child P s p d true ≡ ok (some f)
      → Way s f.id ds k
      → Way s p (d ∷ ds) k
  find_from_below s p d ds k f h way = ap (λ r. find_from P ds false (step P s p d false r)) h ∙ way

  stuck_failed :
      (s : P.State) (e : String) (ds : List String) (create : Bool)
      → (find_from P ds create (s, failed e)).1 ≡ failed e
  stuck_failed s e [] create = refl
  stuck_failed s e (d ∷ ds) create = stuck_failed s e ds create

  stuck_missing :
      (s : P.State) (ds : List String) (create : Bool)
      → (find_from P ds create (s, not_exist)).1 ≡ not_exist
  stuck_missing s [] create = refl
  stuck_missing s (d ∷ ds) create = stuck_missing s ds create

  descend_found :
      (s : P.State) (p d : String) (ds : List String) (k : String) (r : Result (Option RemoteFile))
      → find_from P ds false (step P s p d false r) ≡ (s, found k)
      → (f : RemoteFile) × (r ≡ ok (some f)) × Way s f.id ds k
  descend_found s p d ds k (err e) h =
      absurd (cc (sym (stuck_failed s e ds false) ∙ ap (λ r. r.1) h))
  descend_found s p d ds k (ok none) h =
      absurd (cc (sym (stuck_missing s ds false) ∙ ap (λ r. r.1) h))
  descend_found s p d ds k (ok (some f)) h = (f, refl, h)

  -- A way in one state is one in a state that keeps its folders.
  pub find_from_kept :
      (s s' : P.State) (p : String) (ds : List String) (k : String)
      → Keeps s s'
      → Way s p ds k
      → Way s' p ds k
  find_from_kept s s' p [] k keeps way = ap (λ r. (s', r.1)) way
  find_from_kept s s' p (d ∷ ds) k keeps way =
      let (f, q, way') = descend_found s p d ds k (find_child P s p d true) way in
      let (f', q', same) = keeps p d f q in
      find_from_below s' p d ds k f' q'
        (subst (λ i. Way s' i ds k) (sym same) (find_from_kept s s' f.id ds k keeps way'))

  -- A round that goes on: into a folder that is there, or into one that it creates.
  Goes :
      P.State
      → String
      → String
      → List String
      → P.State
      → String
      → Result (Option RemoteFile)
      → Type 0
  Goes s p d ds s' k r =
      ((f : RemoteFile) × (r ≡ ok (some f)) × (find_from P ds true (s, found f.id) ≡ (s', found k)))
      ⊎ ((m : P.State) × (id : String) × (r ≡ ok none)
          × (P.mk_dir s d p ≡ (m, ok id))
          × (find_from P ds true (m, found id) ≡ (s', found k)))

  made_Goes :
      (s : P.State) (p d : String) (ds : List String) (s' : P.State) (k : String)
      → find_from P ds true (step P s p d true (ok none)) ≡ (s', found k)
      → Goes s p d ds s' k (ok none)
  unfolding Goes
  made_Goes s p d ds s' k h =
      let m = (P.mk_dir s d p).0 in
      elim (Result-cases (P.mk_dir s d p).1) [
        | inr (e, q) ↦
            let stuck = ap (λ r. find_from P ds true (m, found_of r)) (sym q) ∙ h in
            absurd (cc (sym (stuck_failed m e ds true) ∙ ap (λ r. r.1) stuck))
        | inl (id, q) ↦ inr (
          m,
          id,
          refl,
          ap (λ r. (m, r)) q,
          ap (λ r. find_from P ds true (m, found_of r)) (sym q) ∙ h,
        )
      ]

  child_Goes :
      (s : P.State) (p d : String) (ds : List String) (s' : P.State) (k : String)
      (r : Result (Option RemoteFile))
      → find_from P ds true (step P s p d true r) ≡ (s', found k)
      → Goes s p d ds s' k r
  unfolding Goes
  child_Goes s p d ds s' k (err e) h =
      absurd (cc (sym (stuck_failed s e ds true) ∙ ap (λ r. r.1) h))
  child_Goes s p d ds s' k (ok none) h = made_Goes s p d ds s' k h
  child_Goes s p d ds s' k (ok (some f)) h = inl (f, refl, h)

  create_Keeps :
      (s : P.State) (p : String) (ds : List String) (s' : P.State) (k : String)
      → find_from P ds true (s, found p) ≡ (s', found k)
      → Keeps s s'
  unfolding Goes
  create_Keeps s p [] s' k h n x f q =
      subst (λ t. (f' : RemoteFile) × (find_child P t n x true ≡ ok (some f')) × (f'.id ≡ f.id))
        (ap (λ r. r.0) h) (f, q, refl)
  create_Keeps s p (d ∷ ds) s' k h n x f q =
      elim (child_Goes s p d ds s' k (find_child P s p d true) h) [
        | inl (g, there, rest) ↦ create_Keeps s g.id ds s' k rest n x f q
        | inr (m, id, none_yet, made, rest) ↦
            create_Keeps m id ds s' k rest n x f (L.mk_dir_keeps s m d p id n x f made q)
      ]

  pub create_Way :
      (s : P.State) (p : String) (ds : List String) (s' : P.State) (k : String)
      → find_from P ds true (s, found p) ≡ (s', found k)
      → Way s' p ds k
  unfolding Goes
  create_Way s p [] s' k h = ap (λ r. (s', r.1)) h
  create_Way s p (d ∷ ds) s' k h = elim (child_Goes s p d ds s' k (find_child P s p d true) h) [
    | inl (g, there, rest) ↦
        let (f, q, same) = create_Keeps s g.id ds s' k rest p d g there in
        find_from_below s' p d ds k f q
          (subst (λ i. Way s' i ds k) (sym same) (create_Way s g.id ds s' k rest))
    | inr (m, id, none_yet, made, rest) ↦
        let (g, there, is_id) = L.mk_dir_found s m d p id made none_yet in
        let (f, q, same) = create_Keeps m id ds s' k rest p d g there in
        find_from_below s' p d ds k f q
          (subst (λ i. Way s' i ds k) (sym (same ∙ is_id)) (create_Way m id ds s' k rest))
  ]

  -- Below an empty folder the folder that is reached is empty.
  create_empty :
      (s : P.State) (p : String) (ds : List String) (s' : P.State) (k n : String)
      → ((x : String) (b : Bool) → find_child P s p x b ≡ ok none)
      → find_from P ds true (s, found p) ≡ (s', found k)
      → find_child P s' k n false ≡ ok none
  unfolding Goes
  create_empty s p [] s' k n empty h =
      subst (λ t. find_child P t k n false ≡ ok none) (ap (λ r. r.0) h)
        (subst (λ i. find_child P s i n false ≡ ok none) (found_inj (ap (λ r. r.1) h))
          (empty n false))
  create_empty s p (d ∷ ds) s' k n empty h =
      elim (child_Goes s p d ds s' k (find_child P s p d true) h) [
        | inl (g, there, rest) ↦ absurd (cc (sym (empty d true) ∙ there))
        | inr (m, id, none_yet, made, rest) ↦
            create_empty m id ds s' k n (λ x b. L.mk_dir_empty s m d p id x b made) rest
      ]

  -- Where no file was found under a path, none is found in the folder that was ensured.
  pub create_missing :
      (s : P.State) (p : String) (ds : List String) (s' : P.State) (k n : String)
      → resolve_in P s n (find_from P ds false (s, found p)).1 ≡ not_exist
      → find_from P ds true (s, found p) ≡ (s', found k)
      → find_child P s' k n false ≡ ok none
  unfolding Goes
  create_missing s p [] s' k n missing h =
      subst (λ t. find_child P t k n false ≡ ok none) (ap (λ r. r.0) h)
        (subst (λ i. find_child P s i n false ≡ ok none) (found_inj (ap (λ r. r.1) h))
          (no_child (find_child P s p n false) missing))
    where
      no_child : (r : Result (Option RemoteFile)) → child_of P r ≡ not_exist → r ≡ ok none
      no_child (err e) q = absurd (cc q)
      no_child (ok none) q = refl
      no_child (ok (some f)) q = absurd (cc q)
  create_missing s p (d ∷ ds) s' k n missing h =
      elim (child_Goes s p d ds s' k (find_child P s p d true) h) [
        | inl (g, there, rest) ↦
            create_missing s g.id ds s' k n
              (subst
                (λ r. resolve_in P s n (find_from P ds false (step P s p d false r)).1 ≡ not_exist)
                there missing)
              rest
        | inr (m, id, none_yet, made, rest) ↦
            create_empty m id ds s' k n (λ x b. L.mk_dir_empty s m d p id x b made) rest
      ]
