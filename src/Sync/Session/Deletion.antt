-- ===== src/Sync/Session/Deletion.antt =====
-- What becomes of a file that only the source has.
use sync_vault.Base.{
  ◌≡◌, refl, sym, ap, ◌∙◌, subst, ◌⊎◌, inl, inr, String, Bool, true, false, ◌&&◌, List, [], Option,
  none, some, Option-cases, Bool-cases, string_eq, if◌then◌else◌,
}
use sync_vault.Base.Dict.{lookup}
use sync_vault.Sync.Files.{
  FileEntry, entry_at, index_entries, lookup-index_entries, hash_of, hash_at,
}
use sync_vault.Sync.Merkle.{Digest, build_merkle_tree, diff}
use sync_vault.Sync.Merkle.Roots.{Collision}
use sync_vault.Sync.Merkle.Diff.{contains-diff, differ}
use sync_vault.Sync.Merkle.Distinct.{diff-Distinct}
use sync_vault.Sync.State.{FileState, StateStore, deleted_on_other, is_current}
use sync_vault.Sync.State
use sync_vault.Sync.Node.{Node, ok, IsLawful}
use sync_vault.Sync.Engine.{
  ConflictStrategy, Progress, Clock, push, report, delete_source, handle_path,
}
use sync_vault.Sync.Engine.Views.{push_elim, append-ne-nil}
use sync_vault.Sync.Engine.Settling.{Converging}
use sync_vault.Sync.Session.Loop.{Rule, handle_paths-Handled}
use sync_vault.Sync.Session.Convergence.{ListedIn, Unchanged, handles, start, listed_at}
use sync_vault.Sync.Session.Inversion.{sync_trees-handle_paths, sync-eq-done}
use sync_vault.Sync.Session.{Snapshot, snapshot, sync_trees, sync, done}

abbrev pub has_state : Option FileState → Bool
has_state none = false
has_state (some st) = true

-- The hash that the source has in the end, where it alone has the file: none where the target knew
-- the file and the source's state of it is current, and its own otherwise.
abbrev pub fate : FileEntry → Option FileState → Option FileState → Option String
fate f src dst = if has_state dst && is_current src f then none else some f.hash

deleted_on_other-is_current :
    (src dst : Option FileState) (f : FileEntry)
    → deleted_on_other dst src f ≡ (has_state dst && is_current src f)
unfolding deleted_on_other is_current
deleted_on_other-is_current src none f = refl
deleted_on_other-is_current none (some st) f = refl
deleted_on_other-is_current (some present) (some st) f = refl

abbrev Fated :
    Option FileEntry
    → Option FileEntry
    → Option FileState
    → Option FileState
    → Option String
    → Type 0
Fated (some f) none src dst v = v ≡ fate f src dst
Fated _ _ src dst v = Unit

module _ (S : StateStore) (A B : Node) (H : String → String) (LA : IsLawful A H) (LB : IsLawful B H)
    (now : Clock) (strategy : ConflictStrategy) where
  report-push-source :
      (p : String) (f : FileEntry) (src dst : Option FileState) (g : Progress S A B)
      → (report S A B now p (push S A B now f src dst g)).source ≡ g.source
  unfolding report
  report-push-source p f src dst g =
      push_elim S A B H LA LB now (λ r. (report S A B now p r).source ≡ g.source) f src dst g
        (λ x. refl) (λ e. refl)

  delete_source_view :
      (p : String) (src dst : Option FileState) (g : Progress S A B)
      → (delete_source S A B now p src dst g).result.errors ≡ []
      → LA.view (delete_source S A B now p src dst g).source p ≡ none
  unfolding delete_source
  delete_source_view p src dst g = elim (Option-cases (A.delete_file g.source p).1) [
    | inl e ↦ rw (e, delete_source) (λ clean. LA.delete g.source p e)
    | inr (x, e) ↦ rw (e, delete_source) (λ clean. absurd (append-ne-nil g.result.errors _ clean))
  ]

  handle_path-Fated :
      (p : String) (f h : Option FileEntry) (src dst : Option FileState) (g : Progress S A B)
      → LA.view g.source p ≡ hash_of f
      → (handle_path S A B now strategy p f h src dst g).result.errors ≡ []
      → Fated f h src dst (LA.view (handle_path S A B now strategy p f h src dst g).source p)
  unfolding handle_path
  handle_path-Fated p none none src dst g l = λ clean. tt
  handle_path-Fated p none (some h) src dst g l = λ clean. tt
  handle_path-Fated p (some f) (some h) src dst g l = λ clean. tt
  handle_path-Fated p (some f) none src dst g l = elim (Bool-cases (deleted_on_other dst src f)) [
    | inl e ↦
        rw (e, handle_path)
          (λ clean.
            delete_source_view p src dst g clean
            ∙ sym (
                ap (λ b. if b then none else some f.hash)
                  (sym (deleted_on_other-is_current src dst f) ∙ e)))
    | inr e ↦
        rw (e, handle_path)
          (λ clean.
            ap (λ s. LA.view s p) (report-push-source p f src dst g)
            ∙ l
            ∙ sym (
                ap (λ b. if b then none else some f.hash)
                  (sym (deleted_on_other-is_current src dst f) ∙ e)))
  ]

module _ (D : Digest) (S : StateStore) (SL : State.IsLawful S) (A B : Node) (H : String → String)
    (LA : IsLawful A H) (LB : IsLawful B H) (now : Clock) (strategy : ConflictStrategy)
    (converging : Converging strategy) where
  abbrev FatedAt : Snapshot → String → Progress S A B → Type 0
  FatedAt m p g =
      Fated (lookup p m.src_map) (lookup p m.dst_map) (lookup p m.src_states)
        (lookup p m.dst_states) (LA.view g.source p)

  Fated-same :
      (f h : Option FileEntry) (src dst : Option FileState) (v w : Option String)
      → w ≡ v
      → Fated f h src dst v
      → Fated f h src dst w
  Fated-same f h src dst v w e x = subst (Fated f h src dst) (sym e) x

  fates :
      (m : Snapshot)
      → Rule D S A B now strategy m
          (ListedIn D S A B H LA LB now strategy converging m)
          (FatedAt m)
          (Unchanged D S A B H LA LB now strategy converging)
  fates m = record {
    same_refl = λ q g. (refl, refl);
    same_trans = λ q g g' g'' h k. (k.0 ∙ h.0, k.1 ∙ h.1);
    ready_same = λ q g g' h r. (r.0, r.1, (h.0 ∙ r.2.0, h.1 ∙ r.2.1));
    post_same = λ q g g' h r. Fated-same _ _ _ _ _ _ h.0 r;
    elsewhere = λ p q g r ne. (handles D S A B H LA LB now strategy converging m p g r).1 q ne;
    here = λ p g r clean. (
      ((handles D S A B H LA LB now strategy converging m p g r).0 clean).0,
      handle_path-Fated S A B H LA LB now strategy p _ _ _ _ g r.2.0 clean,
    );
  }

  trees_fated :
      (fs gs : List FileEntry) (m : Snapshot) (s : S.Store) (a : A.State) (b : B.State)
      → A.list_files a ≡ ok fs
      → B.list_files b ≡ ok gs
      → m.src_map ≡ index_entries fs
      → m.dst_map ≡ index_entries gs
      → (sync_trees D S A B now strategy fs gs m s a b).result.errors ≡ []
      → ((p : String)
          → differ (hash_at p fs) (hash_at p gs) ≡ true
          → FatedAt m p (sync_trees D S A B now strategy fs gs m s a b))
        ⊎ Collision D (build_merkle_tree D fs) (build_merkle_tree D gs)
  trees_fated fs gs m s a b la lb ms md clean =
      let uf = LA.listed a fs la in
      let ug = LB.listed b gs lb in
      elim (contains-diff D fs gs uf ug (LA.listed_hex a fs la) (LB.listed_hex b gs lb)) [
        | inr c ↦ inr c
        | inl exact ↦
            let ps = diff D (build_merkle_tree D fs) (build_merkle_tree D gs) in
            let whole = sync_trees-handle_paths D S A B now strategy fs gs m s a b in
            let settled =
              handle_paths-Handled D S A B now strategy m _ (FatedAt m) _ (fates m) ps
                (start D S A B H LA LB now strategy converging m s a b) (diff-Distinct D _ _)
                (λ q _.
                  listed_at D S A B H LA LB now strategy converging fs gs m s a b la lb ms md q)
                (subst (λ g. g.result.errors ≡ []) whole clean) in
            inl (λ p d. subst (FatedAt m p) (sym whole) ((settled.1 p).0 (exact p ∙ d)))
      ]

  -- The states of a lawful store are those that the snapshot has read.
  Fated-read :
      (p : String) (f : FileEntry) (o h : Option FileEntry) (s : S.Store) (v : Option String)
      → SL.IsValid s
      → o ≡ some f
      → h ≡ none
      → Fated o h
          (lookup p (State.index_states (S.all s A.id)))
          (lookup p (State.index_states (S.all s B.id)))
          v
      → v ≡ fate f (S.get s A.id p) (S.get s B.id p)
  Fated-read p f o h s v valid e n x =
      let src = lookup p (State.index_states (S.all s A.id)) in
      let dst = lookup p (State.index_states (S.all s B.id)) in
      let named =
        subst (λ k. Fated (some f) k src dst v) n (subst (λ k. Fated k h src dst v) e x) in
      subst (λ k. v ≡ fate f (S.get s A.id p) k) (SL.lookup-all s B.id p valid)
        (subst (λ k. v ≡ fate f k dst) (SL.lookup-all s A.id p valid) named)

  -- A synchronisation without errors, over a valid store, decides a file that the source alone has
  -- by the recorded states: where the target has a state of the file and the source's state of it
  -- is current, the source has no file there in the end, and otherwise it keeps its own; or else a
  -- text hashed for the files of the source and a different text hashed for those of the target have
  -- the same digest. The strategy is `KeepNewest` or `KeepSource`, and the nodes keep their
  -- contracts, which leave no colon in the hash of a file.
  pub sync-fate :
      (s : S.Store) (a : A.State) (b : B.State) (g : Progress S A B) (fs gs : List FileEntry)
      (p : String) (f : FileEntry)
      → SL.IsValid s
      → A.list_files a ≡ ok fs
      → B.list_files b ≡ ok gs
      → entry_at p fs ≡ some f
      → entry_at p gs ≡ none
      → sync D S A B now strategy s a b ≡ done g
      → g.result.errors ≡ []
      → (LA.view g.source p ≡ fate f (S.get s A.id p) (S.get s B.id p))
        ⊎ Collision D (build_merkle_tree D fs) (build_merkle_tree D gs)
  sync-fate s a b g fs gs p f valid la lb ef eg e clean =
      let (fs', gs', la', lb', w') = sync-eq-done D S A B now strategy s a b g e in
      let same_fs : ok fs' ≡ ok fs = sym la' ∙ la in
      let same_gs : ok gs' ≡ ok gs = sym lb' ∙ lb in
      let run : List FileEntry → List FileEntry → Progress S A B =
        λ x y. sync_trees D S A B now strategy x y (snapshot D S A B now strategy x y s) s a b in
      let w : run fs gs ≡ g =
        subst (λ x. run x gs ≡ g) (cc same_fs) (subst (λ y. run fs' y ≡ g) (cc same_gs) w') in
      let parted =
        ap (λ o. differ (hash_of o) (hash_at p gs)) ef
        ∙ ap (λ o. differ (some f.hash) (hash_of o)) eg in
      elim (trees_fated fs gs (snapshot D S A B now strategy fs gs s) s a b la lb refl refl
        (subst (λ x. x.result.errors ≡ []) (sym w) clean)) [
          | inr c ↦ inr c
          | inl every ↦ inl (
              Fated-read p f (lookup p (index_entries fs)) (lookup p (index_entries gs)) s
                (LA.view g.source p) valid (lookup-index_entries p fs (LA.listed a fs la) ∙ ef)
                (lookup-index_entries p gs (LB.listed b gs lb) ∙ eg)
                (subst (FatedAt (snapshot D S A B now strategy fs gs s) p) w (every p parted)))
        ]
