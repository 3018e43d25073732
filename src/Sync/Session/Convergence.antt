-- ===== src/Sync/Session/Convergence.antt =====
-- A synchronisation without errors leaves both nodes with the same files.
use sync_vault.Base.{
  ◌≡◌, refl, sym, ap, ◌∙◌, subst, ◌⊎◌, inl, inr, String, List, [], Option-cases, Bool-cases,
  string_eq, contains,
}
use sync_vault.Base.Dict.{lookup}
use sync_vault.Sync.Files.{
  FileEntry, NodupPaths, entry_at, entry_at-path, index_entries, lookup-index_entries, hash_of,
}
use sync_vault.Sync.Merkle.{Digest, build_merkle_tree, diff}
use sync_vault.Sync.Merkle.Roots.{Collision}
use sync_vault.Sync.Merkle.Diff.{contains-diff, eq_of_differ}
use sync_vault.Sync.Merkle.Distinct.{diff-Distinct}
use sync_vault.Sync.State.{StateStore}
use sync_vault.Sync.Node.{Node, ok, IsLawful}
use sync_vault.Sync.Engine.{ConflictStrategy, Progress, no_result, Clock}
use sync_vault.Sync.Engine.Views.{Clean, Handles}
use sync_vault.Sync.Engine.Settling.{Converging, HasPath, Listed, handle_path-Handles}
use sync_vault.Sync.Session.Loop.{Rule, step, handle_paths-Handled}
use sync_vault.Sync.Session.Inversion.{sync_trees-handle_paths, sync-eq-done}
use sync_vault.Sync.Session.{Snapshot, snapshot, record_equal, sync_trees, sync, done}

pub HasPath-index :
    (p : String) (fs : List FileEntry) → NodupPaths fs → HasPath p (lookup p (index_entries fs))
HasPath-index p fs u = elim (Option-cases (entry_at p fs)) [
  | inl e ↦ subst (HasPath p) (sym (lookup-index_entries p fs u ∙ e)) tt
  | inr (f, e) ↦ subst (HasPath p) (sym (lookup-index_entries p fs u ∙ e)) (entry_at-path p fs f e)
]

-- A text that is hashed for the files of the one node and a different one that is hashed for those
-- of the other have the same digest.
abbrev pub Clash : (D : Digest) (A B : Node) → A.State → B.State → Type 0
Clash D A B a b =
    (fs : List FileEntry) × (gs : List FileEntry) × (A.list_files a ≡ ok fs)
    × (B.list_files b ≡ ok gs)
    × Collision D (build_merkle_tree D fs) (build_merkle_tree D gs)

module _ (D : Digest) (S : StateStore) (A B : Node) (H : String → String) (LA : IsLawful A H)
    (LB : IsLawful B H) (now : Clock) (strategy : ConflictStrategy)
    (converging : Converging strategy) where
  -- The nodes have the same file at `p`, or both have none.
  abbrev pub AgreesAt : String → Progress S A B → Type 0
  AgreesAt p g = LA.view g.source p ≡ LB.view g.target p

  abbrev pub Unchanged : String → Progress S A B → Progress S A B → Type 0
  Unchanged q g g' =
      (LA.view g'.source q ≡ LA.view g.source q) × (LB.view g'.target q ≡ LB.view g.target q)

  abbrev pub ListedIn : Snapshot → String → Progress S A B → Type 0
  ListedIn m q g =
      HasPath q (lookup q m.src_map)
      × HasPath q (lookup q m.dst_map)
      × Listed S A B H LA LB now q (lookup q m.src_map) (lookup q m.dst_map) g

  pub handles :
      (m : Snapshot) (p : String) (g : Progress S A B)
      → ListedIn m p g
      → Handles S A B H LA LB now p g (step D S A B now strategy m p g)
  handles m p g (sp, dp, l) =
      handle_path-Handles S A B H LA LB now strategy converging p (lookup p m.src_map)
        (lookup p m.dst_map) (lookup p m.src_states) (lookup p m.dst_states) g sp dp l

  agreement : (m : Snapshot) → Rule D S A B now strategy m (ListedIn m) AgreesAt Unchanged
  agreement m = record {
    same_refl = λ q g. (refl, refl);
    same_trans = λ q g g' g'' h k. (k.0 ∙ h.0, k.1 ∙ h.1);
    ready_same = λ q g g' h r. (r.0, r.1, (h.0 ∙ r.2.0, h.1 ∙ r.2.1));
    post_same = λ q g g' h r. h.0 ∙ r ∙ sym h.1;
    elsewhere = λ p q g r ne. (handles m p g r).1 q ne;
    here = λ p g r clean. (handles m p g r).0 clean;
  }

  -- The states before the loop: the equal files are recorded, and the nodes are as listed.
  abbrev pub start : Snapshot → S.Store → A.State → B.State → Progress S A B
  start m s a b = record {
    store = record_equal D S A B now m m.src_map s;
    source = a;
    target = b;
    result = no_result;
  }

  pub listed_at :
      (fs gs : List FileEntry) (m : Snapshot) (s : S.Store) (a : A.State) (b : B.State)
      → A.list_files a ≡ ok fs
      → B.list_files b ≡ ok gs
      → m.src_map ≡ index_entries fs
      → m.dst_map ≡ index_entries gs
      → (q : String) → ListedIn m q (start m s a b)
  listed_at fs gs m s a b la lb ms md q =
      let uf = LA.listed a fs la in
      let ug = LB.listed b gs lb in
      (
        subst (λ d. HasPath q (lookup q d)) (sym ms) (HasPath-index q fs uf),
        subst (λ d. HasPath q (lookup q d)) (sym md) (HasPath-index q gs ug),
        (
          sym (LA.listed_view a fs la q)
              ∙ ap hash_of (sym (ap (lookup q) ms ∙ lookup-index_entries q fs uf)),
          sym (LB.listed_view b gs lb q)
              ∙ ap hash_of (sym (ap (lookup q) md ∙ lookup-index_entries q gs ug)),
        ),
      )

  trees_agree :
      (fs gs : List FileEntry) (m : Snapshot) (s : S.Store) (a : A.State) (b : B.State)
      → A.list_files a ≡ ok fs
      → B.list_files b ≡ ok gs
      → m.src_map ≡ index_entries fs
      → m.dst_map ≡ index_entries gs
      → Clean S A B H LA LB now (sync_trees D S A B now strategy fs gs m s a b)
      → ((p : String) → AgreesAt p (sync_trees D S A B now strategy fs gs m s a b))
        ⊎ Collision D (build_merkle_tree D fs) (build_merkle_tree D gs)
  trees_agree fs gs m s a b la lb ms md clean =
      let uf = LA.listed a fs la in
      let ug = LB.listed b gs lb in
      elim (contains-diff D fs gs uf ug (LA.listed_hex a fs la) (LB.listed_hex b gs lb)) [
        | inr c ↦ inr c
        | inl exact ↦
            let ps = diff D (build_merkle_tree D fs) (build_merkle_tree D gs) in
            let whole = sync_trees-handle_paths D S A B now strategy fs gs m s a b in
            let settled =
              handle_paths-Handled D S A B now strategy m (ListedIn m) AgreesAt Unchanged
                (agreement m) ps (start m s a b) (diff-Distinct D _ _)
                (λ q _. listed_at fs gs m s a b la lb ms md q)
                (subst (Clean S A B H LA LB now) whole clean) in
            inl (λ p. subst (AgreesAt p) (sym whole) (elim (Bool-cases (contains p ps)) [
              | inl member ↦ (settled.1 p).0 member
              | inr absent ↦
                  let kept = (settled.1 p).1 absent in
                  kept.0
                  ∙ sym (LA.listed_view a fs la p)
                  ∙ eq_of_differ _ _ (sym (exact p) ∙ absent)
                  ∙ LB.listed_view b gs lb p
                  ∙ sym kept.1
            ]))
      ]

  -- A synchronisation that reports no error leaves, at every path, the same hash on both nodes or
  -- no file on either, or else a text that is hashed for the files of the one node and a different
  -- text that is hashed for those of the other have the same digest. The strategy is `KeepNewest` or
  -- `KeepSource`, the nodes keep their contracts, which leave no colon in the hash of a file, and
  -- only the engine changes them meanwhile.
  pub sync_converges :
      (s : S.Store) (a : A.State) (b : B.State) (g : Progress S A B)
      → sync D S A B now strategy s a b ≡ done g
      → g.result.errors ≡ []
      → ((p : String) → LA.view g.source p ≡ LB.view g.target p) ⊎ Clash D A B a b
  sync_converges s a b g e clean =
      let (fs, gs, la, lb, w) = sync-eq-done D S A B now strategy s a b g e in
      elim (trees_agree fs gs (snapshot D S A B now strategy fs gs s) s a b la lb refl refl
        (subst (Clean S A B H LA LB now) (sym w) clean)) [
          | inl every ↦ inl (subst (λ x. (p : String) → AgreesAt p x) w every)
          | inr c ↦ inr (fs, gs, la, lb, c)
        ]
