-- ===== src/Sync/Session/Inversion.antt =====
-- What it takes for `Sync` to get past its checks.
use sync_vault.Base.{◌≡◌, inl, inr, List, arith, Bool-cases, string_eq, ◌==◌}
use sync_vault.Sync.Files.{FileEntry}
use sync_vault.Sync.Merkle.{Digest, build_merkle_tree, root_hash, diff}
use sync_vault.Sync.State.{StateStore}
use sync_vault.Sync.Node.{Node, ok}
use sync_vault.Sync.Engine.{ConflictStrategy, Progress, no_result, Clock}
use sync_vault.Sync.Engine.Views.{Result-cases}
use sync_vault.Sync.Session.{
  Snapshot, snapshot, record_equal, handle_paths, sync_trees, sync_listed, sync, done,
}

module _ (D : Digest) (S : StateStore) (A B : Node) (now : Clock)
    (strategy : ConflictStrategy) where
  -- Equal roots are no special case: then no path differs.
  pub sync_trees-handle_paths :
      (fs gs : List FileEntry) (m : Snapshot) (s : S.Store) (a : A.State) (b : B.State)
      → sync_trees D S A B now strategy fs gs m s a b
        ≡ handle_paths D S A B now strategy m
            (diff D (build_merkle_tree D fs) (build_merkle_tree D gs))
            (record {
              store = record_equal D S A B now m m.src_map s;
              source = a;
              target = b;
              result = no_result;
            })
  unfolding sync_trees handle_paths diff
  sync_trees-handle_paths fs gs m s a b =
      elim (Bool-cases
        (root_hash D (build_merkle_tree D fs) == root_hash D (build_merkle_tree D gs))) [
          | inl e ↦ rw e
          | inr e ↦ rw e
        ]

  sync_listed-eq-done :
      (fs gs : List FileEntry) (s : S.Store) (a : A.State) (b : B.State) (g : Progress S A B)
      → sync_listed D S A B now strategy fs gs s a b ≡ done g
      → sync_trees D S A B now strategy fs gs (snapshot D S A B now strategy fs gs s) s a b ≡ g
  unfolding sync_listed
  sync_listed-eq-done fs gs s a b g e = ground arith

  pub sync-eq-done :
      (s : S.Store) (a : A.State) (b : B.State) (g : Progress S A B)
      → sync D S A B now strategy s a b ≡ done g
      → (fs : List FileEntry) × (gs : List FileEntry) × (A.list_files a ≡ ok fs)
        × (B.list_files b ≡ ok gs)
        × (sync_trees D S A B now strategy fs gs (snapshot D S A B now strategy fs gs s) s a b ≡ g)
  unfolding sync
  sync-eq-done s a b g e = elim (Result-cases (A.list_files a)) [
    | inr (x, la) ↦ absurd (ground arith)
    | inl (fs, la) ↦ elim (Result-cases (B.list_files b)) [
      | inr (x, lb) ↦ absurd (ground arith)
      | inl (gs, lb) ↦ (fs, gs, la, lb, sync_listed-eq-done fs gs s a b g (rw (la, lb, sync) at e))
    ]
  ]
