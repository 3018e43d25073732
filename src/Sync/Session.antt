-- ===== src/Sync/Session.antt =====
-- `Sync` of internal/sync/engine.go: listing, the checks, equal files, and the differing paths.
pub mod Inversion
pub mod Rest
pub mod Wiped
pub mod Loop
pub mod Convergence
pub mod Deletion
use sync_vault.Base.{
  ℕ, String, Bool, true, false, ◌&&◌, List, [], ◌∷◌, Option, none, some, ◌==◌, string_eq,
  if◌then◌else◌,
}
use sync_vault.Base.Dict.{Dict, lookup}
use sync_vault.Sync.Files.{FileEntry, index_entries}
use sync_vault.Sync.Merkle.{Digest, build_merkle_tree, root_hash, diff}
use sync_vault.Sync.State.{
  FileState, StateStore, index_states, is_current, check_not_wiped, update_state,
}
use sync_vault.Sync.Node.{Node, ok, err}
use sync_vault.Sync.Engine.{ConflictStrategy, Progress, no_result, Clock, recording, handle_path}

-- Why `Sync` stops before it changes anything. The number is that of the files known to be lost.
pub data SyncFailure : Type 0 where
  list_source list_target : String → SyncFailure
  wiped : String → ℕ → SyncFailure

-- The maps that the listings and the recorded states are read into.
pub record Snapshot : Type 0 where
  pub src_map : Dict String FileEntry
  pub dst_map : Dict String FileEntry
  pub src_states : Dict String FileState
  pub dst_states : Dict String FileState

module _ (D : Digest) (S : StateStore) (A B : Node) (now : Clock) where
  -- One file that is the same on both nodes: its state is recorded where it is not current.
  unfoldable pub record_same :
      FileEntry → Option FileEntry → Option FileState → Option FileState → S.Store → S.Store
  record_same f none src dst s = s
  record_same f (some g) src dst s =
      if f.hash == g.hash
      then (if is_current src f && is_current dst g
          then s
          else update_state S s A.id B.id f src dst (now f.path recording))
      else s

  -- Step 3, a `range` over the source's map.
  unfoldable pub record_equal : Snapshot → Dict String FileEntry → S.Store → S.Store
  unfolding record_same
  record_equal m [] s = s
  record_equal m ((p, f) ∷ rest) s =
      record_equal m rest
        (record_same f (lookup p m.dst_map) (lookup p m.src_states) (lookup p m.dst_states) s)

  module _ (strategy : ConflictStrategy) where
    -- Step 6.
    unfoldable pub handle_paths : Snapshot → List String → Progress S A B → Progress S A B
    handle_paths m [] g = g
    handle_paths m (p ∷ ps) g = handle_paths m ps (
        handle_path S A B now strategy p (lookup p m.src_map) (lookup p m.dst_map)
          (lookup p m.src_states) (lookup p m.dst_states) g)

    abbrev pub snapshot : List FileEntry → List FileEntry → S.Store → Snapshot
    snapshot fs gs s = record {
      src_map = index_entries fs;
      dst_map = index_entries gs;
      src_states = index_states (S.all s A.id);
      dst_states = index_states (S.all s B.id);
    }

    -- Steps 3 to 6, over a snapshot.
    unfoldable pub sync_trees :
        List FileEntry → List FileEntry → Snapshot → S.Store → A.State → B.State → Progress S A B
    unfolding handle_paths record_equal
    sync_trees fs gs m s a b =
        let start : Progress S A B = record {
          store = record_equal m m.src_map s;
          source = a;
          target = b;
          result = no_result;
        } in
        if root_hash D (build_merkle_tree D fs) == root_hash D (build_merkle_tree D gs)
        then start
        else handle_paths m (diff D (build_merkle_tree D fs) (build_merkle_tree D gs)) start

    pub data Outcome : Type 0 where
      refused : SyncFailure → Outcome
      done : Progress S A B → Outcome

    unfoldable pub sync_listed :
        List FileEntry → List FileEntry → S.Store → A.State → B.State → Outcome
    unfolding sync_trees
    sync_listed fs gs s a b = elim (check_not_wiped fs (snapshot fs gs s).src_states) [
      | some live ↦ refused (wiped A.id live)
      | none ↦ elim (check_not_wiped gs (snapshot fs gs s).dst_states) [
        | some live ↦ refused (wiped B.id live)
        | none ↦ done (sync_trees fs gs (snapshot fs gs s) s a b)
      ]
    ]

    unfoldable pub sync : S.Store → A.State → B.State → Outcome
    unfolding sync_listed
    sync s a b = elim (A.list_files a) [
      | err e ↦ refused (list_source e)
      | ok fs ↦ elim (B.list_files b) [
        | err e ↦ refused (list_target e)
        | ok gs ↦ sync_listed fs gs s a b
      ]
    ]
