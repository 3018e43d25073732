-- ===== src/Sync/Engine.antt =====
-- `SyncEngine` of internal/sync/engine.go, one path at a time. The state store and the two nodes
-- are parameters; `now` is the time at each point where the code asks for it.
pub mod Detection
pub mod Views
pub mod Settling
use sync_vault.Base.{
  ℕ, ◌+◌, String, ◌<>◌, Bool, true, false, List, [], ◌∷◌, ◌++◌, Option, none, some, ltb,
  if◌then◌else◌,
}
use sync_vault.Sync.Clock.{Relation, before, after, equal, concurrent, compare}
use sync_vault.Sync.Files.{FileEntry}
use sync_vault.Sync.State.{
  FileState, StateStore, deleted_on_other, update_state, mark_deleted, observe,
}
use sync_vault.Sync.Node.{Node, Result, ok, err, Fault, read_failed, write_failed, transfer}

-- Any value but the three named ones falls through the `switch`.
pub data ConflictStrategy : Type 0 where
  keep_newest keep_source keep_both other_strategy : ConflictStrategy

pub data Resolution : Type 0 where
  kept_source_newer kept_target_newer kept_source kept_both unresolved : Resolution

pub record ConflictInfo : Type 0 where
  pub path : String
  pub source_node : String
  pub target_node : String
  pub resolution : Resolution

pub data SyncError : Type 0 where
  delete_error : String → String → SyncError
  transfer_error resolve_error : String → Fault → SyncError

pub record SyncResult : Type 0 where
  pub transferred : ℕ
  pub deleted : ℕ
  pub conflicts : List ConflictInfo
  pub errors : List SyncError

abbrev pub no_result : SyncResult
no_result = record { transferred = 0; deleted = 0; conflicts = []; errors = [] }

-- The points at which the code asks for the time while it handles a path.
pub data Moment : Type 0 where
  observing_source observing_target recording : Moment

abbrev pub Clock : Type 0
Clock = String → Moment → ℕ

module _ (S : StateStore) (A B : Node) where
  -- What a synchronisation changes.
  pub record Progress : Type 0 where
    pub store : S.Store
    pub source : A.State
    pub target : B.State
    pub result : SyncResult

  abbrev pub add_error : SyncError → Progress → Progress
  add_error e g = record g { result = record (g.result) { errors = g.result.errors ++ (e ∷ []) } }

  abbrev pub count_transfer : SyncResult → SyncResult
  count_transfer r = record r { transferred = r.transferred + 1 }

  abbrev pub count_delete : SyncResult → SyncResult
  count_delete r = record r { deleted = r.deleted + 1 }

  module _ (now : Clock) where
    -- source → target: the nodes and the states, or the error with the target as it was left.
    unfoldable pub push :
        FileEntry → Option FileState → Option FileState → Progress → Progress × Option Fault
    push f src dst g =
        let (t, e) = transfer A B g.source g.target f.path in
        elim e [
          | some fault ↦ (record g { target = t }, some fault)
          | none ↦ (
            record g {
              target = t;
              store = update_state S g.store A.id B.id f src dst (now f.path recording);
            },
            none,
          )
        ]

    -- target → source
    unfoldable pub pull :
        FileEntry → Option FileState → Option FileState → Progress → Progress × Option Fault
    pull f src dst g =
        let (s, e) = transfer B A g.target g.source f.path in
        elim e [
          | some fault ↦ (record g { source = s }, some fault)
          | none ↦ (
            record g {
              source = s;
              store = update_state S g.store B.id A.id f dst src (now f.path recording);
            },
            none,
          )
        ]

    -- The copy's outcome goes into the result.
    unfoldable pub report : String → Progress × Option Fault → Progress
    report p (g, some fault) = add_error (transfer_error p fault) g
    report p (g, none) = record g { result = count_transfer g.result }

    unfoldable pub delete_source :
        String → Option FileState → Option FileState → Progress → Progress
    delete_source p src dst g =
        let (s, e) = A.delete_file g.source p in
        elim e [
          | some m ↦ add_error (delete_error p m) (record g { source = s })
          | none ↦ record g {
            source = s;
            store = mark_deleted S g.store B.id A.id p dst src (now p recording);
            result = count_delete g.result;
          }
        ]

    unfoldable pub delete_target :
        String → Option FileState → Option FileState → Progress → Progress
    delete_target p src dst g =
        let (t, e) = B.delete_file g.target p in
        elim e [
          | some m ↦ add_error (delete_error p m) (record g { target = t })
          | none ↦ record g {
            target = t;
            store = mark_deleted S g.store A.id B.id p src dst (now p recording);
            result = count_delete g.result;
          }
        ]

    -- The branch of `KeepBoth`: the source's version goes beside the target's, which stays.
    unfoldable pub keep_two :
        FileEntry → FileEntry → FileState → FileState → Progress → Progress × Option Fault
    unfolding pull
    keep_two f g src dst st = elim (A.read_file st.source f.path) [
      | err e ↦ (st, some (read_failed e))
      | ok c ↦
          let (t, e) = B.write_file st.target (f.path <> (".conflict." <> A.id)) c in
          elim e [
            | some m ↦ (record st { target = t }, some (write_failed m))
            | none ↦ pull g (some src) (some dst) (record st { target = t })
          ]
    ]

    -- `resolveConflict`
    unfoldable pub resolve_conflict :
        ConflictStrategy
        → FileEntry
        → FileEntry
        → FileState
        → FileState
        → Progress
        → Progress × Option Fault × Resolution
    unfolding push pull keep_two
    resolve_conflict keep_newest f g src dst st =
        if ltb dst.updated_at src.updated_at
        then (let (r, e) = push f (some src) (some dst) st in (r, e, kept_source_newer))
        else (let (r, e) = pull g (some src) (some dst) st in (r, e, kept_target_newer))
    resolve_conflict keep_source f g src dst st =
        let (r, e) = push f (some src) (some dst) st in (r, e, kept_source)
    resolve_conflict keep_both f g src dst st =
        let (r, e) = keep_two f g src dst st in (r, e, kept_both)
    resolve_conflict other_strategy f g src dst st = (st, none, unresolved)

    unfoldable pub record_conflict : String → Progress × Option Fault × Resolution → Progress
    record_conflict p (g, some fault, r) = add_error (resolve_error p fault) g
    record_conflict p (g, none, r) = record g {
      result = record (g.result) {
        conflicts =
            g.result.conflicts
            ++ (record { path = p; source_node = A.id; target_node = B.id; resolution = r } ∷ []);
      };
    }

    module _ (strategy : ConflictStrategy) where
      -- By the relation of the two observed states.
      unfoldable pub by_relation :
          Relation → String → FileEntry → FileEntry → FileState → FileState → Progress → Progress
      unfolding push pull report resolve_conflict record_conflict
      by_relation after p f g src dst st = report p (push f (some src) (some dst) st)
      by_relation equal p f g src dst st = report p (push f (some src) (some dst) st)
      by_relation before p f g src dst st = report p (pull g (some src) (some dst) st)
      by_relation concurrent p f g src dst st =
          record_conflict p (resolve_conflict strategy f g src dst st)

      -- The file stands on both nodes.
      unfoldable pub on_both :
          String → FileEntry → FileEntry → Option FileState → Option FileState → Progress → Progress
      unfolding by_relation push report
      on_both p f g (some src) (some dst) st =
          let s = observe A.id f src (now f.path observing_source) in
          let d = observe B.id g dst (now g.path observing_target) in
          by_relation (compare s.clock d.clock) p f g s d st
      on_both p f g none dst st = report p (push f none dst st)
      on_both p f g (some src) none st = report p (push f (some src) none st)

      -- The body of the loop over the differing paths.
      unfoldable pub handle_path :
          String
          → Option FileEntry
          → Option FileEntry
          → Option FileState
          → Option FileState
          → Progress
          → Progress
      unfolding push pull report delete_source delete_target on_both deleted_on_other
      handle_path p none none src dst g = g
      handle_path p (some f) none src dst g =
          if deleted_on_other dst src f
          then delete_source p src dst g
          else report p (push f src dst g)
      handle_path p none (some f) src dst g =
          if deleted_on_other src dst f
          then delete_target p src dst g
          else report p (pull f src dst g)
      handle_path p (some f) (some h) src dst g = on_both p f h src dst g
