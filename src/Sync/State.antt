-- ===== src/Sync/State.antt =====
-- internal/sync/engine.go: the recorded state of files, and the store that keeps it.
pub mod Memory
pub mod History
use sync_vault.Base.{
  ℕ, ◌+◌, ◌≡◌, refl, String, Bool, true, false, not, ◌&&◌, List, [], ◌∷◌, Option, none, some, ◌==◌,
  string_eq, nat_eq, if◌then◌else◌, ltb,
}
use sync_vault.Base.Dict.{Dict, lookup, insert, values}
use sync_vault.Sync.Clock.{VectorClock, new_vector_clock, increment, merge, clone}
use sync_vault.Sync.Files.{FileEntry}

-- `deleted` marks a tombstone.
pub record FileState : Type 0 where
  pub path : String
  pub hash : String
  pub size : ℕ
  pub clock : VectorClock
  pub updated_at : ℕ
  pub node_id : String
  pub deleted : Bool

-- `StateStore`: the states of the files of all nodes, by node and path.
pub record StateStore : Type 1 where
  pub Store : Type 0
  pub get : Store → String → String → Option FileState
  pub set : Store → String → String → FileState → Store
  pub all : Store → String → List FileState
  pub delete_node : Store → String → Store

-- `indexStates`
unfoldable pub add_states : Dict String FileState → List FileState → Dict String FileState
add_states m [] = m
add_states m (st ∷ sts) = add_states (insert st.path st m) sts

unfoldable pub index_states : List FileState → Dict String FileState
unfolding add_states
index_states sts = add_states [] sts

-- What `Sync` needs of a store. `IsValid` says that a state is kept under its own path.
pub record IsLawful (S : StateStore) : Type 1 where
  pub IsValid : S.Store → Type 0
  pub get-set :
      (s : S.Store) (n m p q : String) (st : FileState)
      → S.get (S.set s n p st) m q ≡ (if m == n && q == p then some st else S.get s m q)
  pub get-delete_node :
      (s : S.Store) (n m p : String)
      → S.get (S.delete_node s n) m p ≡ (if m == n then none else S.get s m p)
  pub lookup-all :
      (s : S.Store) (n p : String) → IsValid s → lookup p (index_states (S.all s n)) ≡ S.get s n p
  pub set-IsValid :
      (s : S.Store) (n p : String) (st : FileState)
      → IsValid s
      → st.path ≡ p
      → IsValid (S.set s n p st)
  pub delete_node-IsValid : (s : S.Store) (n : String) → IsValid s → IsValid (S.delete_node s n)

-- `isCurrent`: the state describes the file on the node.
unfoldable pub is_current : Option FileState → FileEntry → Bool
is_current none f = false
is_current (some st) f = not st.deleted && st.hash == f.hash

-- `deletedOnOther`: the other node knew the file, and it has not changed here since.
unfoldable pub deleted_on_other : Option FileState → Option FileState → FileEntry → Bool
deleted_on_other none present f = false
deleted_on_other (some missing) none f = false
deleted_on_other (some missing) (some present) f = not present.deleted && present.hash == f.hash

-- `len` of the states that are no tombstones.
unfoldable pub count_live : List FileState → ℕ
count_live [] = 0
count_live (st ∷ sts) = (if st.deleted then 0 else 1) + count_live sts

abbrev pub wipe_threshold : ℕ
wipe_threshold = 10

-- `checkNotWiped`: `some live` is the refusal.
unfoldable pub check_not_wiped : List FileEntry → Dict String FileState → Option ℕ
unfolding count_live
check_not_wiped [] states =
    if ltb wipe_threshold (count_live (values states))
    then some (count_live (values states))
    else none
check_not_wiped (f ∷ fs) states = none

-- The clock that `updateState` records for both nodes.
unfoldable pub updated_clock : String → Option FileState → Option FileState → VectorClock
updated_clock from_id (some from) (some to) = merge from.clock to.clock
updated_clock from_id (some from) none = clone from.clock
updated_clock from_id none (some to) = increment to.clock from_id
updated_clock from_id none none = increment new_vector_clock from_id

abbrev pub merge_state : VectorClock → Option FileState → VectorClock
merge_state c none = c
merge_state c (some st) = merge c st.clock

-- The clock of the tombstones.
unfoldable pub deleted_clock : String → Option FileState → Option FileState → VectorClock
deleted_clock deleter_id deleter target =
    increment (merge_state (merge_state new_vector_clock deleter) target) deleter_id

-- The states that `updateState` and `markDeleted` write for one node.
abbrev pub live_state : FileEntry → VectorClock → ℕ → String → FileState
live_state f c now n = record {
  path = f.path;
  hash = f.hash;
  size = f.size;
  clock = c;
  updated_at = now;
  node_id = n;
  deleted = false;
}

abbrev pub tombstone : String → VectorClock → ℕ → String → FileState
tombstone p c now n = record {
  path = p;
  hash = "";
  size = 0;
  clock = c;
  updated_at = now;
  node_id = n;
  deleted = true;
}

module _ (S : StateStore) where
  unfoldable pub update_state :
      S.Store → String → String → FileEntry → Option FileState → Option FileState → ℕ → S.Store
  update_state s from_id to_id f from to now =
      let c = updated_clock from_id from to in
      S.set (S.set s from_id f.path (live_state f c now from_id)) to_id f.path
        (live_state f c now to_id)

  unfoldable pub mark_deleted :
      S.Store → String → String → String → Option FileState → Option FileState → ℕ → S.Store
  mark_deleted s deleter_id target_id p deleter target now =
      let c = deleted_clock deleter_id deleter target in
      S.set (S.set s deleter_id p (tombstone p c now deleter_id)) target_id p
        (tombstone p c now target_id)

  -- `ForgetNode`
  abbrev pub forget_node : S.Store → String → S.Store
  forget_node s n = S.delete_node s n

-- `observe`, at the time `now`: a file that changed since its state counts in the clock.
unfoldable pub observe : String → FileEntry → FileState → ℕ → FileState
observe n f st now =
    if st.hash == f.hash
    then st
    else live_state f (increment st.clock n) (if f.mod_time == 0 then now else f.mod_time) n
