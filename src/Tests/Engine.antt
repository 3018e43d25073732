-- ===== src/Tests/Engine.antt =====
-- Synchronisations of nodes kept in memory.
use sync_vault.Base.{
  ◌≡◌, refl, ◌⊎◌, ◌↔◌, String, false, List, [], ◌∷◌, none, some, true, arith, contains, ==-refl,
  string_eq, nat_eq,
}
use sync_vault.Base.Text.{text_lt}
use sync_vault.Base.Dict.{Dict, lookup, insert, erase}
use sync_vault.Sync.Clock.{count, add_keys}
use sync_vault.Sync.Files.{FileEntry, entry_at, index_entries, sort_entries, sort_texts}
use sync_vault.Sync.Merkle.{build_merkle_tree, root_hash, diff, add_hashes, changed, added}
use sync_vault.Sync.Merkle.Roots.{Collision}
use sync_vault.Sync.State.{
  FileState, index_states, update_state, mark_deleted, is_current, updated_clock, deleted_clock,
  check_not_wiped,
}
use sync_vault.Sync.State.Memory.{
  AllKeyed, set-AllKeyed, new_in_memory_state_store, memory_laws, States, memory_store,
  memory_get-set, memory_get, memory_set, memory_all,
}
use sync_vault.Sync.State.History.{
  StoreCall, sets, forgets, handle_all, recorded_after, new_in_memory_state_store-answers,
}
use sync_vault.Sync.Node.{Node, transfer}
use sync_vault.Sync.Engine.{
  keep_newest, Clock, Progress, push, pull, handle_path, SyncResult, no_result,
}
use sync_vault.Sync.Session.{sync, Outcome, done, refused, record_equal}
use sync_vault.Sync.Session.Convergence.{Clash, sync_converges}
use sync_vault.Sync.Session.Rest.{sync_twice}
use sync_vault.Sync.Session.Wiped.{is_live, GoesAhead, KnowsMany, sync-not_wiped}
use sync_vault.Sync.Session.Deletion.{fate, sync-fate}
use sync_vault.Tests.Nodes.{
  toy, toy_digest, Contents, memory_node, memory_node-IsLawful, list_contents, hashed, contents,
}

abbrev noon : Clock
noon p m = 100

abbrev a_node : Node
a_node = memory_node "a"

abbrev b_node : Node
b_node = memory_node "b"

abbrev AbOutcome : Type 0
AbOutcome = Outcome toy memory_store a_node b_node noon keep_newest

-- The run and all that it computes with.
run : Dict String States → Contents → Contents → AbOutcome
unfolding sync add_keys count lookup insert erase string_eq text_lt sort_entries sort_texts
    build_merkle_tree root_hash diff add_hashes changed added index_entries index_states memory_get
    memory_set memory_all update_state mark_deleted is_current transfer push pull handle_path
    record_equal updated_clock deleted_clock list_contents toy_digest contents check_not_wiped
run s a b = sync toy memory_store a_node b_node noon keep_newest s a b

abbrev result_of : AbOutcome → SyncResult
result_of (refused r) = no_result
result_of (done g) = g.result

abbrev a_files : Contents
a_files = contents (("one", "1") ∷ ("two", "2") ∷ [])

abbrev b_files : Contents
b_files = contents (("three", "3") ∷ ("two", "2") ∷ [])

first_run : (result_of (run [] a_files b_files)).transferred ≡ 2
unfolding run
first_run = refl

abbrev reached : AbOutcome → Progress memory_store a_node b_node
reached (refused r) = record { store = []; source = a_files; target = b_files; result = no_result }
reached (done g) = g

abbrev once : Progress memory_store a_node b_node
once = reached (run [] a_files b_files)

abbrev twice : Progress memory_store a_node b_node
twice = reached (run once.store once.source once.target)

sync_converges_example :
    ((p : String) → hashed (lookup p once.source.0) ≡ hashed (lookup p once.target.0))
    ⊎ Clash toy a_node b_node a_files b_files
unfolding run
sync_converges_example =
    sync_converges toy memory_store a_node b_node toy_digest (memory_node-IsLawful "a")
      (memory_node-IsLawful "b") noon keep_newest tt [] a_files b_files once refl refl

sync_twice_example :
    ((twice.result ≡ no_result) × (twice.source ≡ once.source) × (twice.target ≡ once.target))
    ⊎ Clash toy a_node b_node a_files b_files
    ⊎ Clash toy a_node b_node once.source once.target
unfolding run
sync_twice_example =
    sync_twice toy memory_store a_node b_node toy_digest (memory_node-IsLawful "a")
      (memory_node-IsLawful "b") noon keep_newest tt [] once.store a_files b_files once twice refl
      refl refl

abbrev kept : String → FileState
kept p = record {
  path = p;
  hash = "1";
  size = 1;
  clock = ("a", 1) ∷ [];
  updated_at = 7;
  node_id = "a";
  deleted = false;
}

-- A store that knows the files of the first node.
remember : List String → Dict String States
remember [] = []
remember (p ∷ ps) = memory_set (remember ps) "a" p (kept p)

remember-AllKeyed : (ps : List String) → AllKeyed (remember ps)
unfolding remember lookup
remember-AllKeyed [] n = tt
remember-AllKeyed (p ∷ ps) n =
    set-AllKeyed (remember ps) "a" p (kept p) (remember-AllKeyed ps) refl n

remembered :
    (ps : List String) (p : String)
    → contains p ps ≡ true
    → is_live (memory_get (remember ps) "a" p) ≡ true
unfolding remember
remembered [] p m = absurd (cc m)
remembered (q ∷ ps) p m = ground (
  arith,
  memory_get-set (remember ps) "a" "a" q p (kept q),
  ==-refl {A = String} "a",
  remembered ps p,
  m,
)

abbrev eleven : List String
eleven = "p0" ∷ "p1" ∷ "p2" ∷ "p3" ∷ "p4" ∷ "p5" ∷ "p6" ∷ "p7" ∷ "p8" ∷ "p9" ∷ "p10" ∷ []

abbrev AheadOf : Contents → Type 0
AheadOf a =
    GoesAhead memory_store memory_laws toy a_node b_node noon keep_newest
      (sync toy memory_store a_node b_node noon keep_newest (remember eleven) a b_files)

abbrev Lost : String → Type 0
Lost n = KnowsMany memory_store memory_laws (remember eleven) n

sync-not_wiped_example :
    AheadOf (contents [])
    ↔ (list_contents (contents []).0 ≡ [] → ¬ Lost "a")
      × (list_contents b_files.0 ≡ [] → ¬ Lost "b")
sync-not_wiped_example =
    sync-not_wiped memory_store memory_laws toy a_node b_node noon keep_newest (remember eleven)
      (contents []) b_files (list_contents (contents []).0) (list_contents b_files.0)
      (remember-AllKeyed eleven) refl refl

-- The eleven known files of a node without files stop the synchronisation.
wiped_refused : ¬ AheadOf (contents [])
unfolding string_eq list_contents contents
wiped_refused ahead = (sync-not_wiped_example.0 ahead).0 refl (
  eleven,
  (refl, (refl, (refl, (refl, (refl, (refl, (refl, (refl, (refl, (refl, (refl, tt))))))))))),
  remembered eleven,
  omega arith,
)

nothing_known : AllKeyed []
unfolding lookup
nothing_known n = tt

abbrev only_here : FileEntry
only_here = record { path = "one"; hash = toy_digest "1"; size = 1; mod_time = 5 }

sync-fate_example :
    (hashed (lookup "one" once.source.0)
      ≡ fate only_here (memory_get [] "a" "one") (memory_get [] "b" "one"))
    ⊎ Collision toy
        (build_merkle_tree toy (list_contents a_files.0))
        (build_merkle_tree toy (list_contents b_files.0))
unfolding run entry_at
sync-fate_example =
    sync-fate toy memory_store memory_laws a_node b_node toy_digest (memory_node-IsLawful "a")
      (memory_node-IsLawful "b") noon keep_newest tt [] a_files b_files once
      (list_contents a_files.0) (list_contents b_files.0) "one" only_here nothing_known refl refl
      refl refl refl refl

abbrev kept_calls : List StoreCall
kept_calls = sets "a" "p" (kept "p") ∷ sets "b" "p" (kept "p") ∷ forgets "a" ∷ []

new_in_memory_state_store-answers_example :
    (memory_get (handle_all kept_calls new_in_memory_state_store) "b" "p"
      ≡ recorded_after "b" "p" kept_calls none)
    × (lookup "p" (index_states (memory_all (handle_all kept_calls new_in_memory_state_store) "b"))
        ≡ recorded_after "b" "p" kept_calls none)
new_in_memory_state_store-answers_example =
    new_in_memory_state_store-answers "b" "p" kept_calls (refl, (refl, (tt, tt)))

still_kept : recorded_after "b" "p" kept_calls none ≡ some (kept "p")
unfolding string_eq
still_kept = refl
