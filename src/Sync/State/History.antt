-- ===== src/Sync/State/History.antt =====
-- What the in-memory store answers, told from the calls that it has had, without its maps.
use sync_vault.Base.{
  ◌≡◌, refl, ap, ◌∙◌, String, ◌&&◌, List, [], ◌∷◌, Option, none, some, ◌==◌, string_eq, All,
  if◌then◌else◌,
}
use sync_vault.Base.Dict.{Dict, lookup}
use sync_vault.Sync.State.{FileState, index_states}
use sync_vault.Sync.State.Memory.{
  States, AllKeyed, new_in_memory_state_store, memory_get, memory_set, memory_all,
  memory_delete_node, memory_get-set, memory_get-delete_node, memory_lookup-all, set-AllKeyed,
  delete_node-AllKeyed, empty-AllKeyed,
}

pub data StoreCall : Type 0 where
  sets : String → String → FileState → StoreCall
  forgets : String → StoreCall

unfoldable pub handle : StoreCall → Dict String States → Dict String States
unfolding memory_set memory_delete_node
handle (sets n p st) s = memory_set s n p st
handle (forgets n) s = memory_delete_node s n

unfoldable pub handle_all : List StoreCall → Dict String States → Dict String States
unfolding handle
handle_all [] s = s
handle_all (c ∷ cs) s = handle_all cs (handle c s)

-- A call writes a state under the path of the state.
abbrev pub Filed : StoreCall → Type 0
Filed (sets n p st) = st.path ≡ p
Filed (forgets n) = Unit

-- The state of one path on one node after a call, from the one before.
abbrev pub recorded : String → String → StoreCall → Option FileState → Option FileState
recorded m q (sets n p st) o = if m == n && q == p then some st else o
recorded m q (forgets n) o = if m == n then none else o

abbrev pub recorded_after : String → String → List StoreCall → Option FileState → Option FileState
recorded_after m q [] o = o
recorded_after m q (c ∷ cs) o = recorded_after m q cs (recorded m q c o)

get-handle :
    (m q : String) (c : StoreCall) (s : Dict String States)
    → memory_get (handle c s) m q ≡ recorded m q c (memory_get s m q)
unfolding handle
get-handle m q (sets n p st) s = memory_get-set s n m p q st
get-handle m q (forgets n) s = memory_get-delete_node s n m q

get-handle_all :
    (m q : String) (cs : List StoreCall) (s : Dict String States)
    → memory_get (handle_all cs s) m q ≡ recorded_after m q cs (memory_get s m q)
unfolding handle_all
get-handle_all m q [] s = refl
get-handle_all m q (c ∷ cs) s =
    get-handle_all m q cs (handle c s) ∙ ap (recorded_after m q cs) (get-handle m q c s)

handle_all-AllKeyed :
    (cs : List StoreCall) (s : Dict String States)
    → All Filed cs
    → AllKeyed s
    → AllKeyed (handle_all cs s)
unfolding handle_all
handle_all-AllKeyed [] s h k = k
handle_all-AllKeyed (sets n p st ∷ cs) s (own, h) k =
    handle_all-AllKeyed cs (handle (sets n p st) s) h (set-AllKeyed s n p st k own)
handle_all-AllKeyed (forgets n ∷ cs) s (own, h) k =
    handle_all-AllKeyed cs (handle (forgets n) s) h (delete_node-AllKeyed s n k)

get-new : (m q : String) → memory_get new_in_memory_state_store m q ≡ none
unfolding memory_get new_in_memory_state_store lookup
get-new m q = refl

-- After any calls on a new in-memory store, each of which files a state under its own path, `Get`
-- answers for each node and path the state last written since the node was last forgotten, or none,
-- and `All`, read by path, holds the same.
pub new_in_memory_state_store-answers :
    (m q : String) (cs : List StoreCall)
    → All Filed cs
    → (memory_get (handle_all cs new_in_memory_state_store) m q ≡ recorded_after m q cs none)
      × (lookup q (index_states (memory_all (handle_all cs new_in_memory_state_store) m))
          ≡ recorded_after m q cs none)
new_in_memory_state_store-answers m q cs filed =
    let s = handle_all cs new_in_memory_state_store in
    let got =
      get-handle_all m q cs new_in_memory_state_store ∙ ap (recorded_after m q cs) (get-new m q) in
    (
      got,
      memory_lookup-all s m q
            (handle_all-AllKeyed cs new_in_memory_state_store filed empty-AllKeyed)
          ∙ got,
    )
