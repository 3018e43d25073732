-- ===== src/Sync/State/Memory.antt =====
-- `InMemoryStateStore` keeps the contract of `StateStore`.
use sync_vault.Base.{
  ◌≡◌, refl, ◌∙◌, String, ◌&&◌, List, [], ◌∷◌, Option, none, some, arith, ◌==◌, string_eq,
  if◌then◌else◌,
}
use sync_vault.Base.Dict.{Dict, lookup, insert, erase, values, lookup-insert, lookup-erase}
use sync_vault.Sync.State.{FileState, StateStore, IsLawful, add_states, index_states}
use sync_vault.Sync.Files.{or_else}

abbrev pub States : Type 0
States = Dict String FileState

-- `s.data[nodeID]`: a node that the map lacks has the empty map.
abbrev pub or_empty : Option States → States
or_empty none = []
or_empty (some m) = m

abbrev pub states_of : String → Dict String States → States
states_of n s = or_empty (lookup n s)

unfoldable pub new_in_memory_state_store : Dict String States
new_in_memory_state_store = []

unfoldable pub memory_get : Dict String States → String → String → Option FileState
memory_get s n p = lookup p (states_of n s)

unfoldable pub memory_set : Dict String States → String → String → FileState → Dict String States
memory_set s n p st = insert n (insert p st (states_of n s)) s

unfoldable pub memory_all : Dict String States → String → List FileState
memory_all s n = values (states_of n s)

unfoldable pub memory_delete_node : Dict String States → String → Dict String States
memory_delete_node s n = erase n s

abbrev pub memory_store : StateStore
memory_store = record {
  Store = Dict String States;
  get = memory_get;
  set = memory_set;
  all = memory_all;
  delete_node = memory_delete_node;
}

-- Each state stands under its own path, and a path has one state.
abbrev pub Keyed : States → Type 0
Keyed [] = Unit
Keyed ((p, st) ∷ m) = (st.path ≡ p) × (lookup p m ≡ none) × Keyed m

abbrev pub AllKeyed : Dict String States → Type 0
AllKeyed s = (n : String) → Keyed (states_of n s)

lookup-add_states :
    (p : String) (acc m : States)
    → Keyed m
    → lookup p (add_states acc (values m)) ≡ or_else (lookup p m) (lookup p acc)
unfolding add_states lookup
lookup-add_states p acc [] k = refl
lookup-add_states p acc ((q, st) ∷ m) (own, fresh, k) =
    lookup-add_states p (insert st.path st acc) m k ∙ ground (arith, lookup-insert p st.path st acc)

insert-Keyed :
    (p : String) (st : FileState) (m : States) → st.path ≡ p → Keyed m → Keyed (insert p st m)
unfolding insert lookup
insert-Keyed p st [] own k = (own, refl, tt)
insert-Keyed p st ((q, w) ∷ m) own (own', fresh, k) =
    ground (arith, insert-Keyed p st m own k, lookup-insert q p st m)

pub set-AllKeyed :
    (s : Dict String States) (n p : String) (st : FileState)
    → AllKeyed s
    → st.path ≡ p
    → AllKeyed (memory_set s n p st)
unfolding memory_set
set-AllKeyed s n p st k own m = ground (
  arith,
  lookup-insert m n (insert p st (states_of n s)) s,
  insert-Keyed p st (states_of n s) own (k n),
  k m,
)

pub delete_node-AllKeyed :
    (s : Dict String States) (n : String) → AllKeyed s → AllKeyed (memory_delete_node s n)
unfolding memory_delete_node
delete_node-AllKeyed s n k m = ground (arith, lookup-erase m n s, k m)

pub memory_get-set :
    (s : Dict String States) (n m p q : String) (st : FileState)
    → memory_get (memory_set s n p st) m q
      ≡ (if m == n && q == p then some st else memory_get s m q)
unfolding memory_get memory_set
memory_get-set s n m p q st =
    ground (
      arith,
      lookup-insert m n (insert p st (states_of n s)) s,
      lookup-insert q p st (states_of n s),
    )

pub memory_get-delete_node :
    (s : Dict String States) (n m p : String)
    → memory_get (memory_delete_node s n) m p ≡ (if m == n then none else memory_get s m p)
unfolding memory_get memory_delete_node lookup
memory_get-delete_node s n m p = ground (arith, lookup-erase m n s)

pub memory_lookup-all :
    (s : Dict String States) (n p : String)
    → AllKeyed s
    → lookup p (index_states (memory_all s n)) ≡ memory_get s n p
unfolding memory_all memory_get index_states lookup
memory_lookup-all s n p k = lookup-add_states p [] (states_of n s) (k n) ∙ ground arith

abbrev pub memory_laws : IsLawful memory_store
memory_laws = record {
  IsValid = AllKeyed;
  get-set = memory_get-set;
  get-delete_node = memory_get-delete_node;
  lookup-all = memory_lookup-all;
  set-IsValid = set-AllKeyed;
  delete_node-IsValid = delete_node-AllKeyed;
}

-- The in-memory store keeps the contract: a read answers the last write of that node and path,
-- forgetting a node clears its states and no others, and `All` lists what `Get` answers.
pub memory_store-IsLawful : IsLawful memory_store
memory_store-IsLawful = memory_laws

pub empty-AllKeyed : AllKeyed new_in_memory_state_store
unfolding new_in_memory_state_store lookup
empty-AllKeyed n = tt
