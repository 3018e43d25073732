-- ===== src/Sync/Registry.antt =====
-- internal/sync/registry.go: the known nodes and their implementations, of a type that a caller
-- chooses. The lock makes each method one step.
pub mod Calls
pub mod History
use sync_vault.Base.{
  ℕ, String, Bool, true, false, ◌&&◌, List, [], ◌∷◌, ◌++◌, Option, none, some, string_eq,
  if◌then◌else◌,
}
use sync_vault.Base.Dict.{Dict, lookup, insert, erase}

pub record NodeInfo : Type 0 where
  pub id : String
  pub kind : String
  pub endpoint : String
  pub account_id : String
  pub user_id : String
  pub folder_id : String
  pub root : String
  pub last_seen : ℕ
  pub online : Bool

-- `some none` is an entry that holds nil.
pub record NodeRegistry (N : Type 0) : Type 0 where
  pub nodes : Dict String NodeInfo
  pub impls : Dict String (Option N)

pub data Found (N : Type 0) : Type 0 where
  found : N → Found N
  not_found not_wired : Found N

unfoldable pub online_infos : Dict String NodeInfo → List NodeInfo
online_infos [] = []
online_infos ((id, n) ∷ d) = let rest = online_infos d in if n.online then n ∷ rest else rest

module _ {N : Type 0} where
  unfoldable pub new_node_registry : NodeRegistry N
  new_node_registry = record { nodes = []; impls = [] }

  -- Without an implementation, one of an earlier registration stays.
  unfoldable pub register : ℕ → NodeInfo → Option N → NodeRegistry N → NodeRegistry N
  register now info impl r = record {
    nodes = insert info.id (record info { last_seen = now; online = true }) r.nodes;
    impls = elim impl [ none ↦ r.impls | some n ↦ insert info.id (some n) r.impls ];
  }

  unfoldable pub set_drive_node : String → Option N → NodeRegistry N → NodeRegistry N
  set_drive_node id impl r = record r { impls = insert id impl r.impls }

  unfoldable pub unregister : String → NodeRegistry N → NodeRegistry N
  unregister id r = record { nodes = erase id r.nodes; impls = erase id r.impls }

  unfoldable pub info_of : String → NodeRegistry N → Option NodeInfo
  info_of id r = lookup id r.nodes

  abbrev pub found_of : Option (Option N) → Found N
  found_of none = not_found
  found_of (some none) = not_wired
  found_of (some (some n)) = found n

  unfoldable pub get : String → NodeRegistry N → Found N
  get id r = found_of (lookup id r.impls)

  unfoldable pub list : NodeRegistry N → List NodeInfo
  unfolding online_infos
  list r = online_infos r.nodes

  -- `r.impls[id]` where it is not nil.
  abbrev pub live : Found N → List N
  live (found n) = n ∷ []
  live _ = []

  unfoldable pub online_impls : Dict String NodeInfo → NodeRegistry N → List N
  unfolding get
  online_impls [] r = []
  online_impls ((id, n) ∷ d) r =
      let rest = online_impls d r in if n.online then live (get id r) ++ rest else rest

  unfoldable pub all_nodes : NodeRegistry N → List N
  unfolding online_impls
  all_nodes r = online_impls r.nodes r

  -- `if n, ok := r.nodes[id]; ok`, with the change that is made of the node.
  abbrev pub with_node :
      (NodeInfo → NodeInfo) → String → NodeRegistry N → Option NodeInfo → NodeRegistry N
  with_node change id r none = r
  with_node change id r (some n) = record r { nodes = insert id (change n) r.nodes }

  unfoldable pub heartbeat : ℕ → String → NodeRegistry N → NodeRegistry N
  heartbeat now id r =
      with_node (λ n. record n { last_seen = now; online = true }) id r (lookup id r.nodes)

  unfoldable pub mark_offline : String → NodeRegistry N → NodeRegistry N
  mark_offline id r = with_node (λ n. record n { online = false }) id r (lookup id r.nodes)
