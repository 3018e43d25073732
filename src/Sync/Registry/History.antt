-- ===== src/Sync/Registry/History.antt =====
-- What a registry answers, told from the calls that it has had, without its maps.
use sync_vault.Base.{
  ◌≡◌, refl, ap, ◌∙◌, String, true, false, List, [], ◌∷◌, Option, none, some, arith, contains, ◌==◌,
  eq_of_==, string_eq, if◌then◌else◌,
}
use sync_vault.Base.Dict.{lookup, lookup-insert, lookup-erase}
use sync_vault.Sync.Registry.{
  NodeInfo, NodeRegistry, new_node_registry, info_of, get, found_of, list, with_node,
}
use sync_vault.Sync.Registry.Calls.{
  Call, registers, wires, unregisters, marks_offline, beats, call, call_all, ids, is_online,
  contains-list, new_node_registry-IsSound_after,
}

abbrev pub changed_by : (NodeInfo → NodeInfo) → Option NodeInfo → Option NodeInfo
changed_by change none = none
changed_by change (some n) = some (change n)

module _ {N : Type 0} (id : String) where
  -- What is known of one node after a call, from what was known before it.
  abbrev pub described : Call N → Option NodeInfo → Option NodeInfo
  described (registers now info impl) o =
      if id == info.id then some (record info { last_seen = now; online = true }) else o
  described (wires j impl) o = o
  described (unregisters j) o = if id == j then none else o
  described (marks_offline j) o =
      if id == j then changed_by (λ n. record n { online = false }) o else o
  described (beats now j) o =
      if id == j then changed_by (λ n. record n { last_seen = now; online = true }) o else o

  -- A registration without an implementation leaves the one before, a wiring may take it away.
  abbrev pub implemented : Call N → Option (Option N) → Option (Option N)
  implemented (registers now info none) o = o
  implemented (registers now info (some n)) o = if id == info.id then some (some n) else o
  implemented (wires j impl) o = if id == j then some impl else o
  implemented (unregisters j) o = if id == j then none else o
  implemented (marks_offline j) o = o
  implemented (beats now j) o = o

  abbrev pub described_after : List (Call N) → Option NodeInfo → Option NodeInfo
  described_after [] o = o
  described_after (c ∷ cs) o = described_after cs (described c o)

  abbrev pub implemented_after : List (Call N) → Option (Option N) → Option (Option N)
  implemented_after [] o = o
  implemented_after (c ∷ cs) o = implemented_after cs (implemented c o)

  lookup-with_node :
      (change : NodeInfo → NodeInfo) (j : String) (r : NodeRegistry N) (o : Option NodeInfo)
      → lookup j r.nodes ≡ o
      → (lookup id (with_node change j r o).nodes
          ≡ (if id == j then changed_by change (lookup id r.nodes) else lookup id r.nodes))
        × ((with_node change j r o).impls ≡ r.impls)
  lookup-with_node change j r none e = ground (arith, e, eq_of_== id j)
  lookup-with_node change j r (some n) e =
      ground (arith, e, eq_of_== id j, lookup-insert id j (change n) r.nodes)

  nodes-call :
      (c : Call N) (r : NodeRegistry N)
      → lookup id (call c r).nodes ≡ described c (lookup id r.nodes)
  unfolding call
  nodes-call (registers now info impl) r =
      lookup-insert id info.id (record info { last_seen = now; online = true }) r.nodes
  nodes-call (wires j impl) r = refl
  nodes-call (unregisters j) r = lookup-erase id j r.nodes
  nodes-call (marks_offline j) r =
      (lookup-with_node (λ n. record n { online = false }) j r (lookup j r.nodes) refl).0
  nodes-call (beats now j) r =
      (lookup-with_node (λ n. record n { last_seen = now; online = true }) j r (lookup j r.nodes)
        refl).0

  impls-call :
      (c : Call N) (r : NodeRegistry N)
      → lookup id (call c r).impls ≡ implemented c (lookup id r.impls)
  unfolding call
  impls-call (registers now info none) r = refl
  impls-call (registers now info (some n)) r = lookup-insert id info.id (some n) r.impls
  impls-call (wires j impl) r = lookup-insert id j impl r.impls
  impls-call (unregisters j) r = lookup-erase id j r.impls
  impls-call (marks_offline j) r =
      ap (lookup id)
        (lookup-with_node (λ n. record n { online = false }) j r (lookup j r.nodes) refl).1
  impls-call (beats now j) r =
      ap (lookup id)
        (lookup-with_node (λ n. record n { last_seen = now; online = true }) j r (lookup j r.nodes)
          refl).1

  nodes-call_all :
      (cs : List (Call N)) (r : NodeRegistry N)
      → lookup id (call_all cs r).nodes ≡ described_after cs (lookup id r.nodes)
  unfolding call_all
  nodes-call_all [] r = refl
  nodes-call_all (c ∷ cs) r =
      nodes-call_all cs (call c r) ∙ ap (described_after cs) (nodes-call c r)

  impls-call_all :
      (cs : List (Call N)) (r : NodeRegistry N)
      → lookup id (call_all cs r).impls ≡ implemented_after cs (lookup id r.impls)
  unfolding call_all
  impls-call_all [] r = refl
  impls-call_all (c ∷ cs) r =
      impls-call_all cs (call c r) ∙ ap (implemented_after cs) (impls-call c r)

  -- After any calls on a new registry, `Info` and `Get` answer for each identifier what its calls
  -- say, read one after the other without the maps, and `List` names the identifier exactly where
  -- the description it has by them is online.
  pub new_node_registry-answers :
      (cs : List (Call N))
      → (info_of id (call_all cs new_node_registry) ≡ described_after cs none)
        × (get id (call_all cs new_node_registry) ≡ found_of (implemented_after cs none))
        × (contains id (ids (list (call_all cs new_node_registry)))
            ≡ is_online (described_after cs none))
  unfolding new_node_registry info_of get lookup
  new_node_registry-answers cs =
      let known = nodes-call_all cs new_node_registry in
      (
        known,
        ap found_of (impls-call_all cs new_node_registry),
        contains-list id (call_all cs new_node_registry) (new_node_registry-IsSound_after cs)
            ∙ ap is_online known,
      )
