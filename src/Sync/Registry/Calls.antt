-- ===== src/Sync/Registry/Calls.antt =====
-- What holds of a registry after any calls of its methods.
use sync_vault.Base.{
  ℕ, ◌≡◌, refl, ◌∙◌, String, Bool, true, false, List, [], ◌∷◌, ◌++◌, Option, none, some, arith,
  contains, ◌==◌, string_eq, eq_of_==,
}
use sync_vault.Base.Dict.{
  Dict, lookup, insert, erase, NodupKeys, lookup-insert, lookup-erase, insert-NodupKeys,
  erase-NodupKeys,
}
use sync_vault.Sync.Registry.{
  NodeInfo, NodeRegistry, new_node_registry, register, set_drive_node, unregister, info_of, get,
  online_infos, list, live, online_impls, all_nodes, with_node, heartbeat, mark_offline,
}

pub data Call (N : Type 0) : Type 0 where
  registers : ℕ → NodeInfo → Option N → Call N
  wires : String → Option N → Call N
  unregisters marks_offline : String → Call N
  beats : ℕ → String → Call N

-- A node is kept under its own identifier.
abbrev pub Keyed : Dict String NodeInfo → Type 0
Keyed [] = Unit
Keyed ((id, n) ∷ d) = (n.id ≡ id) × Keyed d

module _ {N : Type 0} where
  unfoldable pub call : Call N → NodeRegistry N → NodeRegistry N
  unfolding register set_drive_node unregister heartbeat mark_offline
  call (registers now info impl) r = register now info impl r
  call (wires id impl) r = set_drive_node id impl r
  call (unregisters id) r = unregister id r
  call (marks_offline id) r = mark_offline id r
  call (beats now id) r = heartbeat now id r

  unfoldable pub call_all : List (Call N) → NodeRegistry N → NodeRegistry N
  unfolding call
  call_all [] r = r
  call_all (c ∷ cs) r = call_all cs (call c r)

  abbrev pub about : Call N → String
  about (registers now info impl) = info.id
  about (wires id impl) = id
  about (unregisters id) = id
  about (marks_offline id) = id
  about (beats now id) = id

  pub record IsSound (r : NodeRegistry N) : Type 0 where
    pub node_keys : NodupKeys r.nodes
    pub impl_keys : NodupKeys r.impls
    pub keyed : Keyed r.nodes

insert-Keyed :
    (id : String) (n : NodeInfo) (d : Dict String NodeInfo)
    → n.id ≡ id
    → Keyed d
    → Keyed (insert id n d)
unfolding insert
insert-Keyed id n [] e h = (e, tt)
insert-Keyed id n ((j, m) ∷ d) e (p, h) = ground (arith, insert-Keyed id n d e h)

erase-Keyed : (id : String) (d : Dict String NodeInfo) → Keyed d → Keyed (erase id d)
unfolding erase
erase-Keyed id [] h = tt
erase-Keyed id ((j, m) ∷ d) (p, h) = ground (arith, erase-Keyed id d h)

lookup-Keyed :
    (id : String) (n : NodeInfo) (d : Dict String NodeInfo)
    → Keyed d
    → lookup id d ≡ some n
    → n.id ≡ id
unfolding lookup
lookup-Keyed id n [] h e = cc
lookup-Keyed id n ((j, m) ∷ d) (p, h) e = ground (arith, lookup-Keyed id n d h, eq_of_== id j)

abbrev pub ids : List NodeInfo → List String
ids [] = []
ids (n ∷ ns) = n.id ∷ ids ns

abbrev pub is_online : Option NodeInfo → Bool
is_online none = false
is_online (some n) = n.online

online_infos_absent :
    (id : String) (d : Dict String NodeInfo)
    → Keyed d
    → lookup id d ≡ none
    → contains id (ids (online_infos d)) ≡ false
unfolding online_infos lookup
online_infos_absent id [] h e = refl
online_infos_absent id ((j, n) ∷ d) (p, h) e = ground (arith, online_infos_absent id d h)

contains-online_infos :
    (id : String) (d : Dict String NodeInfo)
    → NodupKeys d
    → Keyed d
    → contains id (ids (online_infos d)) ≡ is_online (lookup id d)
unfolding online_infos lookup
contains-online_infos id [] u h = refl
contains-online_infos id ((j, n) ∷ d) (f, u) (p, h) =
    ground (arith, contains-online_infos id d u h, online_infos_absent id d h, eq_of_== id j)

module _ {N : Type 0} where
  with_node-IsSound :
      (change : NodeInfo → NodeInfo) (id : String) (r : NodeRegistry N) (o : Option NodeInfo)
      → ((n : NodeInfo) → (change n).id ≡ n.id)
      → lookup id r.nodes ≡ o
      → IsSound r
      → IsSound (with_node change id r o)
  with_node-IsSound change id r none keeps e v = v
  with_node-IsSound change id r (some n) keeps e v = record {
    node_keys = insert-NodupKeys id (change n) r.nodes v.node_keys;
    impl_keys = v.impl_keys;
    keyed =
        insert-Keyed id (change n) r.nodes (keeps n ∙ lookup-Keyed id n r.nodes v.keyed e) v.keyed;
  }

  with_node_others :
      (change : NodeInfo → NodeInfo) (id j : String) (r : NodeRegistry N) (o : Option NodeInfo)
      → (id == j) ≡ false
      → (info_of id (with_node change j r o) ≡ info_of id r)
        × (get id (with_node change j r o) ≡ get id r)
  unfolding info_of get
  with_node_others change id j r none h = (refl, refl)
  with_node_others change id j r (some n) h = ground (arith, lookup-insert id j (change n) r.nodes)

  call-IsSound : (c : Call N) (r : NodeRegistry N) → IsSound r → IsSound (call c r)
  unfolding call
  call-IsSound (registers now info none) r v = ground (
    arith,
    insert-NodupKeys info.id (record info { last_seen = now; online = true }) r.nodes,
    insert-Keyed info.id (record info { last_seen = now; online = true }) r.nodes,
  )
  call-IsSound (registers now info (some n)) r v = ground (
    arith,
    insert-NodupKeys info.id (record info { last_seen = now; online = true }) r.nodes,
    insert-Keyed info.id (record info { last_seen = now; online = true }) r.nodes,
    insert-NodupKeys info.id (some n) r.impls,
  )
  call-IsSound (wires id impl) r v = ground (arith, insert-NodupKeys id impl r.impls)
  call-IsSound (unregisters id) r v =
      ground (arith, erase-NodupKeys id r.nodes, erase-NodupKeys id r.impls, erase-Keyed id r.nodes)
  call-IsSound (marks_offline id) r v =
      with_node-IsSound (λ n. record n { online = false }) id r (lookup id r.nodes) (λ n. refl) refl
        v
  call-IsSound (beats now id) r v =
      with_node-IsSound (λ n. record n { last_seen = now; online = true }) id r (lookup id r.nodes)
        (λ n. refl) refl v

  call_all-IsSound : (cs : List (Call N)) (r : NodeRegistry N) → IsSound r → IsSound (call_all cs r)
  unfolding call_all
  call_all-IsSound [] r v = v
  call_all-IsSound (c ∷ cs) r v = call_all-IsSound cs (call c r) (call-IsSound c r v)

  -- After any calls on a new registry every identifier has one entry of each map at most, and the
  -- node under it carries it.
  pub new_node_registry-IsSound_after :
      (cs : List (Call N)) → IsSound (call_all cs new_node_registry)
  unfolding new_node_registry
  new_node_registry-IsSound_after cs =
      call_all-IsSound cs new_node_registry (record { node_keys = tt; impl_keys = tt; keyed = tt })

  -- A call says nothing of the nodes that it does not name: their description and their
  -- implementation are what they were.
  pub call_others :
      (c : Call N) (id : String) (r : NodeRegistry N)
      → (id == about c) ≡ false
      → (info_of id (call c r) ≡ info_of id r) × (get id (call c r) ≡ get id r)
  unfolding call info_of get
  call_others (registers now info none) id r h =
      ground
        (arith, lookup-insert id info.id (record info { last_seen = now; online = true }) r.nodes)
  call_others (registers now info (some n)) id r h = ground (
    arith,
    lookup-insert id info.id (record info { last_seen = now; online = true }) r.nodes,
    lookup-insert id info.id (some n) r.impls,
  )
  call_others (wires j impl) id r h = ground (arith, lookup-insert id j impl r.impls)
  call_others (unregisters j) id r h =
      ground (arith, lookup-erase id j r.nodes, lookup-erase id j r.impls)
  call_others (marks_offline j) id r h =
      with_node_others (λ n. record n { online = false }) id j r (lookup j r.nodes) h
  call_others (beats now j) id r h =
      with_node_others (λ n. record n { last_seen = now; online = true }) id j r (lookup j r.nodes)
        h

  -- The implementations that `Get` finds for the nodes of a list.
  unfoldable pub gets : List NodeInfo → NodeRegistry N → List N
  gets [] r = []
  gets (n ∷ ns) r = live (get n.id r) ++ gets ns r

  online_impls-gets :
      (d : Dict String NodeInfo) (r : NodeRegistry N)
      → Keyed d
      → online_impls d r ≡ gets (online_infos d) r
  unfolding online_impls gets online_infos
  online_impls-gets [] r h = refl
  online_impls-gets ((id, n) ∷ d) r (e, h) = ground (arith, online_impls-gets d r h)

  -- In a registry that keeps every node once and under its own identifier `AllNodes` is what `Get`
  -- finds for the nodes of `List`, in its order.
  pub all_nodes-list : (r : NodeRegistry N) → IsSound r → all_nodes r ≡ gets (list r) r
  unfolding all_nodes list
  all_nodes-list r v = online_impls-gets r.nodes r v.keyed

  -- In a registry that keeps every node once and under its own identifier `List` names exactly the
  -- nodes that `Info` describes as online.
  pub contains-list :
      (id : String) (r : NodeRegistry N)
      → IsSound r
      → contains id (ids (list r)) ≡ is_online (info_of id r)
  unfolding list info_of
  contains-list id r v = contains-online_infos id r.nodes v.node_keys v.keyed
