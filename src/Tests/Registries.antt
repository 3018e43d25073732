-- ===== src/Tests/Registries.antt =====
-- A registry of two nodes, whose implementations are numbers.
use sync_vault.Base.{
  ℕ, ◌≡◌, refl, String, false, List, [], ◌∷◌, none, some, contains, ◌==◌, string_eq,
}
use sync_vault.Sync.Registry.{
  NodeInfo, NodeRegistry, new_node_registry, info_of, get, found_of, list,
}
use sync_vault.Sync.Registry.Calls.{Call, call_all, ids, is_online}
use sync_vault.Sync.Registry.History.{described_after, implemented_after, new_node_registry-answers}

abbrev agent : NodeInfo
agent = record {
  id = "agent";
  kind = "remote_simple";
  endpoint = "http://10.0.0.2";
  account_id = "";
  user_id = "";
  folder_id = "";
  root = "/data";
  last_seen = 0;
  online = false;
}

abbrev calls : List (Call ℕ)
calls =
    Call.registers 1 agent (some 7)
    ∷ Call.registers 2 (record agent { id = "drive" }) none
    ∷ Call.wires "drive" (some 8)
    ∷ Call.marks_offline "agent"
    ∷ []

abbrev reached : NodeRegistry ℕ
reached = call_all calls new_node_registry

new_node_registry-answers_example :
    (info_of "agent" reached ≡ described_after "agent" calls none)
    × (get "agent" reached ≡ found_of (implemented_after "agent" calls none))
    × (contains "agent" (ids (list reached)) ≡ is_online (described_after "agent" calls none))
new_node_registry-answers_example = new_node_registry-answers "agent" calls

agent_offline : is_online (described_after "agent" calls none) ≡ false
unfolding string_eq
agent_offline = refl

abbrev its_id : String
its_id = "agent"

agent_differs : (its_id == "drive") ≡ false
unfolding string_eq
agent_differs = refl
