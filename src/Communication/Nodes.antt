-- ===== src/Communication/Nodes.antt =====
-- config/config.go: the nodes of conf.json, as `LoadConfig` stores them and the sender asks for them,
-- and the list of malicious nodes. `json.Unmarshal` has filled in the lists of `System`.
pub mod Lookup
use sleepy_hot_stuff.Base.{
  ℕ, Bool, true, false, ◌||◌, Option, none, some, List, [], ◌∷◌, ◌++◌, ◌==◌, if◌then◌else◌, length,
  Bytes, string_eq, ℤ, eq_ℤ,
}
use sleepy_hot_stuff.Utils.Map
use sleepy_hot_stuff.Utils.Map.{Map}
use sleepy_hot_stuff.Utils.Text.{atoi, split}

-- `Replica` of config.go.
pub record Entry : Type 0 where
  pub id : Bytes
  pub host : Bytes
  pub port : Bytes

pub record Nodes : Type 0 where
  pub node_ids : List Bytes
  pub nodes : Map Bytes Bytes
  pub nodes_reverse : Map Bytes Bytes
  pub port_map : Map Bytes Bytes

abbrev pub address_of : Entry → Bytes
address_of r = r.host ++ b':' ∷ r.port

abbrev pub no_nodes : Nodes
no_nodes = record { node_ids = []; nodes = []; nodes_reverse = []; port_map = [] }

unfoldable pub add_replica : Entry → Nodes → Nodes
add_replica r n = record {
  node_ids = n.node_ids ++ r.id ∷ [];
  nodes = Map.insert r.id (address_of r) n.nodes;
  nodes_reverse = Map.insert (address_of r) r.id n.nodes_reverse;
  port_map = Map.insert r.id (b':' ∷ r.port) n.port_map;
}

-- The loop over `system.Replicas`.
unfoldable pub load_replicas : Nodes → List Entry → Nodes
load_replicas n [] = n
load_replicas n (r ∷ replicas) = load_replicas (add_replica r n) replicas

-- A missing key reads as the empty text.
unfoldable pub or_empty_text : Option Bytes → Bytes
or_empty_text none = []
or_empty_text (some s) = s

unfoldable pub fetch_address : Nodes → Bytes → Bytes
fetch_address n id = or_empty_text (Map.get id n.nodes)

unfoldable pub fetch_port : Nodes → Bytes → Bytes
fetch_port n id = or_empty_text (Map.get id n.port_map)

unfoldable pub fetch_nodes : Nodes → List Bytes
fetch_nodes n = n.node_ids

unfoldable pub fetch_num_replicas : Nodes → ℕ
fetch_num_replicas n = length n.nodes

unfoldable pub fetch_replica_id : Nodes → Bytes → Bytes
fetch_replica_id n addr = or_empty_text (Map.get addr n.nodes_reverse)

valid_id : Option ℤ → List ℤ → List ℤ
valid_id none rest = rest
valid_id (some nid) rest = nid ∷ rest

unfoldable pub valid_ids : List Bytes → List ℤ
unfolding valid_id
valid_ids [] = []
valid_ids (word ∷ mlist) = valid_id (atoi word) (valid_ids mlist)

-- A word that is no number is reported and passed over.
unfoldable pub malicious_ids : Bytes → List ℤ
malicious_ids mnid_list = valid_ids (split b',' [] mnid_list)

unfoldable pub malicious_nid : List ℤ → ℤ → Bool
malicious_nid [] nid = false
malicious_nid (x ∷ ids) nid = eq_ℤ nid x || malicious_nid ids nid
