-- ===== src/Examples/Network.antt =====
-- The theorems on configuration, connections, senders and receivers, at concrete inputs.
use sleepy_hot_stuff.Base.{
  ◌≡◌, ◌||◌, ◌++◌, refl, Bool, true, false, none, some, Option, List, [], ◌∷◌, arith, map,
  if◌then◌else◌, Bytes, bytes_eq, pos,
}
use sleepy_hot_stuff.Utils.Map
use sleepy_hot_stuff.Utils.StringBoolMap
use sleepy_hot_stuff.Db.{no_persist}
use sleepy_hot_stuff.Queue.{raw}
use sleepy_hot_stuff.Communication.Connection.{start_connection_manager, set_live, is_not_live}
use sleepy_hot_stuff.Communication.ConnMap
use sleepy_hot_stuff.Communication.Nodes.{
  Entry, Nodes, address_of, no_nodes, load_replicas, add_replica, fetch_address, fetch_replica_id,
  or_empty_text, fetch_nodes,
}
use sleepy_hot_stuff.Communication.Nodes.Lookup.{fetch_replica_id-fetch_address}
use sleepy_hot_stuff.Communication.Sender.{Sender, Send, hot_stuff_msg, rbc_byte_broadcast}
use sleepy_hot_stuff.Communication.Sender.Broadcast.{sends_to, rbc_byte_broadcast-sends_to}
use sleepy_hot_stuff.Communication.Sender.Failures.{
  unreachable, unreachable-is_not_live, unreachable-broadcast_timer,
}
use sleepy_hot_stuff.Communication.ClientSender.{
  ClientSender, broadcast_request, run_requests, spawn_requests,
}
use sleepy_hot_stuff.Communication.ClientSender.Waiting.{broadcast_request-ends}
use sleepy_hot_stuff.Communication.Receiver.{Receiver, receive_all, newest, receive_all-newest}
use sleepy_hot_stuff.Examples.Setup.{test_env, test_replica}

abbrev first : Entry
first = record { id = b'0' ∷ []; host = b'a' ∷ []; port = b'1' ∷ [] }

abbrev second : Entry
second = record { id = b'1' ∷ []; host = b'a' ∷ []; port = b'2' ∷ [] }

abbrev loaded : Nodes
loaded = load_replicas no_nodes (first ∷ second ∷ [])

fetch_replica_id-fetch_address_example :
    (fetch_address loaded second.id ≡ address_of second)
    × (fetch_replica_id loaded (address_of second) ≡ second.id)
unfolding Map.contains bytes_eq
fetch_replica_id-fetch_address_example =
    fetch_replica_id-fetch_address (first ∷ second ∷ []) 1 second (refl, (refl, tt))
      (refl, (refl, tt)) refl

-- Replica 0, whose clients are numbers.
abbrev sender : Sender Bytes
sender = record {
  id = pos 0;
  idstring = first.id;
  broadcast_timer = pos 100;
  nodes = loaded;
  live = set_live start_connection_manager (fetch_replica_id loaded (address_of second));
  connections = ConnMap.init Bytes;
  calls = [];
}

rbc_byte_broadcast-sends_to_example :
    sends_to (address_of second) (rbc_byte_broadcast (test_env no_persist) sender (7 ∷ []))
    ≡ (if bytes_eq second.id sender.idstring || is_not_live sender.live second.id then 0 else 1)
unfolding Map.contains bytes_eq
rbc_byte_broadcast-sends_to_example =
    rbc_byte_broadcast-sends_to (test_env no_persist) sender (7 ∷ []) [] (first ∷ second ∷ []) 1
      second refl (refl, (refl, tt)) (refl, (refl, tt)) refl refl

abbrev to_second : Send
to_second = record { msg = 7 ∷ []; address = address_of second; msg_type = hot_stuff_msg }

unreachable-is_not_live_example :
    (s' : Sender Bytes) × (unreachable 5 to_second sender ≡ some s')
    × (s'.calls ≡ [])
    × (is_not_live s'.live (fetch_replica_id loaded (address_of second)) ≡ true)
unfolding ConnMap.get ConnMap.init Map.get
unreachable-is_not_live_example =
    unreachable-is_not_live 5 to_second sender start_connection_manager (omega arith) (λ e. cc e)
      refl refl

unreachable-broadcast_timer_example :
    (s' : Sender Bytes) × (unreachable 64 to_second sender ≡ some s') × (s'.broadcast_timer ≡ pos 0)
unfolding ConnMap.get ConnMap.init Map.get
unreachable-broadcast_timer_example =
    unreachable-broadcast_timer to_second sender (omega arith) (omega arith) (λ e. cc e) refl

abbrev client : ClientSender Bytes
client = record {
  client_timer = pos 100;
  nodes = loaded;
  split_ports = false;
  live = start_connection_manager;
  connections = ConnMap.init Bytes;
  wg = 0;
  calls = [];
}

-- The first sending does not connect; the second does, and gets a reply.
abbrev sendings : List (Bytes × Option Bytes × Bool)
sendings = (address_of first, none, false) ∷ (address_of second, some [], true) ∷ []

broadcast_request-ends_example :
    (s' : ClientSender Bytes) × (run_requests sendings (broadcast_request client).1 ≡ some s')
    × (s'.wg ≡ 0)
unfolding broadcast_request spawn_requests fetch_nodes fetch_address load_replicas add_replica
    or_empty_text Map.get Map.insert bytes_eq is_not_live start_connection_manager StringBoolMap.get
    StringBoolMap.init
broadcast_request-ends_example = broadcast_request-ends client sendings refl refl

abbrev receiver : Receiver
receiver = record { replica = test_replica; msg_queue = [] }

receive_all-newest_example :
    (receive_all (test_env no_persist) (some (1 ∷ []) ∷ none ∷ []) receiver).msg_queue
    ≡ newest ([] ++ map raw (some (1 ∷ []) ∷ none ∷ []))
receive_all-newest_example =
    receive_all-newest (test_env no_persist) (some (1 ∷ []) ∷ none ∷ []) [] receiver refl
