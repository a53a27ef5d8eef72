-- ===== src/Communication/Sender.antt =====
-- communication/sender/sender.go: connections, and messages to one node or to all others. gRPC is a
-- parameter: a call of `ByteSend` is given what its dialling returns, if it dials, and whether the call
-- of the client returns without an error. A `go ByteSend(...)` is a `Send` that is left to be made.
pub mod Broadcast
pub mod Failures
use sleepy_hot_stuff.Base.{
  Bool, true, false, ◌||◌, not, Option, none, some, List, [], ◌∷◌, ◌++◌, if◌then◌else◌, Bytes,
  bytes_eq, ℤ, eq_ℤ, add_int, pos,
}
use sleepy_hot_stuff.Utils.Text.{itoa, atoi, atoi_value}
use sleepy_hot_stuff.Env.{Env}
use sleepy_hot_stuff.Crypto.{gen_sig}
use sleepy_hot_stuff.Communication.Connection
use sleepy_hot_stuff.Communication.Connection.{Connection}
use sleepy_hot_stuff.Communication.ConnMap
use sleepy_hot_stuff.Communication.ConnMap.{AddrConnMap}
use sleepy_hot_stuff.Communication.Nodes.{Nodes, fetch_address, fetch_nodes, fetch_replica_id}

-- The constants of message/def.go that the sender tells apart.
pub data TypeOfMessage : Type 0 where
  aba_all hacss_all hot_stuff_msg rondo_msg other_type : TypeOfMessage

pub data ProtocolType : Type 0 where
  aba hacss hot_stuff other_protocol : ProtocolType

-- The arguments of a `ByteSend`.
pub record Send : Type 0 where
  pub msg : Bytes
  pub address : Bytes
  pub msg_type : TypeOfMessage

-- The services of a client that are called.
pub data Rpc : Type 0 where
  aba_send hacss_send hot_stuff_send join : Rpc

pub record Sender (Client : Type 0) : Type 0 where
  pub id : ℤ
  pub idstring : Bytes
  pub broadcast_timer : ℤ
  pub nodes : Nodes
  pub live : Connection
  pub connections : AddrConnMap Client
  -- What has been handed to a client.
  pub calls : List (Client × Rpc × Bytes)

module _ {Client : Type 0} where
  -- `grpc.DialContext` has returned a connection, or an error.
  unfoldable pub build_connection :
      Option Client → Bytes → Bytes → Sender Client → Bool × Sender Client
  build_connection none nid address s = (false, s)
  build_connection (some c) nid address s = (
    true,
    record s {
      connections = ConnMap.insert_id (ConnMap.insert s.connections address (some c)) address nid;
    },
  )

  unfoldable pub call : Client → Rpc → Bytes → Sender Client → Sender Client
  call c rpc msg s = record s { calls = s.calls ++ (c, rpc, msg) ∷ [] }

  -- The client is forgotten and the node has failed once more.
  unfoldable pub drop_client : Bytes → Bytes → Sender Client → Sender Client
  drop_client nid address s = record s {
    live = Connection.not_live s.live nid;
    connections = ConnMap.insert s.connections address none;
  }

  -- The switch over the type of the message; `none` is `log.Fatalf`.
  unfoldable pub send_as :
      TypeOfMessage → Client → Bool → Bytes → Send → Sender Client → Option (Sender Client)
  send_as aba_all c replied nid x s =
      let s1 = call c aba_send x.msg s in
      some (if replied then s1 else drop_client nid x.address s1)
  send_as hacss_all c replied nid x s = some (call c hacss_send x.msg s)
  send_as hot_stuff_msg c replied nid x s = some (call c hot_stuff_send x.msg s)
  send_as rondo_msg c replied nid x s = some (call c join x.msg s)
  send_as other_type c replied nid x s = none

  -- A nil client is never called: it is dialled again.
  unfoldable pub send_over :
      Option Client × Bool → Bool → Bytes → Send → Sender Client → Option (Sender Client)
  send_over (none, b) replied nid x s = none
  send_over (some c, b) replied nid x s = send_as x.msg_type c replied nid x s

  unfoldable pub is_some : Option Client → Bool
  is_some none = false
  is_some (some c) = true

  -- After a connection that cannot be built, the node has failed once more, and the time limit of all
  -- later calls is doubled.
  unfoldable pub did_not_connect : Bytes → Sender Client → Sender Client
  did_not_connect nid s = record s {
    live = Connection.not_live s.live nid;
    broadcast_timer = add_int s.broadcast_timer s.broadcast_timer;
  }

  unfoldable pub byte_send : Option Client → Bool → Send → Sender Client → Option (Sender Client)
  byte_send dialled replied x s =
      if bytes_eq x.address []
      then some s
      else (let nid = fetch_replica_id s.nodes x.address in
          let (c, built) = ConnMap.get s.connections x.address in
          let existnid = ConnMap.get_id s.connections x.address in
          if not built || not (is_some c) || not (bytes_eq nid existnid)
          then (let (suc, s1) = build_connection dialled nid x.address s in
              if suc
              then send_over (ConnMap.get s1.connections x.address) replied nid x s1
              else some (did_not_connect nid s1))
          else send_over (c, built) replied nid x s)

  -- One round of the loop over the nodes that `RBCByteBroadcast` and `JoinBroadcast` share.
  unfoldable pub send_other : Sender Client → Bytes → TypeOfMessage → Bytes → List Send → List Send
  send_other s request t nid rest =
      if bytes_eq nid s.idstring || Connection.is_not_live s.live nid
      then rest
      else record { msg = request; address = fetch_address s.nodes nid; msg_type = t } ∷ rest

  unfoldable pub send_others : Sender Client → Bytes → TypeOfMessage → List Bytes → List Send
  send_others s request t [] = []
  send_others s request t (nid ∷ nids) = send_other s request t nid (send_others s request t nids)

  unfoldable pub to_others : Sender Client → TypeOfMessage → Option Bytes → List Send
  to_others s t none = []
  to_others s t (some request) = send_others s request t (fetch_nodes s.nodes)

  unfoldable pub rbc_byte_broadcast : Env → Sender Client → Bytes → List Send
  rbc_byte_broadcast e s msg =
      to_others s hot_stuff_msg (e.marshal_signed (record { msg = some msg; sig = gen_sig e msg }))

  unfoldable pub join_broadcast : Env → Sender Client → Bytes → List Send
  join_broadcast e s msg =
      to_others s rondo_msg (e.marshal_signed (record { msg = some msg; sig = gen_sig e msg }))

  to_node : Sender Client → Bytes → TypeOfMessage → Option Bytes → List Send
  to_node s nid t none = []
  to_node s nid t (some request) =
      record { msg = request; address = fetch_address s.nodes nid; msg_type = t } ∷ []

  -- `SendToNode`, where `serialize_with_mac` is message.SerializeWithMAC.
  unfoldable pub send_to_node :
      (ℤ → ℤ → Bytes → Option Bytes) → Env → Sender Client → Bytes → ℤ → ProtocolType → List Send
  unfolding to_node
  send_to_node serialize_with_mac e s msg dest mtype = if eq_ℤ s.id dest then [] else elim mtype [
    | hacss ↦ to_node s (itoa dest) hacss_all (serialize_with_mac s.id dest msg)
    | hot_stuff ↦
        to_node s (itoa dest) hot_stuff_msg
          (e.marshal_signed (record { msg = some msg; sig = gen_sig e msg }))
    | _ ↦ []
  ]

  send_mac : Sender Client → Bytes → ProtocolType → Option Bytes → List Send → List Send
  send_mac s nid mtype none rest = rest
  send_mac s nid mtype (some request) rest =
      if Connection.is_not_live s.live nid then rest else elim mtype [
        | aba ↦
            record { msg = request; address = fetch_address s.nodes nid; msg_type = aba_all } ∷ rest
        | hacss ↦
            record { msg = request; address = fetch_address s.nodes nid; msg_type = hacss_all }
            ∷ rest
        | _ ↦ rest
      ]

  -- The loop of `MACBroadcast`, which leaves no node out.
  unfoldable pub mac_broadcast :
      (ℤ → ℤ → Bytes → Option Bytes) → Sender Client → Bytes → ProtocolType → List Bytes → List Send
  unfolding send_mac
  mac_broadcast serialize_with_mac s msg mtype [] = []
  mac_broadcast serialize_with_mac s msg mtype (nid ∷ nids) =
      send_mac s nid mtype (serialize_with_mac s.id (atoi_value nid) msg)
        (mac_broadcast serialize_with_mac s msg mtype nids)

  -- `StartSender` behind the loading of the configuration. An id that is no number leaves the rest unset.
  unfoldable pub start_sender : Nodes → ℤ → Bytes → Sender Client → Sender Client
  start_sender n timer rid s = elim (atoi rid) [
    | none ↦ record s { nodes = n; idstring = rid; id = atoi_value rid }
    | some id ↦ record s {
      nodes = n;
      idstring = rid;
      id = id;
      connections = ConnMap.init Client;
      live = Connection.start_connection_manager;
      broadcast_timer = timer;
    }
  ]
