-- ===== src/Communication/ClientSender.antt =====
-- communication/clientsender/client.go: a client sends its request to every node that it does not regard
-- as dead, and waits until each sending is over. As in the sender, gRPC is a parameter.
pub mod Waiting
use sleepy_hot_stuff.Base.{
  ℕ, zero, suc, ◌+◌, ◌-◌, ◌≡◌, refl, Bool, true, false, Option, none, some, List, [], ◌∷◌, ◌++◌,
  arith, if◌then◌else◌, length, Bytes, ℤ, pos, add_int,
}
use sleepy_hot_stuff.Utils.Text.{atoi}
use sleepy_hot_stuff.Communication.Connection
use sleepy_hot_stuff.Communication.Connection.{Connection}
use sleepy_hot_stuff.Communication.ConnMap
use sleepy_hot_stuff.Communication.ConnMap.{AddrConnMap}
use sleepy_hot_stuff.Communication.Nodes.{Nodes, fetch_address, fetch_nodes, fetch_replica_id}

pub record ClientSender (Client : Type 0) : Type 0 where
  pub client_timer : ℤ
  pub nodes : Nodes
  pub split_ports : Bool
  pub live : Connection
  pub connections : AddrConnMap Client
  -- The counter of `wg`.
  pub wg : ℕ
  -- The requests that were handed to a client, by address.
  pub calls : List (Client × Bytes)

module _ {Client : Type 0} where
  unfoldable pub build_connection :
      Option Client → Bytes → ClientSender Client → Bool × ClientSender Client
  build_connection none address s = (false, s)
  build_connection (some c) address s =
      (true, record s { connections = ConnMap.insert s.connections address (some c) })

  unfoldable pub done : ClientSender Client → ClientSender Client
  done s = record s { wg = s.wg - 1 }

  -- `none` is the call of a nil client.
  unfoldable pub request_over :
      Option Client → Bool → Bytes → ClientSender Client → Option (ClientSender Client)
  request_over none replied address s = none
  request_over (some c) replied address s =
      let s1 = record s { calls = s.calls ++ (c, address) ∷ [] } in
      some (
        done (
          if replied
          then s1
          else record s1 { connections = ConnMap.insert s1.connections address none }))

  -- The connection that is kept for the address, unless it is nil.
  unfoldable pub usable : Option Client × Bool → Option Client
  usable (none, built) = none
  usable (some c, true) = some c
  usable (some c, false) = none

  unfoldable pub after_dialling :
      Bool × ClientSender Client → Bool → Bytes → Bytes → Option (ClientSender Client)
  after_dialling (true, s) replied nid address =
      request_over (ConnMap.get s.connections address).0 replied address s
  after_dialling (false, s) replied nid address = some (
      done (record s {
        live = Connection.not_live s.live nid;
        client_timer = add_int s.client_timer s.client_timer;
      }))

  -- `SendRequest` behind the choice of the port.
  unfoldable pub request_at :
      Option Client → Bool → Bytes → Bytes → ClientSender Client → Option (ClientSender Client)
  request_at dialled replied nid address s = elim (usable (ConnMap.get s.connections address)) [
    | none ↦ after_dialling (build_connection dialled address s) replied nid address
    | some c ↦ request_over (some c) replied address s
  ]

  -- An address without a port cannot be changed to the one for clients, which panics.
  request_to :
      Option Client
      → Bool
      → Bytes
      → Option Bytes
      → ClientSender Client
      → Option (ClientSender Client)
  request_to dialled replied nid none s = none
  request_to dialled replied nid (some address) s = request_at dialled replied nid address s

  unfoldable pub send_request :
      Option Client → Bool → Bytes → ClientSender Client → Option (ClientSender Client)
  unfolding request_to
  send_request dialled replied address s =
      let nid = fetch_replica_id s.nodes address in
      request_to dialled replied nid
        (if s.split_ports then Connection.update_address address else some address) s

  -- The loop of `BroadcastRequest`: the addresses of the sendings that it spawns.
  unfoldable pub spawn_requests :
      List Bytes → ClientSender Client → List Bytes × ClientSender Client
  spawn_requests [] s = ([], s)
  spawn_requests (nid ∷ nids) s =
      let dead = Connection.is_not_live s.live nid in
      let (rest, s1) = spawn_requests nids (if dead then s else record s { wg = s.wg + 1 }) in
      (if dead then rest else fetch_address s.nodes nid ∷ rest, s1)

  unfoldable pub broadcast_request : ClientSender Client → List Bytes × ClientSender Client
  broadcast_request s = spawn_requests (fetch_nodes s.nodes) s

  -- The sendings, one after the other, each with what its dialling and its call come to.
  unfoldable pub run_requests :
      List (Bytes × Option Client × Bool) → ClientSender Client → Option (ClientSender Client)
  run_requests [] s = some s
  run_requests ((address, dialled, replied) ∷ sendings) s =
      elim (send_request dialled replied address s) [
        | none ↦ none
        | some s1 ↦ run_requests sendings s1
      ]

  unfoldable pub start_client_sender : Nodes → ℤ → Bytes → ClientSender Client → ClientSender Client
  start_client_sender n timer cid s = elim (atoi cid) [
    | none ↦ record s { nodes = n }
    | some id ↦ record s {
      nodes = n;
      live = Connection.start_connection_manager;
      connections = ConnMap.init Client;
      client_timer = timer;
    }
  ]
