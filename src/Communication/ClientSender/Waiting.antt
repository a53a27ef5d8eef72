-- ===== src/Communication/ClientSender/Waiting.antt =====
-- communication/clientsender/client.go: `BroadcastRequest` waits for as many sendings as it spawns, and
-- each of them is over at some time.
use sleepy_hot_stuff.Base.{
  suc, ◌+◌, ◌-◌, ◌≡◌, refl, ap, ◌∙◌, Bool, true, false, Option, none, some, List, [], ◌∷◌, arith,
  length, Bytes, string_eq, Option-cases, inl, inr,
}
use sleepy_hot_stuff.Utils.Map
use sleepy_hot_stuff.Communication.ConnMap
use sleepy_hot_stuff.Communication.Nodes.{fetch_replica_id, fetch_nodes}
use sleepy_hot_stuff.Communication.ClientSender.{
  ClientSender, build_connection, done, request_over, usable, after_dialling, request_at,
  send_request, spawn_requests, broadcast_request, run_requests,
}

module _ {Client : Type 0} where
  -- The call returns, has told the wait group so, and leaves the choice of ports.
  abbrev Over : ClientSender Client → Option (ClientSender Client) → Type 0
  Over s result =
      (s' : ClientSender Client) × (result ≡ some s')
      × (s'.wg ≡ s.wg - 1)
      × (s'.split_ports ≡ s.split_ports)

  request_over-Over :
      (c : Client) (replied : Bool) (address : Bytes) (s : ClientSender Client)
      → Over s (request_over (some c) replied address s)
  unfolding request_over done
  request_over-Over c true address s = (_, refl, refl, refl)
  request_over-Over c false address s = (_, refl, refl, refl)

  get-connected :
      (c : Client) (address : Bytes) (s : ClientSender Client)
      → (ConnMap.get (ConnMap.insert s.connections address (some c)) address).0 ≡ some c
  unfolding ConnMap.get ConnMap.insert
  get-connected c address s = rw (Map.get-insert_self address (some c) s.connections.m) refl

  after_dialling-Over :
      (dialled : Option Client) (replied : Bool) (nid address : Bytes) (s : ClientSender Client)
      → Over s (after_dialling (build_connection dialled address s) replied nid address)
  unfolding after_dialling build_connection done
  after_dialling-Over none replied nid address s = (_, refl, refl, refl)
  after_dialling-Over (some c) replied nid address s = rw (get-connected c address s) (
      request_over-Over c replied address
        (record s { connections = ConnMap.insert s.connections address (some c) }))

  request_at-Over :
      (dialled : Option Client) (replied : Bool) (nid address : Bytes) (s : ClientSender Client)
      → Over s (request_at dialled replied nid address s)
  unfolding request_at
  request_at-Over dialled replied nid address s =
      elim (Option-cases (usable (ConnMap.get s.connections address))) [
        | inl none_usable ↦
            rw (none_usable, request_at) (after_dialling-Over dialled replied nid address s)
        | inr (c, is_usable) ↦ rw (is_usable, request_at) (request_over-Over c replied address s)
      ]

  send_request-plain :
      (dialled : Option Client) (replied : Bool) (address : Bytes) (s : ClientSender Client)
      → s.split_ports ≡ false
      → send_request dialled replied address s
        ≡ request_at dialled replied (fetch_replica_id s.nodes address) address s
  unfolding send_request
  send_request-plain dialled replied address s plain = simp plain

  send_request-Over :
      (dialled : Option Client) (replied : Bool) (address : Bytes) (s : ClientSender Client)
      → s.split_ports ≡ false
      → Over s (send_request dialled replied address s)
  send_request-Over dialled replied address s plain =
      rw (send_request-plain dialled replied address s plain)
        (request_at-Over dialled replied (fetch_replica_id s.nodes address) address s)

  -- The addresses of sendings.
  abbrev pub addresses : List (Bytes × Option Client × Bool) → List Bytes
  addresses [] = []
  addresses ((address, dialled, replied) ∷ sendings) = address ∷ addresses sendings

  run_requests-wg :
      (sendings : List (Bytes × Option Client × Bool)) (s : ClientSender Client)
      → s.split_ports ≡ false
      → (s' : ClientSender Client) × (run_requests sendings s ≡ some s')
        × (s'.wg ≡ s.wg - length sendings)
  unfolding run_requests
  run_requests-wg [] s plain = (s, refl, omega arith)
  run_requests-wg ((address, dialled, replied) ∷ sendings) s plain =
      let (s1, returns, one_less, same) = send_request-Over dialled replied address s plain in
      let (s2, runs, fewer) = run_requests-wg sendings s1 (same ∙ plain) in
      (s2, rw (returns, run_requests) runs, omega (arith, fewer, one_less))

  spawn_requests-wg :
      (nids : List Bytes) (s : ClientSender Client)
      → ((spawn_requests nids s).1.wg ≡ s.wg + length (spawn_requests nids s).0)
        × ((spawn_requests nids s).1.split_ports ≡ s.split_ports)
  unfolding spawn_requests
  spawn_requests-wg [] s = (omega arith, refl)
  spawn_requests-wg (nid ∷ nids) s =
      ground (arith, spawn_requests-wg nids s, spawn_requests-wg nids (record s { wg = s.wg + 1 }))

  length-addresses :
      (sendings : List (Bytes × Option Client × Bool))
      → length (addresses sendings) ≡ length sendings
  length-addresses [] = refl
  length-addresses ((address, dialled, replied) ∷ sendings) = ap suc (length-addresses sendings)

-- Where the ports are not split, the wait at the end of `BroadcastRequest` is over whatever becomes of
-- its sendings: once each has run, whether or not it connected and got a reply, every one has returned
-- and the counter of the wait group is back at what it was.
pub broadcast_request-ends :
    {Client : Type 0} (s : ClientSender Client) (sendings : List (Bytes × Option Client × Bool))
    → s.split_ports ≡ false
    → addresses sendings ≡ (broadcast_request s).0
    → (s' : ClientSender Client) × (run_requests sendings (broadcast_request s).1 ≡ some s')
      × (s'.wg ≡ s.wg)
unfolding broadcast_request
broadcast_request-ends s sendings plain spawned =
    let (wg, same) = spawn_requests-wg (fetch_nodes s.nodes) s in
    let (s', runs, left) =
      run_requests-wg sendings (spawn_requests (fetch_nodes s.nodes) s).1 (same ∙ plain) in
    (s', runs, omega (arith, wg, left, length-addresses sendings, ap length spawned))
