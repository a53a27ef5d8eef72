-- ===== src/Communication/Sender/Broadcast.antt =====
-- communication/sender/sender.go: where a broadcast goes.
use sleepy_hot_stuff.Base.{
  ℕ, zero, suc, ◌≡◌, refl, ap, ◌∙◌, Bool, true, ◌||◌, ◌&&◌, not, if_rule, some, List, [], ◌∷◌,
  arith, if◌then◌else◌, get_elem?, All, Bytes, bytes_eq, bytes_eq_iff, string_eq,
}
use sleepy_hot_stuff.Utils.Map.{contains, Distinct}
use sleepy_hot_stuff.Env.{Env}
use sleepy_hot_stuff.Crypto.{gen_sig}
use sleepy_hot_stuff.Communication.Connection
use sleepy_hot_stuff.Communication.Nodes.{
  Entry, Nodes, address_of, no_nodes, load_replicas, fetch_address, fetch_replica_id,
}
use sleepy_hot_stuff.Communication.Nodes.Lookup.{
  entry_ids, entry_addresses, fetch_replica_id-fetch_address, fetch_nodes-load_replicas,
}
use sleepy_hot_stuff.Communication.Sender.{
  Sender, Send, TypeOfMessage, hot_stuff_msg, send_other, send_others, to_others,
  rbc_byte_broadcast,
}

-- How many of the messages go to an address.
unfoldable pub sends_to : Bytes → List Send → ℕ
sends_to address [] = 0
sends_to address (x ∷ sends) =
    let rest = sends_to address sends in if bytes_eq x.address address then suc rest else rest

-- The address of the id is known, and belongs to no other id.
abbrev Named : Nodes → Bytes → Type 0
Named n id = fetch_replica_id n (fetch_address n id) ≡ id

same_address :
    (n : Nodes) (a b : Bytes)
    → Named n a
    → Named n b
    → fetch_address n a ≡ fetch_address n b
    → a ≡ b
same_address n a b ha hb e = cc

module _ {Client : Type 0} (s : Sender Client) (request : Bytes) (t : TypeOfMessage)
    (key : Bytes) where
  -- The loop leaves this node out.
  abbrev skipped : Bool
  skipped = bytes_eq key s.idstring || Connection.is_not_live s.live key

  sends_to-send_others :
      (ids : List Bytes)
      → Named s.nodes key
      → All (Named s.nodes) ids
      → Distinct ids
      → sends_to (fetch_address s.nodes key) (send_others s request t ids)
        ≡ (if contains key ids && not skipped then 1 else 0)
  unfolding sends_to send_others send_other contains
  sends_to-send_others [] named all d = refl
  sends_to-send_others (nid ∷ ids) named all d = ground (
    arith,
    sends_to-send_others ids named,
    bytes_eq_iff nid key,
    bytes_eq_iff (fetch_address s.nodes nid) (fetch_address s.nodes key),
    same_address s.nodes nid key,
  )

-- A predicate on ids that holds of each entry's.
All-entry_ids :
    (P : Bytes → Type 0) (replicas : List Entry)
    → ((i : ℕ) (r : Entry) → get_elem? replicas i ≡ some r → P r.id)
    → All P (entry_ids replicas)
All-entry_ids P [] h = tt
All-entry_ids P (r ∷ replicas) h = (h 0 r refl, All-entry_ids P replicas (λ i x at. h (suc i) x at))

contains-get_elem? :
    (replicas : List Entry) (i : ℕ) (r : Entry)
    → get_elem? replicas i ≡ some r
    → contains r.id (entry_ids replicas) ≡ true
unfolding contains
contains-get_elem? [] i r at = cc
contains-get_elem? (x ∷ replicas) zero r at = ground (arith, bytes_eq_iff x.id r.id)
contains-get_elem? (x ∷ replicas) (suc i) r at = ground (arith, contains-get_elem? replicas i r at)

module _ (replicas : List Entry) (ids : Distinct (entry_ids replicas))
    (addresses : Distinct (entry_addresses replicas)) where
  id_back :
      (i : ℕ) (r : Entry)
      → get_elem? replicas i ≡ some r
      → Named (load_replicas no_nodes replicas) r.id
  id_back i r at =
      let (to, back) = fetch_replica_id-fetch_address replicas i r ids addresses at in
      ap (fetch_replica_id (load_replicas no_nodes replicas)) to ∙ back

  id_back-All : All (Named (load_replicas no_nodes replicas)) (entry_ids replicas)
  id_back-All = All-entry_ids (Named (load_replicas no_nodes replicas)) replicas id_back

-- Where no id and no address stands twice in the configuration and the message can be serialized,
-- `RBCByteBroadcast` sends exactly one message to the address of each configured replica, and none to
-- the replica itself and to those that are regarded as dead.
pub rbc_byte_broadcast-sends_to :
    {Client : Type 0} (e : Env) (s : Sender Client) (msg request : Bytes) (replicas : List Entry)
    (i : ℕ) (r : Entry)
    → s.nodes ≡ load_replicas no_nodes replicas
    → Distinct (entry_ids replicas)
    → Distinct (entry_addresses replicas)
    → e.marshal_signed (record { msg = some msg; sig = gen_sig e msg }) ≡ some request
    → get_elem? replicas i ≡ some r
    → sends_to (address_of r) (rbc_byte_broadcast e s msg)
      ≡ (if bytes_eq r.id s.idstring || Connection.is_not_live s.live r.id then 0 else 1)
unfolding rbc_byte_broadcast to_others
rbc_byte_broadcast-sends_to e s msg request replicas i r loaded ids addresses signed at =
    let (to, back) = fetch_replica_id-fetch_address replicas i r ids addresses at in
    rw signed (
      ground (
        arith,
        to,
        fetch_nodes-load_replicas replicas,
        contains-get_elem? replicas i r at,
        sends_to-send_others s request hot_stuff_msg r.id (entry_ids replicas)
            (rw loaded (id_back replicas ids addresses i r at))
            (rw loaded (id_back-All replicas ids addresses)) ids,
      ))

-- Every message of the broadcast carries the signed message.
send_others-request :
    {Client : Type 0} (s : Sender Client) (request : Bytes) (t : TypeOfMessage) (ids : List Bytes)
    → All (λ x. (x.msg ≡ request) × (x.msg_type ≡ t)) (send_others s request t ids)
unfolding send_others send_other
send_others-request s request t [] = tt
send_others-request s request t (nid ∷ ids) =
    if_rule (All (λ (x : Send). (x.msg ≡ request) × (x.msg_type ≡ t)))
      (bytes_eq nid s.idstring || Connection.is_not_live s.live nid)
      (λ _. send_others-request s request t ids)
      (λ _. ((refl, refl), send_others-request s request t ids))
