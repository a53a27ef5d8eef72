-- ===== src/Communication/Nodes/Lookup.antt =====
-- config/config.go: what the sender finds in the tables that `LoadConfig` has filled.
use sleepy_hot_stuff.Base.{
  ℕ, zero, suc, ◌≡◌, refl, sym, ap, ◌∙◌, Bool-cases, inl, inr, Bool, ◌||◌, true, false, some, List,
  [], ◌∷◌, ◌++◌, arith, get_elem?, Bytes, bytes_eq, bytes_eq_iff, string_eq,
}
use mathlib.Core.List.{append_assoc, append-nil}
use sleepy_hot_stuff.Utils.Map
use sleepy_hot_stuff.Utils.Map.{Map, contains, Distinct}
use sleepy_hot_stuff.Communication.Nodes.{
  Entry, Nodes, address_of, no_nodes, load_replicas, add_replica, fetch_address, fetch_replica_id,
  fetch_nodes, or_empty_text,
}

abbrev pub entry_ids : List Entry → List Bytes
entry_ids [] = []
entry_ids (r ∷ replicas) = r.id ∷ entry_ids replicas

abbrev pub entry_addresses : List Entry → List Bytes
entry_addresses [] = []
entry_addresses (r ∷ replicas) = address_of r ∷ entry_addresses replicas

-- One of the tables, from one text of each entry to another.
module _ (key value : Entry → Bytes) where
  keys_of : List Entry → List Bytes
  keys_of [] = []
  keys_of (r ∷ replicas) = key r ∷ keys_of replicas

  fill : Map Bytes Bytes → List Entry → Map Bytes Bytes
  fill m [] = m
  fill m (r ∷ replicas) = fill (Map.insert (key r) (value r) m) replicas

  get-fill_other :
      (k : Bytes) (m : Map Bytes Bytes) (replicas : List Entry)
      → contains k (keys_of replicas) ≡ false
      → Map.get k (fill m replicas) ≡ Map.get k m
  unfolding fill keys_of contains
  get-fill_other k m [] h = refl
  get-fill_other k m (r ∷ replicas) h = ground (
    arith,
    get-fill_other k (Map.insert (key r) (value r) m) replicas,
    Map.get-insert (key r) k (value r) m,
    bytes_eq_iff (key r) k,
    bytes_eq_iff k (key r),
  )

  get-fill :
      (i : ℕ) (r : Entry) (m : Map Bytes Bytes) (replicas : List Entry)
      → Distinct (keys_of replicas)
      → get_elem? replicas i ≡ some r
      → Map.get (key r) (fill m replicas) ≡ some (value r)
  unfolding fill keys_of
  get-fill i r m [] d h = cc
  get-fill zero r m (x ∷ replicas) d h = ground (
    arith,
    get-fill_other (key x) (Map.insert (key x) (value x) m) replicas,
    Map.get-insert_self (key x) (value x) m,
  )
  get-fill (suc i) r m (x ∷ replicas) d h =
      get-fill i r (Map.insert (key x) (value x) m) replicas d.1 h

-- The tables of `load_replicas`.
nodes-load_replicas :
    (n : Nodes) (replicas : List Entry)
    → (load_replicas n replicas).nodes ≡ fill (λ r. r.id) address_of n.nodes replicas
unfolding load_replicas add_replica fill
nodes-load_replicas n [] = refl
nodes-load_replicas n (r ∷ replicas) = nodes-load_replicas (add_replica r n) replicas

nodes_reverse-load_replicas :
    (n : Nodes) (replicas : List Entry)
    → (load_replicas n replicas).nodes_reverse
      ≡ fill address_of (λ r. r.id) n.nodes_reverse replicas
unfolding load_replicas add_replica fill
nodes_reverse-load_replicas n [] = refl
nodes_reverse-load_replicas n (r ∷ replicas) =
    nodes_reverse-load_replicas (add_replica r n) replicas

node_ids-load_replicas :
    (n : Nodes) (replicas : List Entry)
    → (load_replicas n replicas).node_ids ≡ n.node_ids ++ entry_ids replicas
unfolding load_replicas add_replica
node_ids-load_replicas n [] = sym (append-nil n.node_ids)
node_ids-load_replicas n (r ∷ replicas) =
    node_ids-load_replicas (add_replica r n) replicas
    ∙ append_assoc n.node_ids (r.id ∷ []) (entry_ids replicas)

keys-entry_ids :
    (replicas : List Entry) → keys_of (λ r. r.id) address_of replicas ≡ entry_ids replicas
unfolding keys_of
keys-entry_ids [] = refl
keys-entry_ids (r ∷ replicas) = ap (λ rest. r.id ∷ rest) (keys-entry_ids replicas)

keys-entry_addresses :
    (replicas : List Entry) → keys_of address_of (λ r. r.id) replicas ≡ entry_addresses replicas
unfolding keys_of
keys-entry_addresses [] = refl
keys-entry_addresses (r ∷ replicas) =
    ap (λ rest. address_of r ∷ rest) (keys-entry_addresses replicas)

-- Where no id and no address stands twice in the configuration, the address that is fetched for a
-- replica's id is its host and port, and the id that is fetched for that address is its id.
pub fetch_replica_id-fetch_address :
    (replicas : List Entry) (i : ℕ) (r : Entry)
    → Distinct (entry_ids replicas)
    → Distinct (entry_addresses replicas)
    → get_elem? replicas i ≡ some r
    → (fetch_address (load_replicas no_nodes replicas) r.id ≡ address_of r)
      × (fetch_replica_id (load_replicas no_nodes replicas) (address_of r) ≡ r.id)
unfolding fetch_address fetch_replica_id or_empty_text
fetch_replica_id-fetch_address replicas i r ids addresses at = (
  rw (nodes-load_replicas no_nodes replicas) (
      ap or_empty_text
        (get-fill (λ x. x.id) address_of i r [] replicas (rw (keys-entry_ids replicas) ids) at)),
  rw (nodes_reverse-load_replicas no_nodes replicas) (
      ap or_empty_text (
        get-fill address_of (λ x. x.id) i r [] replicas
          (rw (keys-entry_addresses replicas) addresses) at)),
)

pub fetch_nodes-load_replicas :
    (replicas : List Entry) → fetch_nodes (load_replicas no_nodes replicas) ≡ entry_ids replicas
unfolding fetch_nodes
fetch_nodes-load_replicas replicas = node_ids-load_replicas no_nodes replicas

or_right : (a b : Bool) → a ≡ false → (a || b) ≡ true → b ≡ true
or_right a b h k = ground arith

-- The entry behind an id of the list.
pub contains-entry_ids :
    (id : Bytes) (replicas : List Entry)
    → contains id (entry_ids replicas) ≡ true
    → (i : ℕ) × (r : Entry) × (get_elem? replicas i ≡ some r) × (r.id ≡ id)
unfolding contains
contains-entry_ids id [] h = cc
contains-entry_ids id (r ∷ replicas) h = elim (Bool-cases (bytes_eq r.id id)) [
  | inl here ↦ (0, r, refl, (bytes_eq_iff r.id id).0 here)
  | inr there ↦
      let (i, x, at, e) =
        contains-entry_ids id replicas
          (or_right (bytes_eq r.id id) (contains id (entry_ids replicas)) there h) in
      (suc i, x, at, e)
]
