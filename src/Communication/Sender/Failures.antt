-- ===== src/Communication/Sender/Failures.antt =====
-- communication/sender/sender.go: messages to a node that cannot be reached.
use sleepy_hot_stuff.Base.{
  ℕ, zero, suc, ◌*◌, ◌-◌, ◌%◌, ◌^◌, ◌<◌, ◌≡◌, ◌≢◌, refl, sym, ap, ◌∙◌, false, Option, none, some,
  [], arith, leb, Bytes, bytes_eq_iff, ℤ, pos, negsuc, ◌≤ℤ◌, min_int, max_int, add_int, ◌+ℤ◌, ◌-ℤ◌,
}
use native.Mathlib.Nat.{pow-succ'}
use sleepy_hot_stuff.Communication.Connection.{Connection, is_not_live, set_live}
use sleepy_hot_stuff.Communication.Connection.Laws.{failures, is_not_live-failures}
use sleepy_hot_stuff.Communication.ConnMap
use sleepy_hot_stuff.Communication.Nodes.{fetch_replica_id}
use sleepy_hot_stuff.Communication.Sender.{
  Sender, Send, byte_send, build_connection, did_not_connect, is_some,
}

-- A number of calls of `ByteSend` with the same arguments, each of which dials and fails.
unfoldable pub unreachable : {Client : Type 0} → ℕ → Send → Sender Client → Option (Sender Client)
unreachable zero x s = some s
unreachable (suc n) x s = elim (unreachable n x s) [
  | none ↦ none
  | some s1 ↦ byte_send none false x s1
]

doubled : ℕ → ℤ → ℤ
doubled zero t = t
doubled (suc n) t = add_int (doubled n t) (doubled n t)

-- The state after them.
failed : {Client : Type 0} → ℕ → Bytes → Sender Client → Sender Client
failed n nid s = record s {
  live = failures n nid s.live;
  broadcast_timer = doubled n s.broadcast_timer;
}

module _ {Client : Type 0} (x : Send) (s : Sender Client) where
  byte_send-fails :
      (n : ℕ)
      → x.address ≢ []
      → (ConnMap.get s.connections x.address).0 ≡ none
      → byte_send none false x (failed n (fetch_replica_id s.nodes x.address) s)
        ≡ some (failed (suc n) (fetch_replica_id s.nodes x.address) s)
  unfolding byte_send build_connection did_not_connect is_some failed failures doubled
  byte_send-fails n somewhere unknown = ground (arith, bytes_eq_iff x.address [])

  unreachable-failed :
      (n : ℕ)
      → x.address ≢ []
      → (ConnMap.get s.connections x.address).0 ≡ none
      → unreachable n x s ≡ some (failed n (fetch_replica_id s.nodes x.address) s)
  unfolding unreachable
  unreachable-failed zero somewhere unknown = unfold failed failures doubled in refl
  unreachable-failed (suc n) somewhere unknown =
      rw (unreachable-failed n somewhere unknown) (byte_send-fails n somewhere unknown)

-- The 64-bit pattern of an int64, which a doubling shifts.
pattern64 : ℤ → ℕ
pattern64 (pos n) = n
pattern64 (negsuc n) = 2 ^ 64 - n - 1

pattern64-add_int :
    (t : ℤ)
    → min_int ≤ℤ t
    → t ≤ℤ max_int
    → (pattern64 (add_int t t) ≡ (pattern64 t * 2) % 2 ^ 64)
      × (min_int ≤ℤ add_int t t)
      × (add_int t t ≤ℤ max_int)
unfolding pattern64 add_int ◌+ℤ◌ ◌-ℤ◌
pattern64-add_int (pos n) lo hi = ground arith
pattern64-add_int (negsuc n) lo hi = ground arith

pattern64_lt : (t : ℤ) → min_int ≤ℤ t → t ≤ℤ max_int → pattern64 t < 2 ^ 64
unfolding pattern64
pattern64_lt (pos n) lo hi = omega arith
pattern64_lt (negsuc n) lo hi = omega arith

pow_suc : (p n : ℕ) → p * 2 ^ suc n ≡ p * 2 ^ n * 2
pow_suc p n = grind (arith, pow-succ')

twice_mod : (a : ℕ) → (a % 2 ^ 64 * 2) % 2 ^ 64 ≡ (a * 2) % 2 ^ 64
twice_mod a = omega arith

pattern64-doubled :
    (n : ℕ) (t : ℤ)
    → min_int ≤ℤ t
    → t ≤ℤ max_int
    → (pattern64 (doubled n t) ≡ (pattern64 t * 2 ^ n) % 2 ^ 64)
      × (min_int ≤ℤ doubled n t)
      × (doubled n t ≤ℤ max_int)
unfolding doubled
pattern64-doubled zero t lo hi = (omega (arith, pattern64_lt t lo hi), lo, hi)
pattern64-doubled (suc n) t lo hi =
    let (ih, low, high) = pattern64-doubled n t lo hi in
    let (next, low', high') = pattern64-add_int (doubled n t) low high in
    (
      next
          ∙ ap (λ k. (k * 2) % 2 ^ 64) ih
          ∙ twice_mod (pattern64 t * 2 ^ n)
          ∙ ap (λ k. k % 2 ^ 64) (sym (pow_suc (pattern64 t) n)),
      low',
      high',
    )

pattern64_zero : (t : ℤ) → min_int ≤ℤ t → t ≤ℤ max_int → pattern64 t ≡ 0 → t ≡ pos 0
unfolding pattern64
pattern64_zero (pos n) lo hi h = ground arith
pattern64_zero (negsuc n) lo hi h = ground arith

doubled_64 : (t : ℤ) → min_int ≤ℤ t → t ≤ℤ max_int → doubled 64 t ≡ pos 0
doubled_64 t lo hi =
    let (e, low, high) = pattern64-doubled 64 t lo hi in
    pattern64_zero (doubled 64 t) low high (e ∙ omega arith)

-- A node at a known address to which no connection is kept cannot be reached `n` times, `n` below
-- 2 ^ 63, after it was heard of: the calls return, hand nothing to any client, and make the node dead
-- exactly if there were at least five of them.
pub unreachable-is_not_live :
    {Client : Type 0} (n : ℕ) (x : Send) (s : Sender Client) (c : Connection)
    → n < 2 ^ 63
    → x.address ≢ []
    → (ConnMap.get s.connections x.address).0 ≡ none
    → s.live ≡ set_live c (fetch_replica_id s.nodes x.address)
    → (s' : Sender Client) × (unreachable n x s ≡ some s')
      × (s'.calls ≡ s.calls)
      × (is_not_live s'.live (fetch_replica_id s.nodes x.address) ≡ leb 5 n)
unreachable-is_not_live n x s c small somewhere unknown heard =
    let nid = fetch_replica_id s.nodes x.address in
    (
      failed n nid s,
      unreachable-failed x s n somewhere unknown,
      unfold failed in refl,
      unfold failed in rw heard (is_not_live-failures n nid c small),
    )

-- Whatever int64 the time limit of the calls is, after 64 calls to a node at a known address that
-- could not be connected to it is 0.
pub unreachable-broadcast_timer :
    {Client : Type 0} (x : Send) (s : Sender Client)
    → min_int ≤ℤ s.broadcast_timer
    → s.broadcast_timer ≤ℤ max_int
    → x.address ≢ []
    → (ConnMap.get s.connections x.address).0 ≡ none
    → (s' : Sender Client) × (unreachable 64 x s ≡ some s') × (s'.broadcast_timer ≡ pos 0)
unreachable-broadcast_timer x s lo hi somewhere unknown = (
  failed 64 (fetch_replica_id s.nodes x.address) s,
  unreachable-failed x s 64 somewhere unknown,
  unfold failed in doubled_64 s.broadcast_timer lo hi,
)
