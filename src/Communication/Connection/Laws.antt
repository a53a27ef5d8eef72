-- ===== src/Communication/Connection/Laws.antt =====
-- communication/connection.go: how many failures make a node dead.
use sleepy_hot_stuff.Base.{
  ℕ, zero, suc, ◌-◌, ◌^◌, ◌<◌, ◌≡◌, true, false, arith, leb, Bytes, bytes_eq_iff, pos, add_int,
  ◌+ℤ◌, ◌-ℤ◌,
}
use sleepy_hot_stuff.Utils.StringBoolMap
use sleepy_hot_stuff.Utils.StringIntMap
use sleepy_hot_stuff.Communication.Connection.{Connection, is_not_live, not_live, set_live}

-- A number of failures, one after the other.
unfoldable pub failures : ℕ → Bytes → Connection → Connection
failures zero key c = c
failures (suc n) key c = not_live (failures n key c) key

next_count : (n : ℕ) → n < 2 ^ 63 - 1 → add_int (pos n) (pos 1) ≡ pos (suc n)
unfolding add_int ◌+ℤ◌ ◌-ℤ◌
next_count n h = ground arith

-- The failures are counted, and the flag is raised by the fifth.
record Counted (n : ℕ) (key : Bytes) (c : Connection) : Type 0 where
  counter : StringIntMap.get c.connection_map key ≡ (pos n, true)
  flag : StringBoolMap.get c.connection key ≡ (leb 5 n, true)

set_live-Counted : (key : Bytes) (c : Connection) → Counted 0 key (set_live c key)
unfolding set_live
set_live-Counted key c = record {
  counter =
      ground
        (arith, StringIntMap.get-insert c.connection_map key key (pos 0), bytes_eq_iff key key);
  flag = ground (arith, StringBoolMap.get-insert c.connection key key false, bytes_eq_iff key key);
}

not_live-Counted :
    (n : ℕ) (key : Bytes) (c : Connection)
    → n < 2 ^ 63 - 1
    → Counted n key c
    → Counted (suc n) key (not_live c key)
unfolding not_live
not_live-Counted n key c small h = record {
  counter = ground (
    arith,
    h.counter,
    next_count n small,
    StringIntMap.get-insert c.connection_map key key (add_int (pos n) (pos 1)),
    bytes_eq_iff key key,
  );
  flag = ground (
    arith,
    h.counter,
    h.flag,
    StringBoolMap.get-insert c.connection key key true,
    bytes_eq_iff key key,
  );
}

Counted-failures :
    (n : ℕ) (key : Bytes) (c : Connection)
    → n < 2 ^ 63
    → Counted n key (failures n key (set_live c key))
unfolding failures
Counted-failures zero key c small = set_live-Counted key c
Counted-failures (suc n) key c small =
    not_live-Counted n key (failures n key (set_live c key)) (omega arith)
      (Counted-failures n key c (omega arith))

-- After a node was heard of, it is regarded as dead from the fifth failure on, and not before, for up
-- to 2 ^ 63 - 1 failures.
pub is_not_live-failures :
    (n : ℕ) (key : Bytes) (c : Connection)
    → n < 2 ^ 63
    → is_not_live (failures n key (set_live c key)) key ≡ leb 5 n
unfolding is_not_live
is_not_live-failures n key c small = ground (arith, (Counted-failures n key c small).flag)
