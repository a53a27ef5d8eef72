-- ===== src/Communication/ConnMap.antt =====
-- communication/connMap.go: `AddrConnMap`, from addresses to clients, to the ids of the nodes there, and
-- to counters. A stored client may be nil, `none`.
use sleepy_hot_stuff.Base.{
  Bool, true, false, Option, none, some, List, [], ◌∷◌, Bytes, string_eq, ℤ, pos, add_int,
}
use sleepy_hot_stuff.Utils.Map
use sleepy_hot_stuff.Utils.Map.{Map}

pub record AddrConnMap (Client : Type 0) : Type 0 where
  pub m : Map Bytes (Option Client)
  pub idmap : Map Bytes Bytes
  pub count : Map Bytes ℤ

id_or_empty : Option Bytes → Bytes
id_or_empty none = []
id_or_empty (some val) = val

count_or_zero : Option ℤ → ℤ
count_or_zero none = pos 0
count_or_zero (some n) = n

-- The first increment of a key stores 0.
next : Option ℤ → ℤ
next none = pos 0
next (some n) = add_int n (pos 1)

module _ {Client : Type 0} where
  found : Option (Option Client) → Option Client × Bool
  found none = (none, false)
  found (some c) = (c, true)

  unfoldable pub get : AddrConnMap Client → Bytes → Option Client × Bool
  unfolding found
  get s key = found (Map.get key s.m)

  unfoldable pub get_id : AddrConnMap Client → Bytes → Bytes
  unfolding id_or_empty
  get_id s key = id_or_empty (Map.get key s.idmap)

  unfoldable pub get_cur_count : AddrConnMap Client → Bytes → ℤ
  unfolding count_or_zero
  get_cur_count s key = count_or_zero (Map.get key s.count)

  unfoldable pub reset_count : AddrConnMap Client → Bytes → AddrConnMap Client
  reset_count s key = record s { count = Map.insert key (pos 0) s.count }

  values : Map Bytes (Option Client) → List (Option Client)
  values [] = []
  values ((k, v) ∷ m) = v ∷ values m

  unfoldable pub get_all : AddrConnMap Client → List (Option Client)
  unfolding values
  get_all s = values s.m

  unfoldable pub insert : AddrConnMap Client → Bytes → Option Client → AddrConnMap Client
  insert s key value = record s { m = Map.insert key value s.m }

  unfoldable pub insert_id : AddrConnMap Client → Bytes → Bytes → AddrConnMap Client
  insert_id s key value = record s { idmap = Map.insert key value s.idmap }

  unfoldable pub increment_count : AddrConnMap Client → Bytes → AddrConnMap Client
  unfolding next
  increment_count s key = record s { count = Map.insert key (next (Map.get key s.count)) s.count }

unfoldable pub init : (Client : Type 0) → AddrConnMap Client
init Client = record { m = []; idmap = []; count = [] }
