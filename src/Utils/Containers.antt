-- ===== src/Utils/Containers.antt =====
-- utils/map.go: what a map container promises, as an interface, and that IntByteMap, StringIntMap,
-- StringBoolMap and IntStringMap keep it: however they are filled and emptied, they read as a function
-- from keys to a value and a flag.
use sleepy_hot_stuff.Base.{
  ◌≡◌, refl, Bool, true, false, List, [], ◌∷◌, arith, if◌then◌else◌, Bytes, string_eq, ℤ, pos,
  int_eq, some, Eq,
}
use sleepy_hot_stuff.Utils.Map
use sleepy_hot_stuff.Utils.Values.{Slice}
use sleepy_hot_stuff.Utils.IntStringMap
use sleepy_hot_stuff.Utils.IntStringMap.{IntStringMap}
use sleepy_hot_stuff.Utils.IntByteMap
use sleepy_hot_stuff.Utils.IntByteMap.{IntByteMap}
use sleepy_hot_stuff.Utils.StringIntMap
use sleepy_hot_stuff.Utils.StringIntMap.{StringIntMap}
use sleepy_hot_stuff.Utils.StringBoolMap
use sleepy_hot_stuff.Utils.StringBoolMap.{StringBoolMap}

pub data Op (K V : Type 0) : Type 0 where
  inserts : K → V → Op K V
  deletes : K → Op K V

-- A container behind its laws. `zero` is what a missing key reads as.
pub record Container (C K V : Type 0) ⦃e : Eq K⦄ : Type 0 where
  pub zero : V
  pub init : C
  pub get : C → K → V × Bool
  pub insert : C → K → V → C
  pub delete : C → K → C
  pub get-init : (key : K) → get init key ≡ (zero, false)
  pub get-insert :
      (m : C) (key other : K) (value : V)
      → get (insert m key value) other ≡ (if e.beq key other then (value, true) else get m other)
  pub get-delete :
      (m : C) (key other : K)
      → get (delete m key) other ≡ (if e.beq key other then (zero, false) else get m other)

module _ {C K V : Type 0} ⦃e : Eq K⦄ (c : Container C K V) where
  -- The last operation comes first in the list.
  unfoldable pub after_ops : List (Op K V) → C
  after_ops [] = c.init
  after_ops (inserts key value ∷ ops) = c.insert (after_ops ops) key value
  after_ops (deletes key ∷ ops) = c.delete (after_ops ops) key

  -- The same operations on a function.
  unfoldable pub replayed : List (Op K V) → K → V × Bool
  replayed [] other = (c.zero, false)
  replayed (inserts key value ∷ ops) other =
      let rest = replayed ops other in if e.beq key other then (value, true) else rest
  replayed (deletes key ∷ ops) other =
      let rest = replayed ops other in if e.beq key other then (c.zero, false) else rest

  pub get-after_ops :
      (ops : List (Op K V)) (other : K) → c.get (after_ops ops) other ≡ replayed ops other
  unfolding after_ops replayed
  get-after_ops [] other = c.get-init other
  get-after_ops (inserts key value ∷ ops) other =
      ground (arith, get-after_ops ops other, c.get-insert (after_ops ops) key other value)
  get-after_ops (deletes key ∷ ops) other =
      ground (arith, get-after_ops ops other, c.get-delete (after_ops ops) key other)

pub get-init_int_byte_map : (key : ℤ) → IntByteMap.get IntByteMap.init key ≡ (some [], false)
unfolding IntByteMap.get IntByteMap.init Map.get
get-init_int_byte_map key = refl

unfoldable pub int_byte_map : Container IntByteMap ℤ Slice
int_byte_map = record {
  zero = some [];
  init = IntByteMap.init;
  get = IntByteMap.get;
  insert = IntByteMap.insert;
  delete = IntByteMap.delete;
  get-init = get-init_int_byte_map;
  get-insert = IntByteMap.get-insert;
  get-delete = IntByteMap.get-delete;
}

pub get-init_string_int_map :
    (key : Bytes) → StringIntMap.get StringIntMap.init key ≡ (pos 0, false)
unfolding StringIntMap.get StringIntMap.init Map.get
get-init_string_int_map key = refl

unfoldable pub string_int_map : Container StringIntMap Bytes ℤ
string_int_map = record {
  zero = pos 0;
  init = StringIntMap.init;
  get = StringIntMap.get;
  insert = StringIntMap.insert;
  delete = StringIntMap.delete;
  get-init = get-init_string_int_map;
  get-insert = StringIntMap.get-insert;
  get-delete = StringIntMap.get-delete;
}

pub get-init_string_bool_map :
    (key : Bytes) → StringBoolMap.get StringBoolMap.init key ≡ (false, false)
unfolding StringBoolMap.get StringBoolMap.init Map.get
get-init_string_bool_map key = refl

unfoldable pub string_bool_map : Container StringBoolMap Bytes Bool
string_bool_map = record {
  zero = false;
  init = StringBoolMap.init;
  get = StringBoolMap.get;
  insert = StringBoolMap.insert;
  delete = StringBoolMap.delete;
  get-init = get-init_string_bool_map;
  get-insert = StringBoolMap.get-insert;
  get-delete = StringBoolMap.get-delete;
}

pub get-init_int_string_map : (key : ℤ) → IntStringMap.get IntStringMap.init key ≡ ([], false)
unfolding IntStringMap.get IntStringMap.init Map.get
get-init_int_string_map key = refl

unfoldable pub int_string_map : Container IntStringMap ℤ Bytes
int_string_map = record {
  zero = [];
  init = IntStringMap.init;
  get = IntStringMap.get;
  insert = IntStringMap.insert;
  delete = IntStringMap.delete;
  get-init = get-init_int_string_map;
  get-insert = IntStringMap.get-insert;
  get-delete = IntStringMap.get-delete;
}

-- Each of `IntByteMap`, `StringIntMap`, `StringBoolMap` and `IntStringMap`, filled and emptied by any
-- operations in any order, reads at every key as the function from keys to a value and a flag that the
-- same operations change.
pub containers-refine :
    (blocks : List (Op ℤ Slice)) (height : ℤ) (counts : List (Op Bytes ℤ)) (counted : Bytes)
    (flags : List (Op Bytes Bool)) (flagged : Bytes) (texts : List (Op ℤ Bytes)) (number : ℤ)
    → (IntByteMap.get (after_ops int_byte_map blocks) height ≡ replayed int_byte_map blocks height)
      × (StringIntMap.get (after_ops string_int_map counts) counted
          ≡ replayed string_int_map counts counted)
      × (StringBoolMap.get (after_ops string_bool_map flags) flagged
          ≡ replayed string_bool_map flags flagged)
      × (IntStringMap.get (after_ops int_string_map texts) number
          ≡ replayed int_string_map texts number)
unfolding IntByteMap.get int_byte_map StringIntMap.get string_int_map StringBoolMap.get
    string_bool_map IntStringMap.get int_string_map
containers-refine blocks height counts counted flags flagged texts number = (
  get-after_ops int_byte_map blocks height,
  get-after_ops string_int_map counts counted,
  get-after_ops string_bool_map flags flagged,
  get-after_ops int_string_map texts number,
)
