-- ===== src/Utils/DoubleSetMap.antt =====
-- utils/map.go: `IntDoubleSetMap`, two maps from numbers to sets of `int64` side by side.
use sleepy_hot_stuff.Base.{ℕ, [], if◌then◌else◌, ℤ, pos, eq_ℤ, int_eq}
use sleepy_hot_stuff.Utils.Map
use sleepy_hot_stuff.Utils.Map.{Map}
use sleepy_hot_stuff.Utils.Int64SetMap
use sleepy_hot_stuff.Utils.Sets.{Set}

-- Inputs other than 0 and 1 are passed over.
pub record IntDoubleSetMap : Type 0 where
  pub m : Map ℤ Set
  pub q : Map ℤ Set

unfoldable pub init : IntDoubleSetMap
init = record { m = []; q = [] }

unfoldable pub insert : IntDoubleSetMap → ℤ → ℤ → ℤ → IntDoubleSetMap
insert s key input value =
    if eq_ℤ input (pos 0)
    then record s { m = Int64SetMap.insert s.m key value }
    else (if eq_ℤ input (pos 1) then record s { q = Int64SetMap.insert s.q key value } else s)

unfoldable pub get_count : IntDoubleSetMap → ℤ → ℤ → ℕ
get_count s key input =
    if eq_ℤ input (pos 0)
    then Int64SetMap.get_len s.m key
    else (if eq_ℤ input (pos 1) then Int64SetMap.get_len s.q key else 0)

unfoldable pub delete : IntDoubleSetMap → ℤ → IntDoubleSetMap
delete s key = record { m = Map.delete key s.m; q = Map.delete key s.q }
