-- ===== src/Utils/Nested/IntIntMapArr.antt =====
-- utils/map.go: `IntIntMapArr`. A value that is not there reads as -1.
use sleepy_hot_stuff.Base.{Bool, true, false, none, some, [], ℤ, negsuc, int_eq}
use sleepy_hot_stuff.Utils.Map
use sleepy_hot_stuff.Utils.Map.{Map}
use sleepy_hot_stuff.Utils.IntIntMap
use sleepy_hot_stuff.Utils.IntIntMap.{IntIntMap}

abbrev pub IntIntMapArr : Type 0
IntIntMapArr = Map ℤ IntIntMap

unfoldable pub init : IntIntMapArr
init = []

unfoldable pub insert : IntIntMapArr → ℤ → IntIntMap → IntIntMapArr
insert s index input = Map.insert index input s

unfoldable pub insert_value : IntIntMapArr → ℤ → ℤ → ℤ → IntIntMapArr
insert_value s index rindex msg = elim (Map.get index s) [
  | none ↦ Map.insert index (IntIntMap.insert IntIntMap.init rindex msg) s
  | some tmp ↦ Map.insert index (IntIntMap.insert tmp rindex msg) s
]

value_or : ℤ × Bool → ℤ
value_or (v, true) = v
value_or (v, false) = negsuc 0

unfoldable pub get_value : IntIntMapArr → ℤ → ℤ → ℤ
unfolding value_or
get_value s index rindex = elim (Map.get index s) [
  | none ↦ negsuc 0
  | some tmp ↦ value_or (IntIntMap.get tmp rindex)
]

unfoldable pub contains : IntIntMapArr → ℤ → ℤ → ℤ → Bool
contains s key key1 value = elim (Map.get key s) [
  | none ↦ false
  | some es ↦ IntIntMap.is_exist es key1 value
]
