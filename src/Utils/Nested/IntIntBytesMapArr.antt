-- ===== src/Utils/Nested/IntIntBytesMapArr.antt =====
-- utils/map.go: `IntIntBytesMapArr`, a map of maps.
use sleepy_hot_stuff.Base.{none, some, List, [], ℤ, int_eq}
use sleepy_hot_stuff.Utils.Map
use sleepy_hot_stuff.Utils.Map.{Map}
use sleepy_hot_stuff.Utils.Values.{Slice}
use sleepy_hot_stuff.Utils.IntBytesMap
use sleepy_hot_stuff.Utils.IntBytesMap.{IntBytesMap}

abbrev pub IntIntBytesMapArr : Type 0
IntIntBytesMapArr = Map ℤ IntBytesMap

unfoldable pub init : IntIntBytesMapArr
init = []

unfoldable pub insert : IntIntBytesMapArr → ℤ → IntBytesMap → IntIntBytesMapArr
insert s index input = Map.insert index input s

unfoldable pub insert_value : IntIntBytesMapArr → ℤ → ℤ → Slice → IntIntBytesMapArr
insert_value s index rindex msg = elim (Map.get index s) [
  | none ↦ Map.insert index (IntBytesMap.insert IntBytesMap.init rindex msg) s
  | some tmp ↦ Map.insert index (IntBytesMap.insert tmp rindex msg) s
]

unfoldable pub get_and_clear : IntIntBytesMapArr → ℤ → ℤ → List Slice × IntIntBytesMapArr
get_and_clear s index rindex = elim (Map.get index s) [
  | none ↦ ([], s)
  | some tmp ↦
      let ((msgs, found), tmp') = IntBytesMap.get_and_clear tmp rindex in
      (msgs, Map.insert index tmp' s)
]

unfoldable pub insert_value_and_int : IntIntBytesMapArr → ℤ → ℤ → Slice → ℤ → IntIntBytesMapArr
insert_value_and_int s index rindex value intval = elim (Map.get index s) [
  | none ↦
      Map.insert index (IntBytesMap.insert_value_and_int IntBytesMap.init rindex value intval) s
  | some tmp ↦ Map.insert index (IntBytesMap.insert_value_and_int tmp rindex value intval) s
]

unfoldable pub get_all_value : IntIntBytesMapArr → ℤ → ℤ → List ℤ × List Slice
get_all_value s index rindex = elim (Map.get index s) [
  | none ↦ ([], [])
  | some tmp ↦ IntBytesMap.get_all_value tmp rindex
]
