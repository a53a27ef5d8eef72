-- ===== src/Utils/Nested/IntIntDoubleSetMap.antt =====
-- utils/map.go: `IntIntDoubleSetMap`.
use sleepy_hot_stuff.Base.{ℕ, none, some, [], ℤ, int_eq}
use sleepy_hot_stuff.Utils.Map
use sleepy_hot_stuff.Utils.Map.{Map}
use sleepy_hot_stuff.Utils.DoubleSetMap
use sleepy_hot_stuff.Utils.DoubleSetMap.{IntDoubleSetMap}

abbrev pub IntIntDoubleSetMap : Type 0
IntIntDoubleSetMap = Map ℤ IntDoubleSetMap

unfoldable pub init : IntIntDoubleSetMap
init = []

unfoldable pub insert : IntIntDoubleSetMap → ℤ → ℤ → ℤ → ℤ → IntIntDoubleSetMap
insert m index rindex input value = elim (Map.get index m) [
  | none ↦ Map.insert index (DoubleSetMap.insert DoubleSetMap.init rindex input value) m
  | some es ↦ Map.insert index (DoubleSetMap.insert es rindex input value) m
]

unfoldable pub get_count : IntIntDoubleSetMap → ℤ → ℤ → ℤ → ℕ
get_count m index rindex input = elim (Map.get index m) [
  | none ↦ 0
  | some es ↦ DoubleSetMap.get_count es rindex input
]

unfoldable pub delete : IntIntDoubleSetMap → ℤ → IntIntDoubleSetMap
delete m key = Map.delete key m
