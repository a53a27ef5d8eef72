-- ===== src/Utils/Nested/IntIntInt64SetMap.antt =====
-- utils/map.go: `IntIntInt64SetMap`.
use sleepy_hot_stuff.Base.{ℕ, Bool, false, none, some, List, [], ℤ, int_eq}
use sleepy_hot_stuff.Utils.Map
use sleepy_hot_stuff.Utils.Map.{Map}
use sleepy_hot_stuff.Utils.Int64SetMap
use sleepy_hot_stuff.Utils.Int64SetMap.{IntInt64SetMap}

abbrev pub IntIntInt64SetMap : Type 0
IntIntInt64SetMap = Map ℤ IntInt64SetMap

unfoldable pub init : IntIntInt64SetMap
init = []

unfoldable pub insert : IntIntInt64SetMap → ℤ → ℤ → ℤ → IntIntInt64SetMap
insert m index rindex value = elim (Map.get index m) [
  | none ↦ Map.insert index (Int64SetMap.insert [] rindex value) m
  | some es ↦ Map.insert index (Int64SetMap.insert es rindex value) m
]

unfoldable pub contains : IntIntInt64SetMap → ℤ → ℤ → ℤ → Bool
contains m index rindex value = elim (Map.get index m) [
  | none ↦ false
  | some es ↦ Int64SetMap.contains es rindex value
]

unfoldable pub get : IntIntInt64SetMap → ℤ → ℤ → List ℤ
get m index rindex = elim (Map.get index m) [ none ↦ [] | some es ↦ Int64SetMap.get es rindex ]

unfoldable pub delete : IntIntInt64SetMap → ℤ → IntIntInt64SetMap
delete m key = Map.delete key m

unfoldable pub get_len : IntIntInt64SetMap → ℤ → ℤ → ℕ
get_len m index rindex = elim (Map.get index m) [
  | none ↦ 0
  | some es ↦ Int64SetMap.get_len es rindex
]
