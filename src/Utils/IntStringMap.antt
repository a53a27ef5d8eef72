-- ===== src/Utils/IntStringMap.antt =====
-- utils/map.go: `IntStringMap`.
use sleepy_hot_stuff.Base.{
  ◌≡◌, Bool, true, false, Option, none, some, [], arith, if◌then◌else◌, Bytes, ℤ, eq_ℤ, int_eq,
}
use sleepy_hot_stuff.Utils.Map
use sleepy_hot_stuff.Utils.Map.{Map}

abbrev pub IntStringMap : Type 0
IntStringMap = Map ℤ Bytes

unfoldable pub init : IntStringMap
init = []

found : Option Bytes → Bytes × Bool
found none = ([], false)
found (some v) = (v, true)

unfoldable pub get : IntStringMap → ℤ → Bytes × Bool
unfolding found
get m key = found (Map.get key m)

unfoldable pub insert : IntStringMap → ℤ → Bytes → IntStringMap
insert m key value = Map.insert key value m

unfoldable pub delete : IntStringMap → ℤ → IntStringMap
delete m key = if (get m key).1 then Map.delete key m else m

pub get-insert :
    (m : IntStringMap) (key other : ℤ) (value : Bytes)
    → get (insert m key value) other ≡ (if eq_ℤ key other then (value, true) else get m other)
unfolding get insert
get-insert m key other value = ground (arith, Map.get-insert key other value m)

pub get-delete :
    (m : IntStringMap) (key other : ℤ)
    → get (delete m key) other ≡ (if eq_ℤ key other then ([], false) else get m other)
unfolding get delete
get-delete m key other = ground (arith, Map.get-delete key other m)
