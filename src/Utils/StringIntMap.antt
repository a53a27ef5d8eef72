-- ===== src/Utils/StringIntMap.antt =====
-- utils/map.go: `StringIntMap`, from hash strings to numbers.
use sleepy_hot_stuff.Base.{
  ◌≡◌, Bool, true, false, Option, none, some, [], arith, if◌then◌else◌, Bytes, string_eq, bytes_eq,
  bytes_eq_iff, ℤ, pos,
}
use sleepy_hot_stuff.Utils.Map
use sleepy_hot_stuff.Utils.Map.{Map}

abbrev pub StringIntMap : Type 0
StringIntMap = Map Bytes ℤ

unfoldable pub init : StringIntMap
init = []

found : Option ℤ → ℤ × Bool
found none = (pos 0, false)
found (some v) = (v, true)

unfoldable pub get : StringIntMap → Bytes → ℤ × Bool
unfolding found
get m key = found (Map.get key m)

unfoldable pub insert : StringIntMap → Bytes → ℤ → StringIntMap
insert m key value = Map.insert key value m

unfoldable pub delete : StringIntMap → Bytes → StringIntMap
delete m key = if (get m key).1 then Map.delete key m else m

pub get-insert :
    (m : StringIntMap) (key other : Bytes) (value : ℤ)
    → get (insert m key value) other ≡ (if bytes_eq key other then (value, true) else get m other)
unfolding get insert
get-insert m key other value = ground (arith, Map.get-insert key other value m)

pub get-delete :
    (m : StringIntMap) (key other : Bytes)
    → get (delete m key) other ≡ (if bytes_eq key other then (pos 0, false) else get m other)
unfolding get delete
get-delete m key other = ground (arith, Map.get-delete key other m, bytes_eq_iff key other)
