-- ===== src/Utils/StringBoolMap.antt =====
-- utils/map.go: `StringBoolMap`, from strings to flags.
use sleepy_hot_stuff.Base.{
  ◌≡◌, Bool, true, false, Option, none, some, List, [], ◌∷◌, arith, if◌then◌else◌, Bytes, string_eq,
  bytes_eq, bytes_eq_iff,
}
use sleepy_hot_stuff.Utils.Map
use sleepy_hot_stuff.Utils.Map.{Map, keys}

abbrev pub StringBoolMap : Type 0
StringBoolMap = Map Bytes Bool

unfoldable pub init : StringBoolMap
init = []

found : Option Bool → Bool × Bool
found none = (false, false)
found (some v) = (v, true)

unfoldable pub get : StringBoolMap → Bytes → Bool × Bool
unfolding found
get m key = found (Map.get key m)

unfoldable pub insert : StringBoolMap → Bytes → Bool → StringBoolMap
insert m key value = Map.insert key value m

unfoldable pub delete : StringBoolMap → Bytes → StringBoolMap
delete m key = if (get m key).1 then Map.delete key m else m

-- `StringBoolMapList`, in some order.
unfoldable pub string_bool_map_list : StringBoolMap → List Bytes
string_bool_map_list m = keys m

unfoldable pub set_value : StringBoolMap → List Bytes → StringBoolMap
set_value m [] = m
set_value m (v ∷ tag_set) = set_value (insert m v true) tag_set

-- A missing key reads as the zero value.
unfoldable pub is_true : StringBoolMap → Bytes → Bool
is_true m item = (get m item).0

unfoldable pub get_all_and_init : StringBoolMap → StringBoolMap × StringBoolMap
get_all_and_init m = (m, init)

pub get-insert :
    (m : StringBoolMap) (key other : Bytes) (value : Bool)
    → get (insert m key value) other ≡ (if bytes_eq key other then (value, true) else get m other)
unfolding get insert
get-insert m key other value = ground (arith, Map.get-insert key other value m)

pub get-delete :
    (m : StringBoolMap) (key other : Bytes)
    → get (delete m key) other ≡ (if bytes_eq key other then (false, false) else get m other)
unfolding get delete
get-delete m key other = ground (arith, Map.get-delete key other m, bytes_eq_iff key other)
