-- ===== src/Utils/IntByteMap.antt =====
-- utils/map.go: `IntByteMap`, from heights or sequence numbers to byte slices.
use sleepy_hot_stuff.Base.{
  ℕ, ◌≡◌, Bool, true, false, Option, none, some, [], arith, if◌then◌else◌, length, ℤ, eq_ℤ, int_eq,
}
use sleepy_hot_stuff.Utils.Map
use sleepy_hot_stuff.Utils.Map.{Map}
use sleepy_hot_stuff.Utils.Values.{Slice}

abbrev pub IntByteMap : Type 0
IntByteMap = Map ℤ Slice

unfoldable pub init : IntByteMap
init = []

-- A missing key reads as the empty slice, which is not nil.
found : Option Slice → Slice × Bool
found none = (some [], false)
found (some v) = (v, true)

unfoldable pub get : IntByteMap → ℤ → Slice × Bool
unfolding found
get m key = found (Map.get key m)

unfoldable pub insert : IntByteMap → ℤ → Slice → IntByteMap
insert m key value = Map.insert key value m

unfoldable pub get_len : IntByteMap → ℕ
get_len m = length m

unfoldable pub delete : IntByteMap → ℤ → IntByteMap
delete m key = if (get m key).1 then Map.delete key m else m

-- `InsertAll` replaces the map.
unfoldable pub insert_all : IntByteMap → IntByteMap → IntByteMap
insert_all m input = input

pub get-insert :
    (m : IntByteMap) (key other : ℤ) (value : Slice)
    → get (insert m key value) other ≡ (if eq_ℤ key other then (value, true) else get m other)
unfolding get insert
get-insert m key other value = ground (arith, Map.get-insert key other value m)

-- After a deletion the key reads as missing, and all others as before.
pub get-delete :
    (m : IntByteMap) (key other : ℤ)
    → get (delete m key) other ≡ (if eq_ℤ key other then (some [], false) else get m other)
unfolding get delete
get-delete m key other = ground (arith, Map.get-delete key other m)
