-- ===== src/Utils/Nested/IntBytesMapArr.antt =====
-- utils/map.go: `IntBytesMapArr`, a slice of maps. An index past the end is passed over, and a
-- negative one panics: its result is `none`.
use sleepy_hot_stuff.Base.{
  ℕ, zero, suc, Option, none, some, List, [], ◌∷◌, ◌++◌, get_elem?, ℤ, pos, negsuc, int_eq,
}
use sleepy_hot_stuff.Utils.Values.{Slice}
use sleepy_hot_stuff.Utils.IntBytesMap
use sleepy_hot_stuff.Utils.IntBytesMap.{IntBytesMap}

abbrev pub IntBytesMapArr : Type 0
IntBytesMapArr = List IntBytesMap

-- `Init` appends `n` empty maps.
unfoldable pub init : IntBytesMapArr → ℕ → IntBytesMapArr
init msg zero = msg
init msg (suc n) = init (msg ++ IntBytesMap.init ∷ []) n

abbrev pub set {ℓ} : {A : Type ℓ} → List A → ℕ → A → List A
set [] i v = []
set (x ∷ xs) zero v = v ∷ xs
set (x ∷ xs) (suc i) v = x ∷ set xs i v

unfoldable pub insert : IntBytesMapArr → ℤ → IntBytesMap → Option IntBytesMapArr
insert msg (pos index) input = some (set msg index input)
insert msg (negsuc index) input = none

insert_at : IntBytesMapArr → ℕ → ℤ → Slice → Option IntBytesMap → IntBytesMapArr
insert_at msg index rindex value none = msg
insert_at msg index rindex value (some tmp) = set msg index (IntBytesMap.insert tmp rindex value)

unfoldable pub insert_value : IntBytesMapArr → ℤ → ℤ → Slice → Option IntBytesMapArr
unfolding insert_at
insert_value msg (pos index) rindex value =
    some (insert_at msg index rindex value (get_elem? msg index))
insert_value msg (negsuc index) rindex value = none

clear_at : IntBytesMapArr → ℕ → ℤ → Option IntBytesMap → List Slice × IntBytesMapArr
clear_at msg index rindex none = ([], msg)
clear_at msg index rindex (some tmp) =
    let ((msgs, found), tmp') = IntBytesMap.get_and_clear tmp rindex in (msgs, set msg index tmp')

unfoldable pub get_and_clear : IntBytesMapArr → ℤ → ℤ → Option (List Slice × IntBytesMapArr)
unfolding clear_at
get_and_clear msg (pos index) rindex = some (clear_at msg index rindex (get_elem? msg index))
get_and_clear msg (negsuc index) rindex = none
