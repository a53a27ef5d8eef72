-- ===== src/Utils/IntIntMap.antt =====
-- utils/map.go: `IntIntMap`.
use sleepy_hot_stuff.Base.{
  ◌≡◌, Bool, true, false, Option, none, some, [], arith, if◌then◌else◌, ℤ, pos, eq_ℤ, int_eq,
  add_int,
}
use sleepy_hot_stuff.Utils.Map
use sleepy_hot_stuff.Utils.Map.{Map}

abbrev pub IntIntMap : Type 0
IntIntMap = Map ℤ ℤ

unfoldable pub init : IntIntMap
init = []

found : Option ℤ → ℤ × Bool
found none = (pos 0, false)
found (some v) = (v, true)

unfoldable pub get : IntIntMap → ℤ → ℤ × Bool
unfolding found
get m key = found (Map.get key m)

unfoldable pub delete : IntIntMap → ℤ → IntIntMap
delete m key = Map.delete key m

unfoldable pub insert : IntIntMap → ℤ → ℤ → IntIntMap
insert m key value = Map.insert key value m

-- `Set` has the body of `Insert`.
unfoldable pub set : IntIntMap → ℤ → ℤ → IntIntMap
set m key v = Map.insert key v m

unfoldable pub is_exist : IntIntMap → ℤ → ℤ → Bool
is_exist m key v = elim (Map.get key m) [ none ↦ false | some tmp ↦ eq_ℤ tmp v ]

next_count : ℤ × Bool → ℤ
next_count (v, true) = add_int v (pos 1)
next_count (v, false) = pos 1

unfoldable pub increment : IntIntMap → ℤ → ℤ × IntIntMap
unfolding next_count
increment m key = let v = next_count (get m key) in (v, insert m key v)

-- After an increment the key reads as the new count, and all others as before.
pub get-increment :
    (m : IntIntMap) (key other : ℤ)
    → get (increment m key).1 other
      ≡ (if eq_ℤ key other then ((increment m key).0, true) else get m other)
unfolding get increment insert
get-increment m key other = ground (arith, Map.get-insert key other (next_count (get m key)) m)
