-- ===== src/Utils/Nested/IntIntSetMap.antt =====
-- utils/map.go: `IntIntSetMap`.
use sleepy_hot_stuff.Base.{
  ℕ, ◌≡◌, refl, Option-cases, inl, inr, Bool, true, false, ◌&&◌, none, some, List, [], arith,
  if◌then◌else◌, ℤ, pos, eq_ℤ, eq_ℤ_iff, int_eq,
}
use sleepy_hot_stuff.Utils.Map
use sleepy_hot_stuff.Utils.Map.{Map}
use sleepy_hot_stuff.Utils.IntSetMap
use sleepy_hot_stuff.Utils.IntSetMap.{IntSetMap}

abbrev pub IntIntSetMap : Type 0
IntIntSetMap = Map ℤ IntSetMap

unfoldable pub init : IntIntSetMap
init = []

unfoldable pub insert : IntIntSetMap → ℤ → IntSetMap → IntIntSetMap
insert m index input = Map.insert index input m

unfoldable pub insert_value : IntIntSetMap → ℤ → ℤ → ℤ → IntIntSetMap
insert_value m index rindex msg = elim (Map.get index m) [
  | none ↦ Map.insert index (IntSetMap.insert_unlocked [] rindex msg) m
  | some tmp ↦ Map.insert index (IntSetMap.insert_unlocked tmp rindex msg) m
]

unfoldable pub get_value : IntIntSetMap → ℤ → ℤ → List ℤ
get_value m index rindex = elim (Map.get index m) [ none ↦ [] | some es ↦ IntSetMap.get es rindex ]

unfoldable pub contains : IntIntSetMap → ℤ → ℤ → ℤ → Bool
contains m index rindex value = elim (Map.get index m) [
  | none ↦ false
  | some es ↦ IntSetMap.contains es rindex value
]

unfoldable pub get_len : IntIntSetMap → ℤ → ℤ → ℕ
get_len m index rindex = elim (Map.get index m) [ none ↦ 0 | some es ↦ IntSetMap.get_len es rindex ]

unfoldable pub get_count : IntIntSetMap → ℤ → ℤ → ℤ → ℤ
get_count m index rindex value = elim (Map.get index m) [
  | none ↦ pos 0
  | some es ↦ IntSetMap.get_count es rindex value
]

unfoldable pub delete : IntIntSetMap → ℤ → IntIntSetMap
delete m key = elim (Map.get key m) [ none ↦ m | some es ↦ Map.delete key m ]

no_sets : (j value : ℤ) → IntSetMap.contains [] j value ≡ false
unfolding IntSetMap.contains Map.get
no_sets j value = refl

-- A value is in the set of two numbers after an insertion exactly if it was inserted there just now, or
-- was in it before.
pub contains-insert_value :
    (m : IntIntSetMap) (index rindex msg i j value : ℤ)
    → contains (insert_value m index rindex msg) i j value
      ≡ (if eq_ℤ index i && eq_ℤ rindex j && eq_ℤ msg value then true else contains m i j value)
unfolding contains insert_value
contains-insert_value m index rindex msg i j value = elim (Option-cases (Map.get index m)) [
  | inl missing ↦ ground (
    arith,
    Map.get-insert index i (IntSetMap.insert_unlocked [] rindex msg) m,
    IntSetMap.contains-insert_unlocked [] rindex msg j value,
    no_sets j value,
    eq_ℤ_iff index i,
  )
  | inr (tmp, there) ↦ ground (
    arith,
    Map.get-insert index i (IntSetMap.insert_unlocked tmp rindex msg) m,
    IntSetMap.contains-insert_unlocked tmp rindex msg j value,
    eq_ℤ_iff index i,
  )
]
