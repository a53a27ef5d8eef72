-- ===== src/Utils/Int64SetMap.antt =====
-- utils/map.go: `IntInt64SetMap` and `IntInt64SetMap_N`, from numbers to sets of `int64`. Both have the
-- same bodies.
use sleepy_hot_stuff.Base.{
  ℕ, Bool, true, false, Option, none, some, List, [], if◌then◌else◌, ℤ, int_eq,
}
use sleepy_hot_stuff.Utils.Map
use sleepy_hot_stuff.Utils.Map.{Map}
use sleepy_hot_stuff.Utils.Sets
use sleepy_hot_stuff.Utils.Sets.{Set}

abbrev pub IntInt64SetMap : Type 0
IntInt64SetMap = Map ℤ Set

unfoldable pub or_new_set : Set → Set
or_new_set es = if Sets.is_empty es then Sets.new_set else es

unfoldable pub is_there {ℓ} : {V : Type ℓ} → Option V → Bool
is_there none = false
is_there (some v) = true

unfoldable pub stored : Option Set → Set
stored none = Sets.new_set
stored (some es) = es

unfoldable pub insert : IntInt64SetMap → ℤ → ℤ → IntInt64SetMap
insert m key value =
    let es = stored (Map.get key m) in
    let m1 =
      if is_there (Map.get key m) then m else Map.insert key (Sets.add_item Sets.new_set value) m in
    Map.insert key (Sets.add_item (or_new_set es) value) m1

unfoldable pub contains : IntInt64SetMap → ℤ → ℤ → Bool
contains m key value = elim (Map.get key m) [ none ↦ false | some es ↦ Sets.has_item es value ]

unfoldable pub get : IntInt64SetMap → ℤ → List ℤ
get m key = elim (Map.get key m) [ none ↦ [] | some es ↦ Sets.set_list es ]

unfoldable pub delete : IntInt64SetMap → ℤ → IntInt64SetMap
delete m key = Map.delete key m

unfoldable pub get_len : IntInt64SetMap → ℤ → ℕ
get_len m key = elim (Map.get key m) [ none ↦ 0 | some es ↦ Sets.len es ]
