-- ===== src/Utils/IntSetMap.antt =====
-- utils/map.go: `IntSetMap` and `IntSetMap_N`, from numbers to counting sets.
use sleepy_hot_stuff.Base.{
  ℕ, ◌≡◌, refl, Option-cases, inl, inr, Bool, true, false, Option, none, some, List, [], ◌∷◌, arith,
  if◌then◌else◌, length, ◌&&◌, ◌||◌, ◌==◌, ℤ, pos, eq_ℤ, eq_ℤ_iff, int_eq,
}
use sleepy_hot_stuff.Utils.Map
use sleepy_hot_stuff.Utils.Map.{Map}
use sleepy_hot_stuff.Utils.IntSet
use sleepy_hot_stuff.Utils.IntSet.{IntSet}

abbrev pub IntSetMap : Type 0
IntSetMap = Map ℤ IntSet

-- A missing key reads as the zero value, whose sets are nil and have no items.
unfoldable pub set_at : Option IntSet → IntSet
set_at none = IntSet.new_int_set
set_at (some es) = es

unfoldable pub is_there {ℓ} : {V : Type ℓ} → Option V → Bool
is_there none = false
is_there (some v) = true

unfoldable pub or_new : IntSet → IntSet
or_new es = if IntSet.len es == 0 then IntSet.new_int_set else es

-- `Insert` of `IntSetMap` goes on after it has stored the set of a new key, and stores another one.
unfoldable pub insert : IntSetMap → ℤ → ℤ → IntSetMap
insert m key value =
    let es = set_at (Map.get key m) in
    let m1 =
      if is_there (Map.get key m)
      then m
      else Map.insert key (IntSet.add_item IntSet.new_int_set value) m in
    Map.insert key (IntSet.add_item (or_new es) value) m1

-- `Insert` of `IntSetMap_N`.
unfoldable pub insert_unlocked : IntSetMap → ℤ → ℤ → IntSetMap
insert_unlocked m key value = elim (Map.get key m) [
  | none ↦ Map.insert key (IntSet.add_item IntSet.new_int_set value) m
  | some es ↦ Map.insert key (IntSet.add_item (or_new es) value) m
]

unfoldable pub contains : IntSetMap → ℤ → ℤ → Bool
contains m key value = elim (Map.get key m) [ none ↦ false | some es ↦ IntSet.is_true es value ]

unfoldable pub get : IntSetMap → ℤ → List ℤ
get m key = elim (Map.get key m) [ none ↦ [] | some es ↦ IntSet.int_set_list es ]

unfoldable pub delete : IntSetMap → ℤ → IntSetMap
delete m key = Map.delete key m

unfoldable pub get_len : IntSetMap → ℤ → ℕ
get_len m key = elim (Map.get key m) [ none ↦ 0 | some es ↦ IntSet.len es ]

unfoldable pub get_count : IntSetMap → ℤ → ℤ → ℤ
get_count m key value = elim (Map.get key m) [ none ↦ pos 0 | some es ↦ IntSet.get_count es value ]

or_new_new :
    (key value : ℤ) (m : IntSetMap)
    → Map.insert key
        (IntSet.add_item (or_new IntSet.new_int_set) value)
        (Map.insert key (IntSet.add_item IntSet.new_int_set value) m)
      ≡ Map.insert key (IntSet.add_item IntSet.new_int_set value) m
unfolding or_new IntSet.len IntSet.int_set_list IntSet.new_int_set
or_new_new key value m =
    Map.insert-insert key (IntSet.add_item IntSet.new_int_set value)
      (IntSet.add_item IntSet.new_int_set value) m

-- Both variants of `Insert` give the same map, though the one goes on where the other returns.
pub insert-eq-insert_unlocked :
    (m : IntSetMap) (key value : ℤ) → insert m key value ≡ insert_unlocked m key value
unfolding insert is_there set_at insert_unlocked Map.insert
insert-eq-insert_unlocked m key value = elim (Option-cases (Map.get key m)) [
  | inl missing ↦ rw (missing, insert_unlocked) (or_new_new key value m)
  | inr (es, found) ↦ rw (found, insert_unlocked) refl
]

contains-set :
    (es : IntSet) (msg value : ℤ)
    → IntSet.is_true (IntSet.add_item es msg) value ≡ (eq_ℤ msg value || IntSet.is_true es value)
unfolding IntSet.is_true IntSet.add_item
contains-set es msg value = ground (arith, Map.get-insert msg value true es.m)

no_flags : (m : Map ℤ Bool) (value : ℤ) → (length (Map.keys m) == 0) ≡ true → Map.get value m ≡ none
unfolding Map.get
no_flags [] value h = refl
no_flags (x ∷ m) value h = ground arith

is_true-or_new :
    (es : IntSet) (value : ℤ) → IntSet.is_true (or_new es) value ≡ IntSet.is_true es value
unfolding or_new IntSet.len IntSet.int_set_list IntSet.is_true IntSet.new_int_set Map.get
is_true-or_new es value = ground (arith, no_flags es.m value)

no_items : (value : ℤ) → IntSet.is_true IntSet.new_int_set value ≡ false
unfolding IntSet.is_true IntSet.new_int_set Map.get
no_items value = refl

pub contains-insert_unlocked :
    (m : IntSetMap) (key msg other value : ℤ)
    → contains (insert_unlocked m key msg) other value
      ≡ (if eq_ℤ key other && eq_ℤ msg value then true else contains m other value)
unfolding contains insert_unlocked
contains-insert_unlocked m key msg other value = elim (Option-cases (Map.get key m)) [
  | inl missing ↦ ground (
    arith,
    Map.get-insert key other (IntSet.add_item IntSet.new_int_set msg) m,
    contains-set IntSet.new_int_set msg value,
    no_items value,
    eq_ℤ_iff key other,
  )
  | inr (es, there) ↦ ground (
    arith,
    Map.get-insert key other (IntSet.add_item (or_new es) msg) m,
    contains-set (or_new es) msg value,
    is_true-or_new es value,
    eq_ℤ_iff key other,
  )
]
