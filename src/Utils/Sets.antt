-- ===== src/Utils/Sets.antt =====
-- utils/set.go: the sets of `int64`. The variants with a lock and
-- those without (`Set`, `Set_N`) have the same bodies. A copy of a Go set shares its map; the code
-- stores each set back under the key that it was read from, so sets are values here.
use sleepy_hot_stuff.Base.{
  ℕ, suc, ◌≡◌, Bool, true, false, Option, none, some, List, [], ◌∷◌, ◌++◌, arith, ◌==◌,
  if◌then◌else◌, length, length-append, ℤ, eq_ℤ, int_eq,
}
use sleepy_hot_stuff.Utils.Map.{
  Map, contains, Distinct, get, insert, delete, keys, get-insert, keys-insert, insert-Distinct,
  contains-keys,
}

pub record Set : Type 0 where
  pub m : Map ℤ Bool

unfoldable pub new_set : Set
new_set = record { m = [] }

unfoldable pub add_item : Set → ℤ → Set
add_item s item = record s { m = insert item true s.m }

unfoldable pub remove_item : Set → ℤ → Set
remove_item s item = record s { m = delete item s.m }

is_present {ℓ} : {V : Type ℓ} → Option V → Bool
is_present none = false
is_present (some v) = true

unfoldable pub has_item : Set → ℤ → Bool
unfolding is_present
has_item s item = is_present (get item s.m)

unfoldable pub set_list : Set → List ℤ
set_list s = keys s.m

unfoldable pub len : Set → ℕ
len s = length (set_list s)

unfoldable pub is_empty : Set → Bool
is_empty s = len s == 0

-- `has_item` sees exactly the items of `set_list`.
pub has_item-set_list : (s : Set) (item : ℤ) → has_item s item ≡ contains item (set_list s)
unfolding has_item set_list
has_item-set_list s item = ground (arith, contains-keys item s.m)

pub has_item-add_item :
    (s : Set) (item other : ℤ)
    → has_item (add_item s item) other ≡ (if eq_ℤ item other then true else has_item s other)
unfolding has_item add_item
has_item-add_item s item other = ground (arith, get-insert item other true s.m)

pub set_list-add_item :
    (s : Set) (item : ℤ)
    → set_list (add_item s item) ≡ (if has_item s item then set_list s else set_list s ++ item ∷ [])
unfolding set_list add_item
set_list-add_item s item = rw (has_item-set_list s item) (keys-insert item true s.m)

-- Adding an item makes the set one longer, if the item is not in it, and no longer, if it is.
pub len-add_item :
    (s : Set) (item : ℤ) → len (add_item s item) ≡ (if has_item s item then len s else suc (len s))
unfolding len
len-add_item s item =
    ground (arith, set_list-add_item s item, length-append (set_list s) (item ∷ []))

pub add_item-Distinct :
    (s : Set) (item : ℤ) → Distinct (set_list s) → Distinct (set_list (add_item s item))
unfolding set_list add_item
add_item-Distinct s item d = insert-Distinct item true s.m d
