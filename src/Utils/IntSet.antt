-- ===== src/Utils/IntSet.antt =====
-- utils/set.go: `IntSet` and `IntSet_N`, sets of `int` that count how often each item was added.
-- The variants with and without a lock have the same bodies.
use sleepy_hot_stuff.Base.{
  ℕ, Bool, true, false, Option, none, some, List, [], ◌∷◌, length, string_eq, ℤ, pos, int_eq,
  add_int,
}
use sleepy_hot_stuff.Utils.Map
use sleepy_hot_stuff.Utils.Map.{Map, keys}

pub record IntSet : Type 0 where
  pub m : Map ℤ Bool
  pub count : Map ℤ ℤ

unfoldable pub new_int_set : IntSet
new_int_set = record { m = []; count = [] }

next_count : Option ℤ → ℤ
next_count none = pos 1
next_count (some v) = add_int v (pos 1)

unfoldable pub add_item : IntSet → ℤ → IntSet
unfolding next_count
add_item s item = record {
  m = Map.insert item true s.m;
  count = Map.insert item (next_count (Map.get item s.count)) s.count;
}

unfoldable pub remove_item : IntSet → ℤ → IntSet
remove_item s item = record { m = Map.delete item s.m; count = Map.delete item s.count }

flag : Option Bool → Bool
flag none = false
flag (some b) = b

unfoldable pub is_true : IntSet → ℤ → Bool
unfolding flag
is_true s item = flag (Map.get item s.m)

count_or_zero : Option ℤ → ℤ
count_or_zero none = pos 0
count_or_zero (some v) = v

unfoldable pub get_count : IntSet → ℤ → ℤ
unfolding count_or_zero
get_count s item = count_or_zero (Map.get item s.count)

unfoldable pub int_set_list : IntSet → List ℤ
int_set_list s = keys s.m

unfoldable pub len : IntSet → ℕ
len s = length (int_set_list s)

unfoldable pub set_value : IntSet → List ℤ → IntSet
set_value s [] = s
set_value s (v ∷ seq_set) = set_value (add_item s v) seq_set
