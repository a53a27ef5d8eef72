-- ===== src/Utils/ByteSet.antt =====
-- utils/set.go: `ByteSet`, which keeps the texts of its items.
use sleepy_hot_stuff.Base.{
  ℕ, Bool, true, false, Option, none, some, List, [], ◌∷◌, length, Bytes, string_eq, ◌==◌,
}
use sleepy_hot_stuff.Utils.Map
use sleepy_hot_stuff.Utils.Map.{Map, keys}
use sleepy_hot_stuff.Utils.Values.{Slice, bytes_to_string}

pub record ByteSet : Type 0 where
  pub m : Map Bytes Bool

unfoldable pub new_byte_set : ByteSet
new_byte_set = record { m = [] }

unfoldable pub add : ByteSet → Slice → ByteSet
add s item = record s { m = Map.insert (bytes_to_string item) true s.m }

unfoldable pub remove : ByteSet → Slice → ByteSet
remove s item = record s { m = Map.delete (bytes_to_string item) s.m }

present : Option Bool → Bool
present none = false
present (some v) = true

unfoldable pub has : ByteSet → Slice → Bool
unfolding present
has s item = present (Map.get (bytes_to_string item) s.m)

slices : List Bytes → List Slice
slices [] = []
slices (x ∷ xs) = some x ∷ slices xs

unfoldable pub list : ByteSet → List Slice
unfolding slices
list s = slices (keys s.m)

unfoldable pub size : ByteSet → ℕ
size s = length (list s)

unfoldable pub is_empty : ByteSet → Bool
is_empty s = size s == 0
