-- ===== src/Utils/IntBytesMap.antt =====
-- utils/map.go: `IntBytesMap`, from sequence numbers to lists of byte slices, beside lists of `int64`
-- (`v`) and counters (`c`). A call that indexes out of range panics: its result is `none`.
use sleepy_hot_stuff.Base.{
  ℕ, zero, suc, ◌≤◌, ◌≡◌, refl, Bool, true, false, Option, none, some, List, [], ◌∷◌, ◌++◌, arith,
  ltb, if◌then◌else◌, length, length-append, get_elem?, bytes_eq, ℤ, pos, add_int, int_eq,
}
use sleepy_hot_stuff.Utils.Map
use sleepy_hot_stuff.Utils.Map.{Map}
use sleepy_hot_stuff.Utils.Values.{Slice, bytes_to_string}

pub record IntBytesMap : Type 0 where
  pub m : Map ℤ (List Slice)
  pub v : Map ℤ (List ℤ)
  pub c : Map ℤ ℤ

unfoldable pub init : IntBytesMap
init = record { m = []; v = []; c = [] }

-- A nil list of slices has no entry; it is told from an empty one by the flag alone.
found : Option (List Slice) → List Slice × Bool
found none = ([], false)
found (some v) = (v, true)

unfoldable pub get : IntBytesMap → ℤ → List Slice × Bool
unfolding found
get s key = found (Map.get key s.m)

-- `v[idx]` behind the test `len(v) < idx`; the outer `none` is the panic.
entry : Option (List Slice) → ℕ → Option Slice
entry none idx = some none
entry (some v) idx = if ltb (length v) idx then some none else get_elem? v idx

unfoldable pub get_by_index : IntBytesMap → ℤ → ℕ → Option Slice
unfolding entry
get_by_index s key idx = entry (Map.get key s.m) idx

unfoldable pub set_value : IntBytesMap → ℤ → List Slice → IntBytesMap
set_value s key value = record s { m = Map.insert key value s.m }

unfoldable pub get_len : IntBytesMap → ℤ → ℕ
get_len s key = if (get s key).1 then 0 else length (get s key).0

unfoldable pub get_and_clear : IntBytesMap → ℤ → (List Slice × Bool) × IntBytesMap
get_and_clear s key = (get s key, record s { m = Map.delete key s.m })

-- The loop of `Remove`, which appends to the list that it filters.
others : List Slice → Slice → List Slice
others [] value = []
others (x ∷ val) value =
    let rest = others val value in
    if bytes_eq (bytes_to_string x) (bytes_to_string value) then rest else x ∷ rest

unfoldable pub remove : IntBytesMap → ℤ → Slice → IntBytesMap
unfolding others
remove s key value =
    if (get s key).1
    then record s { m = Map.insert key ((get s key).0 ++ others (get s key).0 value) s.m }
    else s

unfoldable pub insert : IntBytesMap → ℤ → Slice → IntBytesMap
insert s key value = record s { m = Map.insert key ((get s key).0 ++ value ∷ []) s.m }

-- `Delete` leaves the counter of the key.
unfoldable pub delete : IntBytesMap → ℤ → IntBytesMap
delete s key = record s { m = Map.delete key s.m; v = Map.delete key s.v }

unfoldable pub insert_v : IntBytesMap → ℤ → List ℤ → IntBytesMap
insert_v s key value = record s { v = Map.insert key value s.v }

numbers : Option (List ℤ) → List ℤ × Bool
numbers none = ([], false)
numbers (some v) = (v, true)

unfoldable pub get_v : IntBytesMap → ℤ → List ℤ × Bool
unfolding numbers
get_v s key = numbers (Map.get key s.v)

unfoldable pub insert_value_and_int : IntBytesMap → ℤ → Slice → ℤ → IntBytesMap
insert_value_and_int s key value intval = record s {
  m = Map.insert key ((get s key).0 ++ value ∷ []) s.m;
  v = Map.insert key ((get_v s key).0 ++ intval ∷ []) s.v;
}

unfoldable pub get_all_value : IntBytesMap → ℤ → List ℤ × List Slice
get_all_value s key = ((get_v s key).0, (get s key).0)

count_or_zero : Option ℤ → ℤ
count_or_zero none = pos 0
count_or_zero (some n) = n

unfoldable pub get_count : IntBytesMap → ℤ → ℤ
unfolding count_or_zero
get_count s key = count_or_zero (Map.get key s.c)

replace : List Slice → ℕ → Slice → List Slice
replace [] i v = []
replace (x ∷ xs) zero v = v ∷ xs
replace (x ∷ xs) (suc i) v = x ∷ replace xs i v

is_nil : Slice → Bool
is_nil none = true
is_nil (some bs) = false

-- `InsertValue` writes into a nil slice where the key is not there, and into the place behind the last
-- where the index is the length: both panic.
unfoldable pub insert_value : IntBytesMap → ℤ → ℕ → Slice → Option IntBytesMap
unfolding replace is_nil
insert_value s key idx value = elim (Map.get key s.m) [
  | none ↦ none
  | some val ↦
      if ltb (length val) idx
      then some s
      else (if ltb idx (length val)
          then some (record s {
            m = Map.insert key (replace val idx value) s.m;
            c =
                if is_nil value
                then s.c
                else Map.insert key (add_int (get_count s key) (pos 1)) s.c;
          })
          else none)
]

-- `Remove` takes nothing away: the list of the key keeps its length at least.
pub remove_keeps :
    (s : IntBytesMap) (key : ℤ) (value : Slice)
    → length (get s key).0 ≤ length (get (remove s key value) key).0
unfolding remove get
remove_keeps s key value = ground (
  arith,
  Map.get-insert_self key ((get s key).0 ++ others (get s key).0 value) s.m,
  length-append (get s key).0 (others (get s key).0 value),
)

-- `GetLen` is 0 whatever the map holds.
pub get_len_zero : (s : IntBytesMap) (key : ℤ) → get_len s key ≡ 0
unfolding get_len get
get_len_zero s key = ground arith

get_elem?-length {ℓ} : {A : Type ℓ} (xs : List A) → get_elem? xs (length xs) ≡ none
get_elem?-length [] = refl
get_elem?-length (x ∷ xs) = get_elem?-length xs

-- At a key that is there, an index one past the end of its list passes the test of `GetByIndex` and
-- panics.
pub get_by_index_past_end :
    (s : IntBytesMap) (key : ℤ)
    → (get s key).1 ≡ true
    → get_by_index s key (length (get s key).0) ≡ none
unfolding get_by_index get
get_by_index_past_end s key h = ground (arith, get_elem?-length (get s key).0)
