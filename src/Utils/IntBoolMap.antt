-- ===== src/Utils/IntBoolMap.antt =====
-- utils/map.go: `IntBoolMap`, flags with a set of the keys beside them.
use sleepy_hot_stuff.Base.{
  ℕ, ◌≡◌, refl, ap, sym, ◌∙◌, if_rule, Bool, true, false, Option, none, some, List, [], ◌∷◌, arith,
  if◌then◌else◌, length, ℤ, eq_ℤ, int_eq,
}
use sleepy_hot_stuff.Utils.Map
use sleepy_hot_stuff.Utils.Map.{Map, keys, contains}
use sleepy_hot_stuff.Utils.IntSet
use sleepy_hot_stuff.Utils.IntSet.{IntSet}

pub record IntBoolMap : Type 0 where
  pub m : Map ℤ Bool
  pub count : IntSet

unfoldable pub init : IntBoolMap
init = record { m = []; count = IntSet.new_int_set }

found : Option Bool → Bool × Bool
found none = (false, false)
found (some v) = (v, true)

unfoldable pub get : IntBoolMap → ℤ → Bool × Bool
unfolding found
get s key = found (Map.get key s.m)

unfoldable pub get_status : IntBoolMap → ℤ → Bool
get_status s key = let (v, exist) = get s key in if exist then v else false

-- `GetAll` copies the map.
unfoldable pub get_all : IntBoolMap → Map ℤ Bool
get_all s = s.m

unfoldable pub insert : IntBoolMap → ℤ → Bool → IntBoolMap
insert s key value = record { m = Map.insert key value s.m; count = IntSet.add_item s.count key }

unfoldable pub get_count : IntBoolMap → ℕ
get_count s = IntSet.len s.count

unfoldable pub get_len : IntBoolMap → ℕ
get_len s = length s.m

unfoldable pub delete : IntBoolMap → ℤ → IntBoolMap
delete s key =
    if (get s key).1
    then record { m = Map.delete key s.m; count = IntSet.remove_item s.count key }
    else s

pub get-insert :
    (s : IntBoolMap) (key other : ℤ) (value : Bool)
    → get (insert s key value) other ≡ (if eq_ℤ key other then (value, true) else get s other)
unfolding get insert
get-insert s key other value = ground (arith, Map.get-insert key other value s.m)

pub data Change : Type 0 where
  sets : ℤ → Bool → Change
  drops : ℤ → Change

-- The map after a history of changes, the last of which comes first.
unfoldable pub changed : List Change → IntBoolMap
changed [] = init
changed (sets key value ∷ changes) = insert (changed changes) key value
changed (drops key ∷ changes) = delete (changed changes) key

abbrev SameKeys : IntBoolMap → Type 0
SameKeys s = keys s.m ≡ keys s.count.m

insert-SameKeys :
    (s : IntBoolMap) (key : ℤ) (value : Bool) → SameKeys s → SameKeys (insert s key value)
unfolding insert IntSet.add_item
insert-SameKeys s key value h =
    rw (Map.keys-insert key value s.m, Map.keys-insert key true s.count.m, h) refl

delete-SameKeys : (s : IntBoolMap) (key : ℤ) → SameKeys s → SameKeys (delete s key)
unfolding delete IntSet.remove_item
delete-SameKeys s key h =
    if_rule (λ (x : IntBoolMap). keys x.m ≡ keys x.count.m) (get s key).1
      (λ _. rw (Map.keys-delete key s.m, Map.keys-delete key s.count.m, h) refl) (λ _. h)

changed-SameKeys : (changes : List Change) → SameKeys (changed changes)
unfolding changed
changed-SameKeys [] = unfold init IntSet.new_int_set in refl
changed-SameKeys (sets key value ∷ changes) =
    insert-SameKeys (changed changes) key value (changed-SameKeys changes)
changed-SameKeys (drops key ∷ changes) =
    delete-SameKeys (changed changes) key (changed-SameKeys changes)

-- Whatever was set and dropped, the set beside the map has as many items as the map has keys, so that
-- `GetCount` and `GetLen` agree.
pub get_count-get_len :
    (changes : List Change) → get_count (changed changes) ≡ get_len (changed changes)
unfolding get_count get_len IntSet.len IntSet.int_set_list
get_count-get_len changes =
    ap length (sym (changed-SameKeys changes)) ∙ Map.length-keys (changed changes).m
