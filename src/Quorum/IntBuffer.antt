-- ===== src/Quorum/IntBuffer.antt =====
-- quorum/def.go: `INTBUFFER`, from views to the replicas that sent a message of the view, and to those
-- messages.
use sleepy_hot_stuff.Base.{
  ℕ, Bool, true, Option, none, some, List, [], ◌∷◌, ◌++◌, ltb, if◌then◌else◌, ℤ, int_eq,
}
use sleepy_hot_stuff.Utils.Map
use sleepy_hot_stuff.Utils.Map.{Map, Distinct}
use sleepy_hot_stuff.Utils.Sets.{Set, new_set, add_item, len}
use sleepy_hot_stuff.Message.{MessageWithSignature}

pub record IntBuffer : Type 0 where
  pub int_buffer : Map ℤ Set
  pub v : Map ℤ (List MessageWithSignature)

unfoldable pub init : IntBuffer
init = record { int_buffer = []; v = [] }

messages : Option (List MessageWithSignature) → List MessageWithSignature
messages none = []
messages (some ms) = ms

-- `GetV`: nil for a missing key.
unfoldable pub get_v : IntBuffer → ℤ → List MessageWithSignature
unfolding messages
get_v b input = messages (Map.get input b.v)

abbrev old_set : Option Set → Set
old_set none = new_set
old_set (some s) = s

abbrev is_new : Option Set → Set → Bool
is_new none s = true
is_new (some old) s = ltb (len old) (len s)

unfoldable pub insert_value : IntBuffer → ℤ → ℤ → MessageWithSignature → IntBuffer
insert_value b input id msg =
    let old = Map.get input b.int_buffer in
    let s = add_item (old_set old) id in
    record {
      int_buffer = Map.insert input s b.int_buffer;
      v = if is_new old s then Map.insert input (get_v b input ++ msg ∷ []) b.v else b.v;
    }

-- `InsertV`: the messages alone.
unfoldable pub insert_v : IntBuffer → ℤ → List MessageWithSignature → IntBuffer
insert_v b input value = record b { v = Map.insert input value b.v }

unfoldable pub get_len : IntBuffer → ℤ → ℕ
get_len b input = len (old_set (Map.get input b.int_buffer))

unfoldable pub clear : IntBuffer → ℤ → IntBuffer
clear b input = record { int_buffer = Map.delete input b.int_buffer; v = Map.delete input b.v }
