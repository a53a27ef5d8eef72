-- ===== src/Communication/Connection.antt =====
-- communication/connection.go: which nodes a replica regards as dead. A node is, once messages to it have
-- failed often enough since it was last heard of.
pub mod Laws
use sleepy_hot_stuff.Base.{
  Bool, true, false, Option, none, some, List, [], ◌∷◌, ◌++◌, if◌then◌else◌, Bytes, ℤ, pos, ltb_ℤ,
  add_int,
}
use sleepy_hot_stuff.Utils.Text.{itoa, atoi_value, split}
use sleepy_hot_stuff.Utils.StringBoolMap
use sleepy_hot_stuff.Utils.StringBoolMap.{StringBoolMap}
use sleepy_hot_stuff.Utils.StringIntMap
use sleepy_hot_stuff.Utils.StringIntMap.{StringIntMap}

-- `connection` and `connectionMap`: the flag, and the failures.
pub record Connection : Type 0 where
  pub connection : StringBoolMap
  pub connection_map : StringIntMap

abbrev pub max_limit : ℤ
max_limit = pos 3

-- `StartConnectionManager`
unfoldable pub start_connection_manager : Connection
start_connection_manager = record {
  connection = StringBoolMap.init;
  connection_map = StringIntMap.init;
}

-- A node without a flag is not dead.
unfoldable pub is_not_live : Connection → Bytes → Bool
is_not_live c key =
    let (result, exist) = StringBoolMap.get c.connection key in if exist then result else false

-- The limit is compared with the number of failures before this one.
unfoldable pub not_live : Connection → Bytes → Connection
not_live c key =
    let (v, exist) = StringIntMap.get c.connection_map key in
    let next = if exist then add_int v (pos 1) else pos 0 in
    record {
      connection_map = StringIntMap.insert c.connection_map key next;
      connection =
          if ltb_ℤ max_limit v then StringBoolMap.insert c.connection key true else c.connection;
    }

unfoldable pub set_live : Connection → Bytes → Connection
set_live c key = record {
  connection_map = StringIntMap.insert c.connection_map key (pos 0);
  connection = StringBoolMap.insert c.connection key false;
}

-- `portNum[1:]` of an empty text panics: `none`.
unfoldable pub get_port_number : Bytes → Option Bytes
get_port_number [] = none
get_port_number (x ∷ port_num) = some (b':' ∷ itoa (add_int (atoi_value port_num) (pos 1000)))

-- An address without a colon panics.
unfoldable pub update_parts : List Bytes → Option Bytes
unfolding get_port_number
update_parts [] = none
update_parts (host ∷ []) = none
update_parts (host ∷ port ∷ rest) = elim (get_port_number (b':' ∷ port)) [
  | none ↦ none
  | some pn ↦ some (host ++ pn)
]

unfoldable pub update_address : Bytes → Option Bytes
update_address address = update_parts (split b':' [] address)
