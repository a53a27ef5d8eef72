-- ===== src/Consensus/Status.antt =====
-- The status buffer of hotstuff.go, and the keys under which the handlers use it.
use sleepy_hot_stuff.Base.{◌++◌, Bool, Bytes, ℤ, eq_ℤ}
use sleepy_hot_stuff.Utils.Values.{bytes_to_string, int_to_bytes}
use sleepy_hot_stuff.Utils.StringIntMap
use sleepy_hot_stuff.Env.{Env}
use sleepy_hot_stuff.Crypto.{gen_hash}
use sleepy_hot_stuff.Db.{codes}
use sleepy_hot_stuff.Consensus.State.{Replica, prepared}

-- `GetBufferContent(key, BUFFER)`
unfoldable pub get_buffer_content : Bytes → Replica → ℤ
get_buffer_content key r = (StringIntMap.get r.buffer key).0

-- `UpdateBufferContent(key, value, BUFFER)`
unfoldable pub update_buffer_content : Bytes → ℤ → Replica → Replica
update_buffer_content key value r = record r { buffer = StringIntMap.insert r.buffer key value }

unfoldable pub delete_buffer : Bytes → Replica → Replica
delete_buffer key r = record r { buffer = StringIntMap.delete r.buffer key }

unfoldable pub is_prepared : Bytes → Replica → Bool
unfolding get_buffer_content
is_prepared key r = eq_ℤ (get_buffer_content key r) prepared

-- The hash of a view number, as a string.
unfoldable pub view_hash : Env → ℤ → Bytes
view_hash e view = bytes_to_string (gen_hash e (bytes_to_string (int_to_bytes view)))

abbrev pub block_key : Bytes → Bytes
block_key hash = codes "BLOCK" ++ hash

abbrev pub tqc_key : Bytes → Bytes
tqc_key hash = codes "TQC" ++ hash

abbrev pub vcqc_key : Bytes → Bytes
vcqc_key hash = codes "VCQC" ++ hash

abbrev pub echo1_key : Bytes → Bytes
echo1_key hash = codes "ECHO1" ++ hash

abbrev pub echo2_key : Bytes → Bytes
echo2_key hash = codes "ECHO2" ++ hash
