-- ===== src/Quorum/Api.antt =====
-- quorum/quorum.go: the package's variables and the operations on them, over the buffers of def.go.
use sleepy_hot_stuff.Base.{
  ℕ, ◌≡◌, Bool, false, Option, none, some, List, [], arith, if◌then◌else◌, Bytes, bytes_eq,
  bytes_eq_iff, string_eq, ℤ, pos, leb_ℤ, eq_ℤ,
}
use sleepy_hot_stuff.Utils.Map
use sleepy_hot_stuff.Utils.Values.{Slice}
use sleepy_hot_stuff.Utils.Sets.{Set, set_list}
use sleepy_hot_stuff.Message.{MessageWithSignature}
use sleepy_hot_stuff.Quorum.Sizes.{Sizes, set_quorum_sizes}
use sleepy_hot_stuff.Quorum.Buffer
use sleepy_hot_stuff.Quorum.Buffer.{
  Buffer, Certificate, empty_certificate, cer_clear, fetch_signatures,
}
use sleepy_hot_stuff.Quorum.IntBuffer
use sleepy_hot_stuff.Quorum.IntBuffer.{IntBuffer}

pub data Step : Type 0 where
  pp cm vc : Step

pub record Quorums : Type 0 where
  pub buffer : Buffer
  pub bufferc : Buffer
  pub cer : Certificate
  pub intbuffer : IntBuffer
  pub sizes : Sizes

unfoldable pub clear_cer : Quorums → Quorums
clear_cer q = record q {
  bufferc = [];
  buffer = [];
  cer = empty_certificate;
  intbuffer = IntBuffer.init;
}

unfoldable pub start_all : ℕ → Quorums → Quorums
start_all num q = clear_cer (record q { sizes = set_quorum_sizes q.sizes num })

-- Both buffers feed the same certificates.
unfoldable pub add : Quorums → ℤ → Bytes → Slice → Step → Quorums
add q id hash msg pp =
    let (b, c) = Buffer.insert_value q.buffer q.cer hash id msg in record q { buffer = b; cer = c }
add q id hash msg cm =
    let (b, c) = Buffer.insert_value q.bufferc q.cer hash id msg in
    record q { bufferc = b; cer = c }
add q id hash msg vc = q

list_of : Option Set → List ℤ
list_of none = []
list_of (some s) = set_list s

unfoldable pub get_bufferc_list : Quorums → Bytes → List ℤ
unfolding list_of
get_bufferc_list q key = list_of (Map.get key q.bufferc)

unfoldable pub check_cur_num : Quorums → Bytes → Step → ℕ
check_cur_num q input pp = Buffer.get_len q.buffer input
check_cur_num q input cm = Buffer.get_len q.bufferc input
check_cur_num q input vc = 0

unfoldable pub check_quorum : Quorums → Bytes → Step → Bool
check_quorum q input pp = leb_ℤ q.sizes.quorum (pos (Buffer.get_len q.buffer input))
check_quorum q input cm = leb_ℤ q.sizes.quorum (pos (Buffer.get_len q.bufferc input))
check_quorum q input vc = false

unfoldable pub check_equal_quorum : Quorums → Bytes → Step → Bool
check_equal_quorum q input pp = eq_ℤ (pos (Buffer.get_len q.buffer input)) q.sizes.quorum
check_equal_quorum q input cm = eq_ℤ (pos (Buffer.get_len q.bufferc input)) q.sizes.quorum
check_equal_quorum q input vc = false

unfoldable pub check_small_quorum : Quorums → Bytes → Step → Bool
check_small_quorum q input pp = leb_ℤ q.sizes.squorum (pos (Buffer.get_len q.buffer input))
check_small_quorum q input cm = leb_ℤ q.sizes.squorum (pos (Buffer.get_len q.bufferc input))
check_small_quorum q input vc = false

unfoldable pub check_over_small_quorum : Quorums → Bytes → Bool
check_over_small_quorum q input = leb_ℤ q.sizes.squorum (pos (Buffer.get_len q.bufferc input))

unfoldable pub check_equal_small_quorum : Quorums → Bytes → Bool
check_equal_small_quorum q input = eq_ℤ (pos (Buffer.get_len q.bufferc input)) q.sizes.squorum

unfoldable pub check_over_half : Quorums → Bytes → Bool
check_over_half q input = leb_ℤ q.sizes.half (pos (Buffer.get_len q.bufferc input))

unfoldable pub check_half : Quorums → Bytes → Bool
check_half q input = eq_ℤ (pos (Buffer.get_len q.bufferc input)) q.sizes.half

-- The certificate of the hash stays.
unfoldable pub clear_buffer : Quorums → Bytes → Step → Quorums
clear_buffer q input pp = record q { buffer = Buffer.clear q.buffer input }
clear_buffer q input cm = record q { bufferc = Buffer.clear q.bufferc input }
clear_buffer q input vc = q

unfoldable pub clear_buffer_pc : Quorums → Bytes → Quorums
clear_buffer_pc q input = record q {
  buffer = Buffer.clear q.buffer input;
  bufferc = Buffer.clear q.bufferc input;
  cer = cer_clear q.cer input;
}

unfoldable pub add_to_int_buffer : Quorums → ℤ → ℤ → MessageWithSignature → Step → Quorums
add_to_int_buffer q view source content vc = record q {
  intbuffer = IntBuffer.insert_value q.intbuffer view source content;
}
add_to_int_buffer q view source content pp = q
add_to_int_buffer q view source content cm = q

unfoldable pub check_int_quorum : Quorums → ℤ → Step → Bool
check_int_quorum q input vc = leb_ℤ q.sizes.quorum (pos (IntBuffer.get_len q.intbuffer input))
check_int_quorum q input pp = false
check_int_quorum q input cm = false

unfoldable pub get_vc_msgs : Quorums → ℤ → Step → List MessageWithSignature
get_vc_msgs q input vc = IntBuffer.get_v q.intbuffer input
get_vc_msgs q input pp = []
get_vc_msgs q input cm = []

get_len-clear :
    (b : Buffer) (input other : Bytes)
    → Buffer.get_len (Buffer.clear b input) other
      ≡ (if bytes_eq input other then 0 else Buffer.get_len b other)
unfolding Buffer.get_len Buffer.clear
get_len-clear b input other = ground (arith, Map.get-delete input other b, bytes_eq_iff input other)

fetch_signatures-clear :
    (c : Certificate) (input other : Bytes)
    → fetch_signatures (cer_clear c input) other
      ≡ (if bytes_eq input other then none else fetch_signatures c other)
unfolding fetch_signatures cer_clear
fetch_signatures-clear c input other = ground (
  arith,
  Map.get-delete input other c.certificate,
  Map.get-delete input other c.identities,
  bytes_eq_iff input other,
)

-- After `ClearBufferPC` of a hash no vote for it is counted in either buffer and it has no
-- certificate; the votes and the certificates of all other hashes are as before.
pub clear_buffer_pc-clears :
    (q : Quorums) (input other : Bytes)
    → (check_cur_num (clear_buffer_pc q input) other pp
        ≡ (if bytes_eq input other then 0 else check_cur_num q other pp))
      × (check_cur_num (clear_buffer_pc q input) other cm
          ≡ (if bytes_eq input other then 0 else check_cur_num q other cm))
      × (fetch_signatures (clear_buffer_pc q input).cer other
          ≡ (if bytes_eq input other then none else fetch_signatures q.cer other))
unfolding clear_buffer_pc check_cur_num
clear_buffer_pc-clears q input other = (
  get_len-clear q.buffer input other,
  get_len-clear q.bufferc input other,
  fetch_signatures-clear q.cer input other,
)
