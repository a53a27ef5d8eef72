-- ===== src/Env.antt =====
-- What the replica code calls and does not implement, and the configuration that it reads. msgpack
-- (vendored), SHA-256, ECDSA and the key files stand behind functions of this record, and so does the
-- clock: a handler that calls `MakeTimestamp` at several places reads `clock` at a number for each place.
use sleepy_hot_stuff.Base.{ℕ, Bool, Option, some, List, Bytes, ℤ, ◌≡◌}
use sleepy_hot_stuff.Utils.Values.{Slice}
use sleepy_hot_stuff.Utils.Map.{Map}
use sleepy_hot_stuff.Message.{
  RawMessage, MessageWithSignature, HotStuffMessage, QcBlock, Signatures, ClientRequest,
  Transaction, ViewChangeMessage,
}

-- conf.json, as far as the consensus reads it (config/config.go).
pub record Config : Type 0 where
  pub num_replicas : ℕ
  pub max_batch_size : ℕ
  pub eval_mode : ℤ
  pub persist_level : ℤ
  pub num_of_mal : ℤ
  pub num_of_sleepy : ℤ
  pub view_change : Bool
  pub gat : Bool
  pub test_id : ℤ

-- `msgpack.Marshal` returns bytes or an error; an `Unmarshal` whose error is dropped returns what it
-- filled in.
pub record Codec : Type 0 where
  pub marshal_message : HotStuffMessage → Option Bytes
  pub unmarshal_message : Bytes → HotStuffMessage
  pub marshal_signed : MessageWithSignature → Option Bytes
  pub unmarshal_signed : Bytes → MessageWithSignature
  pub marshal_block : QcBlock → Option Bytes
  pub unmarshal_block : Bytes → QcBlock
  -- The `Unmarshal` of a block reports no error.
  pub is_block : Bytes → Bool
  pub marshal_signatures : Signatures → Option Bytes
  pub unmarshal_signatures : Bytes → Signatures
  pub marshal_request : ClientRequest → Option Bytes
  pub unmarshal_request : Bytes → ClientRequest
  pub marshal_transaction : Transaction → Option Bytes
  pub unmarshal_transaction : Bytes → Option Transaction
  pub marshal_blocks : Map ℤ Slice → Option Bytes
  pub unmarshal_blocks : Bytes → Map ℤ Slice
  -- The `Unmarshal` of a map of blocks reports no error.
  pub is_blocks : Bytes → Bool
  pub unmarshal_view_change : Bytes → ViewChangeMessage
  pub marshal_numbers : Map ℤ ℤ → Option Bytes
  pub marshal_queue : List RawMessage → Option Bytes

pub record Env : Type 0 where
  pub config : Config
  pub open config use *
  pub codec : Codec
  pub open codec use *
  pub sha256 : Bytes → Bytes
  -- `ecdsa.Sign` by this replica's key: the numbers `r` and `s`, big endian.
  pub ecdsa_sign : Bytes → Bytes × Bytes
  -- `ecdsa.Verify` under the public key of the replica.
  pub ecdsa_verify : ℤ → Bytes → Bytes → Bytes → Bool
  -- The public key of the replica can be loaded; without one `ecdsa.Verify` dereferences nil.
  pub has_key : ℤ → Bool
  pub clock : ℕ → ℤ

-- The documented behaviour of msgpack on the lists of a certificate: they are encoded, and decoded as
-- they were.
abbrev pub SignaturesRoundTrip : Env → Type 0
SignaturesRoundTrip e =
    (s : Signatures)
    → (bs : Bytes) × (e.marshal_signatures s ≡ some bs) × (e.unmarshal_signatures bs ≡ s)
