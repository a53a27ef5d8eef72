-- ===== src/Consensus/State.antt =====
-- The variables of a replica: the package variables of consensus/*.go, those of quorum/, the live
-- nodes of communication/ and the database. A handler holds the locks of what it writes, so one call
-- is one step from `Replica` to `Replica`; what it sends, spawns or arms is appended to `out`.
use sleepy_hot_stuff.Base.{
  Bool, true, false, ◌||◌, Option, none, some, List, [], ◌∷◌, ◌++◌, if◌then◌else◌, Bytes, ℤ, pos,
  int_eq,
}
use sleepy_hot_stuff.Utils.Map.{Map}
use sleepy_hot_stuff.Utils.Values.{Slice}
use sleepy_hot_stuff.Utils.IntByteMap.{IntByteMap}
use sleepy_hot_stuff.Utils.IntBytesMap.{IntBytesMap}
use sleepy_hot_stuff.Utils.IntIntMap.{IntIntMap}
use sleepy_hot_stuff.Utils.StringIntMap.{StringIntMap}
use sleepy_hot_stuff.Utils.Text.{itoa}
use sleepy_hot_stuff.Communication.Connection
use sleepy_hot_stuff.Communication.Connection.{Connection}
use sleepy_hot_stuff.Message.{RawMessage, QcBlock}
use sleepy_hot_stuff.Env.{Env}
use sleepy_hot_stuff.Quorum.Sizes.{Sizes}
use sleepy_hot_stuff.Quorum.Buffer.{Buffer, Certificate}
use sleepy_hot_stuff.Quorum.IntBuffer.{IntBuffer}
use sleepy_hot_stuff.Db.{Disk, persist_value, write_fails}

pub data Status : Type 0 where
  ready processing view_change sleeping recovering : Status

abbrev pub is_ready : Status → Bool
is_ready ready = true
is_ready _ = false

abbrev pub is_view_change : Status → Bool
is_view_change view_change = true
is_view_change _ = false

abbrev pub is_sleeping : Status → Bool
is_sleeping sleeping = true
is_sleeping _ = false

abbrev pub is_recovering : Status → Bool
is_recovering recovering = true
is_recovering _ = false

-- What a call leaves to others: a message that the replica hands to itself in a new goroutine, one to
-- all others, one to a node, a rotating timer, a request monitor, and the files of committed and of
-- received blocks. `print_chain` logs the chain up to a height.
pub data Effect : Type 0 where
  loopback : Bytes → Effect
  broadcast_all : Bytes → Effect
  send_to_node : Bytes → ℤ → Effect
  rotating_timer : ℤ → Effect
  request_monitor : ℤ → Effect
  print_chain : ℤ → Effect
  save_committed : Effect
  save_received : Effect

pub record Replica : Type 0 where
  pub id : ℤ
  pub view : ℤ
  pub leader : Bool
  pub cur_status : Status
  pub sequence : ℤ
  pub cur_block : QcBlock
  pub locked_block : QcBlock
  pub cur_hash : Slice
  pub voted_blocks : IntByteMap
  pub awaiting_blocks : IntByteMap
  pub awaiting_blocks_txs : IntBytesMap
  pub awaiting_decision : IntByteMap
  pub awaiting_decision_copy : IntByteMap
  pub committed_blocks : IntByteMap
  pub received_blocks : Map Bytes Slice
  pub vc_awaiting_votes : IntIntMap
  pub vc_time : ℤ
  pub buffer : StringIntMap
  pub timeout_buffer : IntBuffer
  pub sizes : Sizes
  pub votes_pp : Buffer
  pub votes_cm : Buffer
  pub cer : Certificate
  pub intbuffer : IntBuffer
  pub rec_buffer : StringIntMap
  pub req_hash : Slice
  pub h_view : ℤ
  pub queue : List RawMessage
  pub total_ops : ℤ
  pub cur_ops : ℤ
  pub begin_time : ℤ
  pub last_time : ℤ
  pub genesis_time : ℤ
  pub force_print : Bool
  pub connection : Connection
  pub disk : Disk
  -- The process has ended, by `log.Fatal` or a panic. From then on nothing is written or sent.
  pub halted : Bool
  pub out : List Effect

unfoldable pub crash : Replica → Replica
crash r = record r { halted = true }

unfoldable pub emit : Effect → Replica → Replica
emit x r = record r { out = if r.halted then r.out else r.out ++ x ∷ [] }

unfoldable pub persist : Env → Bytes → Option Bytes → ℤ → Replica → Replica
persist e key value level r = record r {
  disk = if r.halted then r.disk else persist_value e.persist_level key value level r.disk;
  halted = r.halted || write_fails e.persist_level value level;
}

-- A `Serialize` whose error is dropped returns the empty slice.
abbrev pub or_empty : Option Bytes → Bytes
or_empty none = []
or_empty (some b) = b

-- `ConsensusStatus` values of the status buffer; a missing key reads as 0, `PREPREPARED`.
abbrev pub prepared : ℤ
prepared = pos 1

-- communication.SetLive of the text of a node id.
unfoldable pub set_live : ℤ → Replica → Replica
set_live source r = record r { connection = Connection.set_live r.connection (itoa source) }
