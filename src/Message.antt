-- ===== src/Message.antt =====
-- message/: the structs that the replicas exchange, field by field.
use sleepy_hot_stuff.Base.{Option, none, List, [], Bytes, ℤ, pos}
use sleepy_hot_stuff.Utils.Values.{Slice}
use sleepy_hot_stuff.Utils.Map.{Map}

-- `pb.MessageType` of proto/communication.proto.
pub data MessageType : Type 0 where
  broadcast join write write_batch reconstruct test_hacss qc qcrep timeout tqc : MessageType
  viewchange newview rec1 echo1 rec2 echo2 : MessageType

pub MessageType-discrete : Discrete MessageType
MessageType-discrete = hlevel

-- `pb.RawMessage`
pub record RawMessage : Type 0 where
  pub msg : Slice

pub record MessageWithSignature : Type 0 where
  pub msg : Slice
  pub sig : Slice

pub record HotStuffMessage : Type 0 where
  pub mtype : MessageType
  pub seq : ℤ
  pub source : ℤ
  pub view : ℤ
  pub conf : ℤ
  pub ops : Option (List RawMessage)
  pub mem_ops : Option (List RawMessage)
  pub hash : Slice
  pub pre_hash : Slice
  pub sig : Slice
  pub qc : Slice
  pub lqc : Slice
  pub com_blocks : Slice
  pub hashes : Map Bytes ℤ
  pub sid_info : List ℤ
  pub ts : ℤ
  pub num : ℤ
  pub epoch : ℤ
  pub count : ℤ
  pub v : List MessageWithSignature

-- The zero value, over which a composite literal sets fields.
abbrev pub zero_message : MessageType → HotStuffMessage
zero_message t = record {
  mtype = t;
  seq = pos 0;
  source = pos 0;
  view = pos 0;
  conf = pos 0;
  ops = none;
  mem_ops = none;
  hash = none;
  pre_hash = none;
  sig = none;
  qc = none;
  lqc = none;
  com_blocks = none;
  hashes = [];
  sid_info = [];
  ts = pos 0;
  num = pos 0;
  epoch = pos 0;
  count = pos 0;
  v = [];
}

pub record QcBlock : Type 0 where
  pub view : ℤ
  pub height : ℤ
  pub hash : Slice
  pub pre_hash : Slice
  pub pre_pre_hash : Slice
  pub qc : List Slice
  pub aux : Slice
  pub aux_qc : Slice
  pub ids : List ℤ
  pub txs : List MessageWithSignature

abbrev pub zero_block : QcBlock
zero_block = record {
  view = pos 0;
  height = pos 0;
  hash = none;
  pre_hash = none;
  pre_pre_hash = none;
  qc = [];
  aux = none;
  aux_qc = none;
  ids = [];
  txs = [];
}

pub record Signatures : Type 0 where
  pub hash : Slice
  pub sigs : List Slice
  pub ids : List ℤ

pub record ClientRequest : Type 0 where
  pub mtype : MessageType
  pub id : ℤ
  pub op : Slice
  pub ts : ℤ

pub record Transaction : Type 0 where
  pub from : Bytes
  pub to : Bytes
  pub value : ℤ

-- The certificates `P` and `PP` of the struct carry membership data and are read by no handler below.
pub record ViewChangeMessage : Type 0 where
  pub mtype : MessageType
  pub view : ℤ
  pub seq : ℤ
  pub source : ℤ
  pub o : Map ℤ MessageWithSignature
  pub v : List MessageWithSignature
