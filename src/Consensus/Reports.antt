-- ===== src/Consensus/Reports.antt =====
-- consensus/hotstuff.go: what is written of the chain, `outputBlockchain`, `saveCommittedBlocksToFile`
-- and `saveReceivedBlocksToFile`, up to the encoding as JSON. A JSON or file error is only returned.
pub mod Stamps
pub mod Chain
use sleepy_hot_stuff.Base.{
  ℕ, zero, suc, ◌+◌, ◌-◌, ◌/◌, ◌%◌, Bool, true, false, ◌&&◌, not, Option, none, some, List, [], ◌∷◌,
  ◌++◌, ltb, ltb_ℤ, if◌then◌else◌, map, Bytes, ℤ, pos, pos_part,
}
use sleepy_hot_stuff.Utils.Values.{Slice, bytes_to_string}
use sleepy_hot_stuff.Utils.Text.{itoa}
use sleepy_hot_stuff.Utils.Map.{Map}
use sleepy_hot_stuff.Utils.IntByteMap
use sleepy_hot_stuff.Utils.IntByteMap.{IntByteMap}
use sleepy_hot_stuff.Utils.IntBoolMap
use sleepy_hot_stuff.Utils.IntBoolMap.{IntBoolMap}
use sleepy_hot_stuff.Message.{
  MessageWithSignature, QcBlock, ClientRequest, Transaction, HotStuffMessage, RawMessage,
}
use sleepy_hot_stuff.Env.{Env}
use sleepy_hot_stuff.Consensus.State.{Replica}

pub record Tx : Type 0 where
  pub id : ℤ
  pub from : Bytes
  pub to : Bytes
  pub value : ℤ
  pub timestamp : ℤ

pub record Block : Type 0 where
  pub view : ℤ
  pub height : ℤ
  pub hash : Bytes
  pub pre_hash : Bytes
  pub txs : List Tx

-- What `outputBlockchain` prints of a block.
pub record Printed : Type 0 where
  pub view : ℤ
  pub height : ℤ
  pub txs : List Tx

abbrev pub printed : Block → Printed
printed b = record { view = b.view; height = b.height; txs = b.txs }

-- The first transaction, which every report invents.
abbrev pub base_tx : ℤ → Bytes → ℤ → Tx
base_tx id to timestamp = record {
  id = id;
  from = [];
  to = to;
  value = pos 50;
  timestamp = timestamp;
}

abbrev pub genesis_block : Block
genesis_block = record {
  view = pos 0;
  height = pos 0;
  hash = [];
  pre_hash = [];
  txs = base_tx (pos 0) (b'0' ∷ []) (pos 0) ∷ [];
}

-- One of the sixteen digits.
hex_digit : ℕ → ℕ
hex_digit d = if ltb d 10 then b'0' + d else b'a' + (d - 10)

-- `hex.EncodeToString`
unfoldable pub hex : Bytes → Bytes
unfolding hex_digit
hex [] = []
hex (x ∷ xs) = hex_digit (x / 16) ∷ hex_digit (x % 16) ∷ hex xs

-- A transaction that cannot be read is written as an empty one.
unfoldable pub tx_of : ClientRequest → Option Transaction → Tx
tx_of cr none = record { id = cr.id; from = []; to = []; value = pos 0; timestamp = cr.ts }
tx_of cr (some t) = record {
  id = cr.id;
  from = t.from;
  to = t.to;
  value = t.value;
  timestamp = cr.ts;
}

module _ (e : Env) where
  -- The inner loop, over the transactions of a block: one whose timestamp was seen is passed over.
  unfoldable pub report_txs : IntBoolMap → List MessageWithSignature → IntBoolMap × List Tx
  report_txs tsmap [] = (tsmap, [])
  report_txs tsmap (x ∷ txs) =
      let cr = e.unmarshal_request (bytes_to_string x.msg) in
      let ex = (IntBoolMap.get tsmap cr.ts).1 in
      let (seen, rest) =
        report_txs (if ex then tsmap else IntBoolMap.insert tsmap cr.ts true) txs in
      (seen, if ex then rest else tx_of cr (e.unmarshal_transaction (bytes_to_string cr.op)) ∷ rest)

  unfoldable pub report_block : QcBlock → List Tx → Block
  report_block b txs = record {
    view = b.view;
    height = b.height;
    hash = hex (bytes_to_string b.hash);
    pre_hash = hex (bytes_to_string b.pre_hash);
    txs = txs;
  }

  -- One height of the outer loop, the blocks above it given as a function of the seen timestamps.
  unfoldable pub report_height : Slice × Bool → IntBoolMap → (IntBoolMap → List Block) → List Block
  report_height (bser, false) tsmap rest = rest tsmap
  report_height (bser, true) tsmap rest =
      let b = e.unmarshal_block (bytes_to_string bser) in
      let (seen, txs) = report_txs tsmap b.txs in report_block b txs ∷ rest seen

  -- The heights from `i` on, `rounds` of them.
  unfoldable pub report_heights : IntByteMap → ℕ → ℕ → IntBoolMap → List Block
  report_heights blocks zero i tsmap = []
  report_heights blocks (suc rounds) i tsmap =
      report_height (IntByteMap.get blocks (pos i)) tsmap (report_heights blocks rounds (suc i))

  -- The heights that are looked up end at the number of the blocks.
  unfoldable pub save_committed_blocks_to_file : Replica → List Block
  save_committed_blocks_to_file r =
      genesis_block
      ∷ report_heights r.committed_blocks (IntByteMap.get_len r.committed_blocks) 1 IntBoolMap.init

  -- `outputBlockchain` prints nothing of a chain above height 10, unless it is forced to.
  unfoldable pub output_blockchain : ℤ → IntByteMap → Replica → List Printed × Replica
  output_blockchain height blockchain r =
      if not r.force_print && ltb_ℤ (pos 10) height then ([], r) else (
        map printed (genesis_block ∷ report_heights blockchain (pos_part height) 1 IntBoolMap.init),
        record r { force_print = false },
      )

  report_tx : ClientRequest → Option Transaction → List Tx → List Tx
  report_tx cr none rest = rest
  report_tx cr (some t) rest = tx_of cr (some t) ∷ rest

  report_op : Bytes → List Tx → List Tx
  unfolding report_tx
  report_op [] rest = rest
  report_op (x ∷ xs) rest =
      let signed = e.unmarshal_signed (x ∷ xs) in
      let cr = e.unmarshal_request (bytes_to_string signed.msg) in
      report_tx cr (e.unmarshal_transaction (bytes_to_string cr.op)) rest

  -- The operations of a received proposal; one that is empty or holds no transaction is passed over.
  unfoldable pub report_ops : List RawMessage → List Tx
  unfolding report_op
  report_ops [] = []
  report_ops (op ∷ ops) = report_op (bytes_to_string op.msg) (report_ops ops)

  ops_of : Option (List RawMessage) → List RawMessage
  ops_of none = []
  ops_of (some ops) = ops

  parent_hash : Bytes → Bytes
  parent_hash [] = []
  parent_hash (x ∷ xs) = hex (bytes_to_string (e.unmarshal_block (x ∷ xs)).hash)

  unfoldable pub report_received : Slice → Block
  unfolding ops_of parent_hash
  report_received value =
      let msg = e.unmarshal_message (bytes_to_string value) in
      record {
        view = msg.view;
        height = msg.seq;
        hash = hex (bytes_to_string msg.hash);
        pre_hash = parent_hash (bytes_to_string msg.qc);
        txs = base_tx msg.source (itoa msg.source) msg.ts ∷ report_ops (ops_of msg.ops);
      }

  -- `receivedBlocksSet.Range`, in some order.
  unfoldable pub save_received_blocks : Map Bytes Slice → List Block
  save_received_blocks [] = []
  save_received_blocks ((hash, value) ∷ blocks) =
      report_received value ∷ save_received_blocks blocks
