-- ===== src/Consensus/Propose.antt =====
-- hotstuff.go and events.go: the leader's side. `RequestMonitor` takes a batch and `StartHotStuff`
-- proposes it; `HandleNormalRepMsg` collects the votes and certifies the block.
pub mod Votes
pub mod Certified
use sleepy_hot_stuff.Base.{
  ℕ, zero, suc, ◌+◌, ◌%◌, ◌/◌, ◌≡◌, refl, Bool, true, false, ◌||◌, ◌&&◌, not, Option, none, some,
  List, [], ◌∷◌, ◌++◌, map, if◌then◌else◌, on_check, ltb, ◌==◌, length, Bytes, bytes_eq, ℤ, pos,
  eq_ℤ, ltb_ℤ, leb_ℤ, add_int, sub_int,
}
use sleepy_hot_stuff.Utils.Text.{itoa}
use sleepy_hot_stuff.Utils.Values.{Slice, bytes_to_string}
use sleepy_hot_stuff.Utils.IntByteMap
use sleepy_hot_stuff.Utils.IntBytesMap
use sleepy_hot_stuff.Message.{
  MessageType, MessageWithSignature, HotStuffMessage, RawMessage, QcBlock, ClientRequest,
  Transaction, Signatures, zero_message, zero_block,
}
use sleepy_hot_stuff.Env.{Env}
use sleepy_hot_stuff.Crypto.{gen_batch_hash, verify_sig}
use sleepy_hot_stuff.Db.{codes, persist_all}
use sleepy_hot_stuff.Quorum.Buffer
use sleepy_hot_stuff.Queue.{grab_with_max_len_and_clear}
use sleepy_hot_stuff.Consensus.State.{
  Replica, Status, ready, processing, is_ready, is_sleeping, is_view_change, prepared, crash, emit,
  persist, or_empty, loopback, broadcast_all,
}
use sleepy_hot_stuff.Consensus.Status.{is_prepared, update_buffer_content, block_key}
use sleepy_hot_stuff.Consensus.Sequence.{increment, obtain_cur_hash}
use sleepy_hot_stuff.Consensus.View.{leader_id, tell_everyone}

-- The current block, as the parent of the proposal: nil for the first one.
unfoldable pub fetch_block_info : Env → ℤ → Replica → Slice
fetch_block_info e seq r =
    if eq_ℤ seq (pos 1) || eq_ℤ r.cur_block.height (pos 0)
    then none
    else some (or_empty (e.marshal_block r.cur_block))

unfoldable pub get_msg_hash : Env → List RawMessage → Slice
get_msg_hash e [] = some []
get_msg_hash e (m ∷ ops) = gen_batch_hash e (m ∷ ops)

unfoldable pub get_transactions : List RawMessage → List Slice
get_transactions [] = []
get_transactions (m ∷ batch) = m.msg ∷ get_transactions batch

unfoldable pub proposal : Env → List RawMessage → Replica → HotStuffMessage
proposal e batch r = record (zero_message MessageType.qc) {
  seq = r.sequence;
  source = r.id;
  view = r.view;
  ops = some batch;
  ts = e.clock 0;
  num = r.sizes.n;
  qc = fetch_block_info e r.sequence r;
  hash = obtain_cur_hash e (get_msg_hash e batch) r.sequence r;
}

-- The proposal waits for its votes under its sequence number.
unfoldable pub await_proposal : Env → HotStuffMessage → List RawMessage → Replica → Replica
await_proposal e msg batch r =
    let r1 =
      persist e (codes "curHash") (some (bytes_to_string msg.hash)) persist_all
        (record r { cur_hash = msg.hash }) in
    let a = IntByteMap.insert r1.awaiting_blocks msg.seq msg.hash in
    let r2 = persist e (codes "awaitingBlocks") (e.marshal_blocks a) persist_all (record r1 {
      awaiting_blocks = a;
      awaiting_blocks_txs =
          IntBytesMap.set_value r1.awaiting_blocks_txs msg.seq (get_transactions batch);
    }) in
    let c = IntByteMap.insert r2.awaiting_decision_copy msg.seq msg.hash in
    persist e (codes "awaitingDecisionCopy") (e.marshal_blocks c) persist_all
      (record r2 { awaiting_decision_copy = c })

unfoldable pub start_hotstuff : Env → List RawMessage → Replica → Replica
unfolding get_transactions proposal await_proposal
start_hotstuff e batch r =
    let r1 = increment e r in
    let msg = proposal e batch r1 in
    tell_everyone e (or_empty (e.marshal_message msg)) (await_proposal e msg batch r1)

-- One turn of the loop of `RequestMonitor(v)`, and whether the loop goes on.
unfoldable pub monitor_turn : Env → ℤ → Replica → Replica × Bool
monitor_turn e v r =
    if not (eq_ℤ v r.view) || is_sleeping r.cur_status || not (eq_ℤ (leader_id e v) r.id)
    then (r, false)
    else (if is_ready r.cur_status
          && (ltb 0 (IntByteMap.get_len r.awaiting_decision_copy) || not (length r.queue == 0))
        then (let (batch, rest) = grab_with_max_len_and_clear e.max_batch_size r.queue in
            (
              start_hotstuff e batch (
                  persist e (codes "queue") (e.marshal_queue rest) persist_all
                    (record r { cur_status = processing; queue = rest })),
              true,
            ))
        else (r, true))

-- The reward of the leader, the first transaction of a block.
base_transaction : Env → Replica → MessageWithSignature
base_transaction e r =
    let btx : Transaction = record { from = []; to = itoa r.id; value = pos 50 } in
    let cr : ClientRequest = record {
      mtype = MessageType.broadcast;
      id = r.id;
      op = some (or_empty (e.marshal_transaction btx));
      ts = e.clock 0;
    } in
    record { msg = some (or_empty (e.marshal_request cr)); sig = none }

unwrap_all : Env → List Slice → List MessageWithSignature
unwrap_all e [] = []
unwrap_all e (t ∷ txs) = e.unmarshal_signed (bytes_to_string t) ∷ unwrap_all e txs

-- The transactions of the proposal that the block certifies, if it is one of this replica's.
block_txs : Env → ℤ → Replica → List MessageWithSignature
block_txs e seq r = elim (IntBytesMap.get r.awaiting_blocks_txs seq).1 [
  | false ↦ []
  | true ↦ base_transaction e r ∷ unwrap_all e (IntBytesMap.get r.awaiting_blocks_txs seq).0
]

hash_if_awaited : Slice × Bool → Slice
hash_if_awaited (h, true) = h
hash_if_awaited (h, false) = none

-- The list of signatures and identities, read back from `FetchCer`.
certificate_of : Env → Bytes → Replica → Signatures
certificate_of e hash r = e.unmarshal_signatures (bytes_to_string (Buffer.fetch_cer e r.cer hash))

unfoldable pub certified_block : Env → HotStuffMessage → Replica → QcBlock
unfolding base_transaction unwrap_all block_txs hash_if_awaited certificate_of
certified_block e content r =
    let cer = certificate_of e (bytes_to_string content.hash) r in
    record zero_block {
      view = r.view;
      height = add_int r.cur_block.height (pos 1);
      qc = cer.sigs;
      ids = cer.ids;
      hash = content.hash;
      pre_hash = hash_if_awaited (IntByteMap.get r.awaiting_blocks (sub_int content.seq (pos 1)));
      pre_pre_hash =
          hash_if_awaited (IntByteMap.get r.awaiting_blocks (sub_int content.seq (pos 2)));
      txs = block_txs e content.seq r;
    }

-- With a quorum of votes: the certified block becomes the current one, if it is higher.
unfoldable pub certify : Env → HotStuffMessage → Replica → Replica
certify e content r =
    let r1 = update_buffer_content (block_key (bytes_to_string content.hash)) prepared r in
    let qcblock = certified_block e content r1 in
    let r2 =
      if ltb_ℤ r1.cur_block.height qcblock.height
      then persist e (codes "curBlock") (e.marshal_block qcblock) persist_all
          (record r1 { cur_block = qcblock })
      else r1 in
    record r2 { cur_status = ready }

-- quorum.Add at the step PP.
unfoldable pub add_vote : HotStuffMessage → Replica → Replica
add_vote content r =
    let (b, c) =
      Buffer.insert_value r.votes_pp r.cer (bytes_to_string content.hash) content.source
        content.sig in
    record r { votes_pp = b; cer = c }

-- quorum.CheckQuorum at the step PP.
unfoldable pub has_quorum : Bytes → Replica → Bool
has_quorum hash r = leb_ℤ r.sizes.quorum (pos (Buffer.get_len r.votes_pp hash))

unfoldable pub count_vote : Env → HotStuffMessage → Replica → Replica
count_vote e content r =
    if is_prepared (block_key (bytes_to_string content.hash)) r
    then r
    else (let r1 = add_vote content r in
        if has_quorum (bytes_to_string content.hash) r1 then certify e content r1 else r1)

-- The hash awaited under the sequence number, if there is one, is the one that the vote is for.
unfoldable pub matches_awaited : HotStuffMessage → Replica → Bool
matches_awaited content r =
    let (h, exist) = IntByteMap.get r.awaiting_blocks content.seq in
    not exist || bytes_eq (bytes_to_string h) (bytes_to_string content.hash)

unfoldable pub handle_normal_rep_msg : Env → HotStuffMessage → Replica → Replica
handle_normal_rep_msg e content r =
    if ltb_ℤ content.view r.view || is_view_change r.cur_status
    then r
    else (if not (matches_awaited content r)
        then r
        else on_check (verify_sig e content.source content.hash content.sig) (crash r) (r)
            (count_vote e content r))
