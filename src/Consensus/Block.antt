-- ===== src/Consensus/Block.antt =====
-- hotstuff.go: a proposal at a replica. `VerifyBlock` checks the certificate of its parent,
-- `ProcessQCInfo` commits, locks and adopts blocks, and `HandleNormalMsg` votes.
pub mod Chain
pub mod Twice
use sleepy_hot_stuff.Base.{
  ℕ, ◌+◌, ◌≡◌, refl, Bool, true, false, ◌||◌, ◌&&◌, not, Option, none, some, List, [], ◌∷◌,
  if◌then◌else◌, on_check, length, Bytes, string_eq, ℤ, pos, eq_ℤ, ltb_ℤ, leb_ℤ, add_int, sub_int,
}
use sleepy_hot_stuff.Utils.Values.{Slice, bytes_to_string}
use sleepy_hot_stuff.Utils.IntByteMap
use sleepy_hot_stuff.Utils.Map
use sleepy_hot_stuff.Message.{MessageType, HotStuffMessage, RawMessage, QcBlock, zero_message}
use sleepy_hot_stuff.Env.{Env}
use sleepy_hot_stuff.Crypto.{gen_sig, verify_sig}
use sleepy_hot_stuff.Db.{codes, persist_all, persist_critical}
use sleepy_hot_stuff.Consensus.State.{
  Replica, is_view_change, crash, emit, persist, or_empty, loopback, send_to_node, print_chain,
  save_committed, save_received,
}
use sleepy_hot_stuff.Consensus.Certificates.{verify_qc}
use sleepy_hot_stuff.Consensus.Sequence.{update_seq}
use sleepy_hot_stuff.Consensus.View.{serialize_with_signature}

unfoldable pub verify_block : Env → ℤ → ℤ → QcBlock → Replica → Option Bool
verify_block e cur_seq source blockinfo r =
    if eq_ℤ cur_seq (pos 1) && (ltb_ℤ r.sequence cur_seq || eq_ℤ source r.id)
    then some true
    else (if ltb_ℤ blockinfo.height r.locked_block.height
        then some false
        else (if ltb_ℤ (pos (length blockinfo.qc)) r.sizes.quorum
            then some false
            else verify_qc e r.sizes.quorum blockinfo))

-- Tests 2, 3 and 4 of config.go print the chain at each commit.
is_double_spend : ℤ → Bool
is_double_spend t = eq_ℤ t (pos 4) || eq_ℤ t (pos 2) || eq_ℤ t (pos 3)

-- `outputBlockchain`: above height 10 the chain is printed once only.
print_if_due : Env → ℤ → Replica → Replica
print_if_due e height r =
    if is_double_spend e.test_id && not (not r.force_print && ltb_ℤ (pos 10) height)
    then emit (print_chain height) (record r { force_print = false })
    else r

-- Commit the locked block, if the new block is two above it.
unfoldable pub commit_locked : Env → QcBlock → Replica → Replica
unfolding is_double_spend print_if_due
commit_locked e blockinfo r =
    let height = r.locked_block.height in
    let r1 =
      if leb_ℤ (add_int height (pos 2)) blockinfo.height
      then emit save_received (
          emit save_committed (
            print_if_due e height (record r {
              committed_blocks =
                  IntByteMap.insert r.committed_blocks height
                    (some (or_empty (e.marshal_block r.locked_block)));
            })))
      else r in
    persist e (codes "committedBlocks") (e.marshal_blocks r1.committed_blocks) persist_critical r1

-- Lock the current block.
unfoldable pub lock_current : Env → Replica → Replica
lock_current e r =
    let r1 =
      persist e (codes "lockedBlock") (e.marshal_block r.cur_block) persist_critical
        (record r { locked_block = r.cur_block }) in
    let voted = IntByteMap.delete r1.voted_blocks r1.cur_block.height in
    persist e (codes "votedBlocks") (e.marshal_blocks voted) persist_all
      (record r1 { voted_blocks = voted })

-- A replica that does not lead takes a higher block as its current one.
unfoldable pub adopt_higher : Env → QcBlock → Replica → Replica
adopt_higher e blockinfo r =
    if not r.leader && ltb_ℤ r.cur_block.height blockinfo.height
    then (let r1 =
          persist e (codes "curBlock") (e.marshal_block blockinfo) persist_all
            (record r { cur_block = blockinfo }) in
        persist e (codes "curHash") (some (bytes_to_string blockinfo.hash)) persist_all
          (record r1 { cur_hash = blockinfo.hash }))
    else r

-- Forget the decisions awaited three heights below.
unfoldable pub forget_decisions : Env → ℤ → Replica → Replica
forget_decisions e seq r =
    if ltb_ℤ (pos 3) seq
    then (let old = sub_int seq (pos 3) in
        let a = IntByteMap.delete r.awaiting_decision old in
        let r1 =
          persist e (codes "awaitingDecision") (e.marshal_blocks a) persist_all
            (record r { awaiting_decision = a }) in
        let c = IntByteMap.delete r1.awaiting_decision_copy old in
        persist e (codes "awaitingDecisionCopy") (e.marshal_blocks c) persist_all
          (record r1 { awaiting_decision_copy = c }))
    else r

-- The last part stops a timer through `queueHead`, which is never set: `HandleQueue` does nothing.
unfoldable pub finish_block : Env → QcBlock → ℤ → Replica → Replica
finish_block e blockinfo seq r =
    update_seq e seq (forget_decisions e seq (adopt_higher e blockinfo r))

unfoldable pub process_qc_info : Env → QcBlock → ℤ → Replica → Replica
process_qc_info e blockinfo seq r =
    if leb_ℤ (pos 2) blockinfo.height
    then (if leb_ℤ blockinfo.height r.cur_block.height
        then r
        else finish_block e blockinfo seq (
            lock_current e
              (if leb_ℤ (pos 3) blockinfo.height then commit_locked e blockinfo r else r)))
    else finish_block e blockinfo seq r

-- `evaluation`: counters and times of the throughput log. Readings 0 to 3 of the clock are its own.
unfoldable pub evaluation : Env → ℕ → ℤ → Replica → Replica
evaluation e len_ops seq r =
    let r1 =
      if eq_ℤ seq (pos 1)
      then record r { begin_time = e.clock 0; last_time = e.clock 0; genesis_time = e.clock 1 }
      else r in
    let ops = add_int r1.cur_ops (pos len_ops) in
    let r2 = record r1 { total_ops = add_int r1.total_ops (pos len_ops) } in
    if leb_ℤ (pos e.max_batch_size) ops
    then record r2 { cur_ops = pos 0; begin_time = e.clock 2; last_time = e.clock 2 }
    else record r2 { cur_ops = ops }

unfoldable pub ops_of : Option (List RawMessage) → List RawMessage
ops_of none = []
ops_of (some ops) = ops

-- A proposal with operations is awaited, by a leader in the first list only.
unfoldable pub await_decision : Env → HotStuffMessage → Replica → Replica
await_decision e content r = elim content.ops [
  | none ↦ r
  | some ops ↦
      let a = IntByteMap.insert r.awaiting_decision content.seq content.hash in
      let r1 =
        persist e (codes "awaitingDecision") (e.marshal_blocks a) persist_all
          (record r { awaiting_decision = a }) in
      let c = IntByteMap.insert r1.awaiting_decision_copy content.seq content.hash in
      if r1.leader
      then r1
      else persist e (codes "awaitingDecisionCopy") (e.marshal_blocks c) persist_all
          (record r1 { awaiting_decision_copy = c })
]

unfoldable pub vote_message : HotStuffMessage → Slice → Replica → HotStuffMessage
vote_message content sig r = record (zero_message MessageType.qcrep) {
  source = r.id;
  view = r.view;
  hash = content.hash;
  seq = content.seq;
  sig = sig;
}

-- The vote goes to the proposer, and a leader hands it to itself too.
send_vote : Env → ℤ → Option Bytes → Replica → Replica
send_vote e source none r = r
send_vote e source (some msg) r =
    emit (send_to_node msg source)
      (if r.leader then emit (loopback (serialize_with_signature e msg)) r else r)

unfoldable pub vote : Env → HotStuffMessage → Replica → Replica
unfolding vote_message send_vote
vote e content r =
    let sig = gen_sig e (bytes_to_string content.hash) in
    on_check (verify_sig e r.id content.hash sig) (crash r) (r)
      (send_vote e content.source (e.marshal_message (vote_message content sig r)) r)

-- Keep the proposal, process the certificate of its parent and vote.
unfoldable pub accept_block : Env → QcBlock → HotStuffMessage → Replica → Replica
accept_block e blockinfo content r =
    let r1 = record r {
      received_blocks =
          Map.insert (bytes_to_string content.hash) (some (or_empty (e.marshal_message content)))
            r.received_blocks;
    } in
    vote e content (process_qc_info e blockinfo content.seq r1)

unfoldable pub handle_normal_msg : Env → HotStuffMessage → Replica → Replica
unfolding ops_of
handle_normal_msg e content r =
    if ltb_ℤ content.view r.view || is_view_change r.cur_status
    then r
    else (let r1 =
          if ltb_ℤ (pos 0) e.eval_mode
          then evaluation e (length (ops_of content.ops)) content.seq r
          else r in
        let r2 = await_decision e content r1 in
        let blockinfo = e.unmarshal_block (bytes_to_string content.qc) in
        on_check (verify_block e content.seq content.source blockinfo r2) (crash r2) (r2)
          (accept_block e blockinfo content r2))
