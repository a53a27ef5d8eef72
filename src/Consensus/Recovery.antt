-- ===== src/Consensus/Recovery.antt =====
-- sleepyRec.go: how a replica that slept comes back, from its disk or with the help of the others.
pub mod Disk
pub mod Ready
use sleepy_hot_stuff.Base.{
  ℕ, ◌+◌, ◌≡◌, refl, Bool, true, false, ◌||◌, ◌&&◌, not, Option, none, some, List, [], ◌∷◌,
  if◌then◌else◌, on_check, length, Bytes, bytes_eq, ℤ, pos, negsuc, eq_ℤ, ltb_ℤ, leb_ℤ, add_int,
  sub_int, int_eq,
}
use sleepy_hot_stuff.Utils.Values.{Slice, bytes_to_string, bytes_to_int}
use sleepy_hot_stuff.Utils.Map.{Map}
use sleepy_hot_stuff.Utils.IntByteMap
use sleepy_hot_stuff.Utils.IntByteMap.{IntByteMap}
use sleepy_hot_stuff.Utils.StringIntMap
use sleepy_hot_stuff.Message.{MessageType, HotStuffMessage, QcBlock, zero_message}
use sleepy_hot_stuff.Env.{Env}
use sleepy_hot_stuff.Crypto.{gen_hash}
use sleepy_hot_stuff.Db.{
  codes, Recovered, read, failed, recover_value, persist_all, persist_critical, no_persist,
}
use sleepy_hot_stuff.Quorum.IntBuffer
use sleepy_hot_stuff.Consensus.State.{
  Replica, Status, ready, recovering, is_sleeping, is_recovering, prepared, crash, emit, or_empty,
  broadcast_all, send_to_node, request_monitor,
}
use sleepy_hot_stuff.Consensus.Status.{is_prepared, update_buffer_content, echo1_key, echo2_key}
use sleepy_hot_stuff.Consensus.Certificates.{verify_tqc, verify_qc}
use sleepy_hot_stuff.Consensus.Sequence.{update_seq}
use sleepy_hot_stuff.Consensus.View.{start_view_change}

-- `config.RecModeType`
pub data RecMode : Type 0 where
  no_rec rec_from_disk rec_koala2 : RecMode

-- A map is decoded into the one that is there: its entries are written over the old ones.
unfoldable pub decode_into : Map ℤ Slice → IntByteMap → IntByteMap
decode_into [] blocks = blocks
decode_into ((key, b) ∷ m) blocks = decode_into m (IntByteMap.insert blocks key b)

-- The three reads of `recoverFromDisk`; an error ends the process.
unfoldable pub restore : Env → Recovered → Recovered → Recovered → Replica → Replica
restore e (read v) (read b) (read c) r =
    if e.is_block b && e.is_blocks c
    then start_view_change e (bytes_to_int (some v)) (record r {
      locked_block = e.unmarshal_block b;
      cur_block = e.unmarshal_block b;
      committed_blocks = decode_into (e.unmarshal_blocks c) r.committed_blocks;
    })
    else crash r
restore e (failed x) b c r = crash r
restore e (read v) (failed x) c r = crash r
restore e (read v) (read b) (failed x) r = crash r

unfoldable pub recover_from_disk : Env → Replica → Replica
unfolding restore
recover_from_disk e r =
    if eq_ℤ e.persist_level persist_critical
    then restore e (recover_value e.persist_level (codes "view") r.disk)
        (recover_value e.persist_level (codes "lockedBlock") r.disk)
        (recover_value e.persist_level (codes "committedBlocks") r.disk) r
    else (if eq_ℤ e.persist_level persist_all then record r { cur_status = ready } else r)

rec1_message : Env → Replica → HotStuffMessage
rec1_message e r = record (zero_message MessageType.rec1) { source = r.id; ts = e.clock 0 }

-- Ask all others, and remember the request by its hash. A request that cannot be serialized ends the
-- process.
ask : Env → Option Bytes → Replica → Replica
ask e none r = crash r
ask e (some msg) r = emit (broadcast_all msg) (record r { req_hash = gen_hash e msg })

by_mode : Env → RecMode → Replica → Replica
unfolding rec1_message ask
by_mode e rec_from_disk r = recover_from_disk e r
by_mode e no_rec r = emit (request_monitor (pos 0)) (record r { cur_status = ready })
by_mode e rec_koala2 r = ask e (e.marshal_message (rec1_message e r)) r

-- The result tells whether there was an error.
unfoldable pub recovery_process : Env → RecMode → Replica → Replica × Bool
unfolding by_mode
recovery_process e mode r = if not (is_sleeping r.cur_status) then (r, true) else (
  by_mode e mode (record r { req_hash = none; h_view = negsuc 1; cur_status = recovering }),
  false,
)

send_if : Option Bytes → ℤ → Replica → Replica
send_if none dest r = r
send_if (some msg) dest r = emit (send_to_node msg dest) r

echo1_message : Env → HotStuffMessage → Replica → HotStuffMessage
echo1_message e content r =
    let last = sub_int r.view (pos 1) in
    record (zero_message MessageType.echo1) {
      source = r.id;
      view = last;
      hash = gen_hash e (or_empty (e.marshal_message content));
      v = IntBuffer.get_v r.timeout_buffer last;
    }

unfoldable pub handle_rec1_msg : Env → HotStuffMessage → Replica → Replica
unfolding send_if echo1_message
handle_rec1_msg e content r =
    send_if (e.marshal_message (echo1_message e content r)) content.source r

-- `num, exist := recBuffer.Get(hash)`, one more, and back.
unfoldable pub count_echo : Bytes → Replica → ℤ
count_echo hash r = add_int (StringIntMap.get r.rec_buffer hash).0 (pos 1)

record_echo : Bytes → Replica → Replica
record_echo hash r = record r {
  rec_buffer = StringIntMap.insert r.rec_buffer hash (count_echo hash r);
}

rec2_message : Env → Replica → HotStuffMessage
rec2_message e r = record (zero_message MessageType.rec2) {
  source = r.id;
  ts = e.clock 0;
  view = r.view;
}

-- The end of `HandleEcho1Msg`, behind its loop, which waits until the view has passed `hView + 2`.
unfoldable pub finish_echo1 : Env → Replica → Replica
unfolding rec2_message ask
finish_echo1 e r =
    if leb_ℤ r.view (add_int r.h_view (pos 2))
    then r
    else ask e (e.marshal_message (rec2_message e r)) r

raise_view : ℤ → Replica → Replica
raise_view v r = record r { h_view = if ltb_ℤ r.h_view v then v else r.h_view }

-- Count an answer whose certificate is verified; the flag says that the handler goes on to wait.
accept_echo1 : HotStuffMessage → Replica → Replica × Bool
unfolding record_echo raise_view
accept_echo1 content r =
    let hash = bytes_to_string content.hash in
    let r1 = raise_view content.view r in
    let num = count_echo hash r1 in
    let r2 = record_echo hash r1 in
    if leb_ℤ r.sizes.rec_quorum num
    then (update_buffer_content (echo1_key hash) prepared r2, true)
    else (r2, false)

unfoldable pub answers_request : HotStuffMessage → Replica → Bool
answers_request content r =
    is_recovering r.cur_status
    && bytes_eq (bytes_to_string content.hash) (bytes_to_string r.req_hash)

-- `HandleEcho1Msg` up to its loop.
unfoldable pub handle_echo1_msg : Env → HotStuffMessage → Replica → Replica × Bool
unfolding accept_echo1
handle_echo1_msg e content r =
    if not (answers_request content r) || is_prepared (echo1_key (bytes_to_string content.hash)) r
    then (r, false)
    else on_check (verify_tqc e r.sizes.quorum content.view content.v) ((crash r, false))
        ((r, false)) (accept_echo1 content r)

echo2_message : Env → HotStuffMessage → Replica → HotStuffMessage
echo2_message e content r = record (zero_message MessageType.echo2) {
  source = r.id;
  view = r.view;
  hash = gen_hash e (or_empty (e.marshal_message content));
  qc = some (or_empty (e.marshal_block r.cur_block));
  lqc = some (or_empty (e.marshal_block r.locked_block));
  com_blocks = e.marshal_blocks r.committed_blocks;
}

-- `HandleRec2Msg` spins until the view of the replica has reached that of the message: `none` while it
-- still waits.
unfoldable pub handle_rec2_msg : Env → HotStuffMessage → Replica → Option Replica
unfolding send_if echo2_message
handle_rec2_msg e content r =
    if ltb_ℤ r.view content.view
    then none
    else some (send_if (e.marshal_message (echo2_message e content r)) content.source r)

-- Take over the committed blocks at heights where there is none.
unfoldable pub merge_committed : Map ℤ Slice → IntByteMap → IntByteMap
merge_committed [] blocks = blocks
merge_committed ((key, b) ∷ m) blocks =
    merge_committed m
      (if (IntByteMap.get blocks key).1 then blocks else IntByteMap.insert blocks key b)

is_some : Slice → Bool
is_some none = false
is_some (some b) = true

unfoldable pub adopt_echoed : Env → QcBlock → QcBlock → Replica → Replica
unfolding is_some
adopt_echoed e qc lqc r =
    let r1 =
      if is_some qc.hash && ltb_ℤ r.cur_block.height qc.height
      then update_seq e qc.height (record r { cur_block = qc })
      else r in
    if is_some lqc.hash && ltb_ℤ r1.locked_block.height lqc.height
    then record r1 { locked_block = lqc }
    else r1

-- Enough answers end the recovery. (The code then sleeps for 100 ms before it says so.)
unfoldable pub accept_echo2 : Env → HotStuffMessage → QcBlock → QcBlock → Replica → Replica
unfolding record_echo
accept_echo2 e content qc lqc r =
    let hash = bytes_to_string content.hash in
    let r1 = adopt_echoed e qc lqc r in
    let num = count_echo hash r1 in
    let r2 = record_echo hash r1 in
    if leb_ℤ r.sizes.rec_quorum num
    then record (update_buffer_content (echo2_key hash) prepared r2) { cur_status = ready }
    else r2

both : Option Bool → Option Bool → Option Bool
both none y = none
both (some false) y = some false
both (some true) y = y

unfoldable pub handle_echo2_msg : Env → HotStuffMessage → Replica → Replica
unfolding both
handle_echo2_msg e content r =
    let r1 = record r {
      committed_blocks =
          merge_committed (e.unmarshal_blocks (bytes_to_string content.com_blocks))
            r.committed_blocks;
    } in
    let qc = e.unmarshal_block (bytes_to_string content.qc) in
    let lqc = e.unmarshal_block (bytes_to_string content.lqc) in
    let quorum = r.sizes.quorum in
    if not (answers_request content r1) || is_prepared (echo2_key (bytes_to_string content.hash)) r1
    then r1
    else on_check (both (verify_qc e quorum qc) (verify_qc e quorum lqc)) (crash r1) (r1)
        (accept_echo2 e content qc lqc r1)
