-- ===== src/Consensus/View.antt =====
-- viewchange.go: the view, its leader, timeouts and the change to the next view.
use sleepy_hot_stuff.Base.{
  ℕ, ◌+◌, ◌%◌, ◌||◌, not, Option, none, some, if◌then◌else◌, on_check, ◌==◌, Bytes, ℤ, pos, negsuc,
  eq_ℤ, ltb_ℤ, leb_ℤ, ◌-ℤ◌, add_int,
}
use sleepy_hot_stuff.Utils.Values.{int_to_bytes}
use sleepy_hot_stuff.Utils.IntByteMap
use sleepy_hot_stuff.Message.{MessageType, MessageWithSignature, HotStuffMessage, zero_message}
use sleepy_hot_stuff.Env.{Env}
use sleepy_hot_stuff.Crypto.{gen_sig}
use sleepy_hot_stuff.Db.{codes, persist_all, persist_critical, no_persist}
use sleepy_hot_stuff.Quorum.IntBuffer
use sleepy_hot_stuff.Consensus.State.{
  Replica, ready, view_change, is_sleeping, is_recovering, prepared, crash, emit, persist, or_empty,
  loopback, broadcast_all, send_to_node, rotating_timer,
}
use sleepy_hot_stuff.Consensus.Status.{is_prepared, update_buffer_content, view_hash, tqc_key}
use sleepy_hot_stuff.Consensus.Certificates.{verify_tqc}

-- Go's `%` rounds towards 0: the remainder has the sign of the dividend.
rem_int : ℤ → ℕ → ℤ
rem_int (pos v) n = pos (v % n)
rem_int (negsuc v) n = pos 0 -ℤ pos ((v + 1) % n)

unfoldable pub leader_id : Env → ℤ → ℤ
unfolding rem_int
leader_id e view = if e.num_replicas == 0 then pos 0 else rem_int view e.num_replicas

unfoldable pub set_view : Env → ℤ → Replica → Replica
set_view e v r =
    let r1 = persist e (codes "view") (int_to_bytes v) persist_critical (record r { view = v }) in
    record r1 { leader = eq_ℤ (leader_id e v) r.id }

-- message.SerializeWithSignature, its error dropped.
unfoldable pub serialize_with_signature : Env → Bytes → Bytes
serialize_with_signature e msg =
    or_empty (e.marshal_signed (record { msg = some msg; sig = gen_sig e msg }))

-- A message to oneself and then to all others.
unfoldable pub tell_everyone : Env → Bytes → Replica → Replica
tell_everyone e msg r =
    emit (broadcast_all msg) (emit (loopback (serialize_with_signature e msg)) r)

view_change_message : Env → Replica → HotStuffMessage
view_change_message e r = record (zero_message MessageType.viewchange) {
  source = r.id;
  view = r.view;
  ts = e.clock 1;
  num = r.sizes.n;
  seq = r.cur_block.height;
  pre_hash = some (or_empty (e.marshal_block r.cur_block));
}

-- To the leader of the view, which is perhaps this replica.
send_view_change : Env → Option Bytes → Replica → Replica
send_view_change e none r = r
send_view_change e (some msg) r =
    let cl = leader_id e r.view in
    let r1 = if eq_ℤ cl r.id then emit (loopback (serialize_with_signature e msg)) r else r in
    emit (send_to_node msg cl) r1

unfoldable pub hotstuff_start_vc : Env → Replica → Replica
unfolding view_change_message send_view_change
hotstuff_start_vc e r =
    let r1 = record r {
      vc_time = e.clock 0;
      cur_status = view_change;
      awaiting_blocks = IntByteMap.init;
    } in
    let r2 = persist e (codes "awaitingBlocks") (e.marshal_blocks IntByteMap.init) persist_all r1 in
    send_view_change e (e.marshal_message (view_change_message e r)) r2

unfoldable pub start_view_change : Env → ℤ → Replica → Replica
start_view_change e v r =
    if ltb_ℤ v r.view
    then r
    else (let next = add_int v (pos 1) in
        let r1 = set_view e next (record r { cur_status = view_change }) in
        let r2 = persist e (codes "view") (int_to_bytes next) persist_critical r1 in
        let r3 = hotstuff_start_vc e r2 in
        if eq_ℤ (leader_id e next) r.id
        then r3
        else emit (rotating_timer next) (record r3 { cur_status = ready }))

timeout_message : Env → ℤ → Replica → HotStuffMessage
timeout_message e v r = record (zero_message MessageType.timeout) {
  source = r.id;
  view = v;
  ts = e.clock 0;
  num = r.sizes.n;
}

-- A message that cannot be serialized is logged and dropped.
tell_if : Env → Option Bytes → Replica → Replica
tell_if e none r = r
tell_if e (some msg) r = tell_everyone e msg r

unfoldable pub timeout_handler : Env → ℤ → Replica → Replica
unfolding timeout_message tell_if
timeout_handler e v r =
    if is_sleeping r.cur_status || is_recovering r.cur_status
    then r
    else (if not (eq_ℤ e.persist_level no_persist)
        then start_view_change e v r
        else (if ltb_ℤ v r.view
            then r
            else tell_if e (e.marshal_message (timeout_message e v r))
                (record r { cur_status = view_change })))

tqc_message : ℤ → Replica → HotStuffMessage
tqc_message v r = record (zero_message MessageType.tqc) {
  view = v;
  source = r.id;
  v = IntBuffer.get_v r.timeout_buffer v;
}

unfoldable pub handle_timeout_msg : Env → HotStuffMessage → MessageWithSignature → Replica → Replica
unfolding tqc_message tell_if
handle_timeout_msg e content vcm r =
    let key = tqc_key (view_hash e content.view) in
    if ltb_ℤ content.view r.view
    then r
    else (if is_prepared key r
        then r
        else (let r1 = record r {
          timeout_buffer = IntBuffer.insert_value r.timeout_buffer content.view content.source vcm;
        } in
            if leb_ℤ r.sizes.quorum (pos (IntBuffer.get_len r1.timeout_buffer content.view))
            then tell_if e (e.marshal_message (tqc_message content.view r1))
                (update_buffer_content key prepared r1)
            else r1))

unfoldable pub view_change_in_recovery : Env → ℤ → Replica → Replica
view_change_in_recovery e v r = if ltb_ℤ v r.view then r else set_view e (add_int v (pos 1)) r

-- The rest of `HandleTQCMsg` after the view change: keep the certificate and forward it once.
forward_tqc : Option Bytes → Replica → Replica
forward_tqc none r = r
forward_tqc (some msg) r = emit (broadcast_all msg) r

unfoldable pub store_tqc : Env → HotStuffMessage → Replica → Replica
unfolding forward_tqc
store_tqc e content r =
    let key = tqc_key (view_hash e content.view) in
    if is_prepared key r
    then r
    else forward_tqc (e.marshal_message content) (
        update_buffer_content key prepared (record r {
          timeout_buffer = IntBuffer.insert_v r.timeout_buffer content.view content.v;
        }))

unfoldable pub handle_tqc_msg : Env → HotStuffMessage → Replica → Replica
handle_tqc_msg e content r =
    on_check (verify_tqc e r.sizes.quorum content.view content.v) (crash r) (r) (
      if ltb_ℤ content.view r.view
      then r
      else store_tqc e content (
          if is_recovering r.cur_status
          then view_change_in_recovery e content.view r
          else start_view_change e content.view r))
