-- ===== src/Consensus/NewLeader.antt =====
-- viewchange.go: what the leader of the next view does with view-change messages, and the NEWVIEW
-- message that no code of the repository sends.
use sleepy_hot_stuff.Base.{
  Bool, true, false, ◌&&◌, not, none, some, [], ◌∷◌, if◌then◌else◌, on_check, Bytes, ℤ, pos, eq_ℤ,
  ltb_ℤ, leb_ℤ, add_int,
}
use sleepy_hot_stuff.Utils.Values.{Slice, bytes_to_string}
use sleepy_hot_stuff.Utils.IntIntMap
use sleepy_hot_stuff.Utils.Map.{Map}
use sleepy_hot_stuff.Message.{MessageWithSignature, HotStuffMessage, QcBlock}
use sleepy_hot_stuff.Env.{Env}
use sleepy_hot_stuff.Db.{codes, persist_all}
use sleepy_hot_stuff.Quorum.IntBuffer
use sleepy_hot_stuff.Consensus.State.{
  Replica, ready, is_ready, prepared, crash, emit, persist, or_empty, loopback, request_monitor,
}
use sleepy_hot_stuff.Consensus.Status.{is_prepared, update_buffer_content, view_hash, vcqc_key}
use sleepy_hot_stuff.Consensus.Certificates.{verify_qc}
use sleepy_hot_stuff.Consensus.Sequence.{update_seq}
use sleepy_hot_stuff.Consensus.View.{leader_id, set_view}

drop_awaiting : Env → ℤ → ℤ → Replica → Replica
drop_awaiting e view height r =
    if ltb_ℤ (IntIntMap.get r.vc_awaiting_votes view).0 height
    then (let left = IntIntMap.delete r.vc_awaiting_votes view in
        persist e (codes "vcAwaitingVotes") (e.marshal_numbers left) persist_all
          (record r { vc_awaiting_votes = left }))
    else r

is_some : Slice → Bool
is_some none = false
is_some (some b) = true

-- The block that a view-change message carries replaces a lower one.
unfoldable pub adopt_block : Env → ℤ → QcBlock → Replica → Replica
unfolding drop_awaiting is_some
adopt_block e view cb r =
    if is_some cb.hash && leb_ℤ r.cur_block.height cb.height
    then (let r1 =
          persist e (codes "curBlock") (e.marshal_block cb) persist_all
            (record r { cur_block = cb }) in
        drop_awaiting e view cb.height (update_seq e cb.height r1))
    else r

-- Enough messages make the replica the leader of the view.
unfoldable pub lead_if_quorum : Env → ℤ → Replica → Replica
lead_if_quorum e view r =
    if leb_ℤ r.sizes.quorum (pos (IntBuffer.get_len r.intbuffer view))
    then emit (request_monitor view)
        (record (update_buffer_content (vcqc_key (view_hash e view)) prepared (set_view e view r)) {
          cur_status = ready;
        })
    else r

unfoldable pub collect_vc :
    Env → HotStuffMessage → MessageWithSignature → QcBlock → Replica → Replica
collect_vc e content vcm cb r =
    if is_prepared (vcqc_key (view_hash e content.view)) r
    then r
    else (let r1 = record r {
      intbuffer = IntBuffer.insert_value r.intbuffer content.view content.source vcm;
    } in
        let r2 = adopt_block e content.view cb r1 in
        if is_ready r2.cur_status then r2 else lead_if_quorum e content.view r2)

unfoldable pub handle_qcvc_message :
    Env → HotStuffMessage → MessageWithSignature → Replica → Replica
handle_qcvc_message e content vcm r =
    let cb = e.unmarshal_block (bytes_to_string content.pre_hash) in
    if ltb_ℤ content.view r.view
    then r
    else (if not (eq_ℤ content.view r.view) && not (eq_ℤ content.view (add_int r.view (pos 1)))
        then r
        else (if not (eq_ℤ (leader_id e content.view) r.id)
            then r
            else on_check (verify_qc e r.sizes.quorum cb) (crash r) (r)
                (collect_vc e content vcm cb r)))

-- Each operation of the message is handled in a goroutine of its own.
unfoldable pub replay : Env → Map ℤ MessageWithSignature → Replica → Replica
replay e [] r = r
replay e ((k, rm) ∷ ops) r = replay e ops (emit (loopback (or_empty (e.marshal_signed rm))) r)

unfoldable pub handle_qc_new_view : Env → Bytes → Replica → Replica
handle_qc_new_view e rawmsg r =
    let vcm = e.unmarshal_view_change rawmsg in
    replay e vcm.o (record r { leader = eq_ℤ (leader_id e vcm.view) r.id; cur_status = ready })
