-- ===== src/Consensus/Dispatch.antt =====
-- hotstuff.go `HandleQCByteMsg`, and a replica as a state machine over its events. Each event brings
-- the readings of the clock that its handler takes.
pub mod Kept
pub mod Frame
pub mod Moves
pub mod Advance
pub mod ViewBallots
pub mod Vouched
pub mod Genuine
pub mod Requests
pub mod Turns
pub mod Order
pub mod Agreement
pub mod Views
use sleepy_hot_stuff.Base.{
  ℕ, ◌≡◌, refl, Bool, true, false, ◌||◌, ◌&&◌, not, Option, none, some, List, [], ◌∷◌,
  if◌then◌else◌, Bytes, ℤ,
}
use sleepy_hot_stuff.Utils.Values.{bytes_to_string}
use sleepy_hot_stuff.Message.{
  MessageType, MessageWithSignature, HotStuffMessage, qc, qcrep, timeout, tqc, viewchange, newview,
  rec1, echo1, rec2, echo2,
}
use sleepy_hot_stuff.Env.{Env}
use sleepy_hot_stuff.Queue.{append, append_batch}
use sleepy_hot_stuff.Utils.Values.{Slice}
use sleepy_hot_stuff.Db.{codes, persist_all}
use sleepy_hot_stuff.Consensus.State.{
  Replica, Status, is_sleeping, is_recovering, crash, set_live, persist,
}
use sleepy_hot_stuff.Consensus.View.{timeout_handler, handle_timeout_msg, handle_tqc_msg}
use sleepy_hot_stuff.Consensus.NewLeader.{handle_qcvc_message, handle_qc_new_view}
use sleepy_hot_stuff.Consensus.Block.{handle_normal_msg}
use sleepy_hot_stuff.Consensus.Propose.{monitor_turn, handle_normal_rep_msg}
use sleepy_hot_stuff.Consensus.Recovery.{
  RecMode, recovery_process, handle_rec1_msg, handle_echo1_msg, finish_echo1, handle_rec2_msg,
  handle_echo2_msg,
}
use sleepy_hot_stuff.Consensus.Start.{fall_asleep, wake_up}

-- What a recovering replica reads.
abbrev pub is_for_recovery : MessageType → Bool
is_for_recovery echo1 = true
is_for_recovery echo2 = true
is_for_recovery tqc = true
is_for_recovery _ = false

-- The `switch`. A REC2 handler that still waits leaves the replica as it is.
unfoldable pub or_wait : Replica → Option Replica → Replica
or_wait r none = r
or_wait r (some r') = r'

unfoldable pub switch :
    Env → MessageType → HotStuffMessage → MessageWithSignature → Replica → Replica
switch e qc content tmp r = handle_normal_msg e content r
switch e qcrep content tmp r = handle_normal_rep_msg e content r
switch e timeout content tmp r = handle_timeout_msg e content tmp r
switch e tqc content tmp r = handle_tqc_msg e content r
switch e viewchange content tmp r = handle_qcvc_message e content tmp r
switch e newview content tmp r = handle_qc_new_view e (bytes_to_string tmp.msg) r
switch e rec1 content tmp r = handle_rec1_msg e content r
switch e echo1 content tmp r = (handle_echo1_msg e content r).0
switch e rec2 content tmp r = or_wait r (handle_rec2_msg e content r)
switch e echo2 content tmp r = handle_echo2_msg e content r
switch e _ content tmp r = r

unfoldable pub handle_qc_byte_msg : Env → Bytes → Replica → Replica
handle_qc_byte_msg e input r =
    let tmp = e.unmarshal_signed input in
    let content = e.unmarshal_message (bytes_to_string tmp.msg) in
    let r1 = set_live content.source r in
    if is_sleeping r1.cur_status
      || (is_recovering r1.cur_status && not (is_for_recovery content.mtype))
    then r1
    else switch e content.mtype content tmp r1

-- events.go: `HandleRequest` and `HandleBatchRequest`, behind the decoding of the batch. An
-- empty batch panics, since its first request is measured.
unfoldable pub handle_request : Env → Slice → Replica → Replica
handle_request e request r =
    let q = append r.queue request in
    persist e (codes "queue") (e.marshal_queue q) persist_all (record r { queue = q })

unfoldable pub handle_batch_request : Env → List Slice → Replica → Replica
handle_batch_request e [] r = crash r
handle_batch_request e (x ∷ requests) r =
    let q = append_batch r.queue (x ∷ requests) in
    persist e (codes "queue") (e.marshal_queue q) persist_all (record r { queue = q })

pub data Event : Type 0 where
  message : Bytes → Event
  timer : ℤ → Event
  monitor : ℤ → Event
  request : Slice → Event
  requests : List Slice → Event
  echo1_goes_on : Event
  sleeps : Event
  wakes : Event
  recovers : RecMode → Event

unfoldable pub step : Env → Event → Replica → Replica
step e (message input) r = handle_qc_byte_msg e input r
step e (timer v) r = timeout_handler e v r
step e (monitor v) r = (monitor_turn e v r).0
step e (request x) r = handle_request e x r
step e (requests xs) r = handle_batch_request e xs r
step e echo1_goes_on r = finish_echo1 e r
step e sleeps r = fall_asleep r
step e wakes r = wake_up e r
step e (recovers mode) r = (recovery_process e mode r).0

-- A history. A process that has ended takes no more steps.
unfoldable pub run : Env → List ((ℕ → ℤ) × Event) → Replica → Replica
run e [] r = r
run e ((clock, ev) ∷ evs) r =
    run e evs (if r.halted then r else step (record e { clock = clock }) ev r)
