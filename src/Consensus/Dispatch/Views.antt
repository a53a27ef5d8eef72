-- ===== src/Consensus/Dispatch/Views.antt =====
-- The view of a replica and its belief that it leads, over all handlers.
use sleepy_hot_stuff.Base.{
  ◌≡◌, ◌≢◌, refl, not, ◌||◌, ◌&&◌, arith, if_rule, Bytes, ℤ, ◌≤ℤ◌, ◌<ℤ◌, eq_ℤ, eq_ℤ_iff, max_int,
  min_int,
}
use sleepy_hot_stuff.Utils.Values.{bytes_to_string}
use sleepy_hot_stuff.Message.{
  MessageType, MessageWithSignature, HotStuffMessage, qc, qcrep, timeout, tqc, viewchange, newview,
  rec1, echo1, rec2, echo2,
}
use sleepy_hot_stuff.Env.{Env}
use sleepy_hot_stuff.Consensus.State.{Replica, ready, is_recovering, is_sleeping, set_live}
use sleepy_hot_stuff.Consensus.View.{leader_id}
use sleepy_hot_stuff.Consensus.NewLeader.{handle_qc_new_view}
use sleepy_hot_stuff.Consensus.Dispatch.{or_wait, switch, is_for_recovery, handle_qc_byte_msg}
use sleepy_hot_stuff.Consensus.Dispatch.Kept.{SameView, same, Kept-SameView}
use sleepy_hot_stuff.Consensus.Dispatch.Frame.{
  handle_normal_msg-Kept, handle_normal_rep_msg-SameView, handle_timeout_msg-Kept,
  handle_rec1_msg-Kept, handle_echo1_msg-Kept, handle_echo2_msg-Kept, waiting-Kept, replay-Kept,
}
use sleepy_hot_stuff.Consensus.Dispatch.Moves.{
  ViewMove, stays, moves, same_then, handle_tqc_msg-ViewMove, handle_qcvc_message-ViewMove,
}

-- The leader's part of NEWVIEW aside, a message keeps the view or raises it.
switch-ViewMove :
    (e : Env) (t : MessageType) (content : HotStuffMessage) (tmp : MessageWithSignature)
    (r : Replica)
    → t ≢ newview
    → min_int ≤ℤ r.view
    → content.view <ℤ max_int
    → ViewMove e r (switch e t content tmp r)
unfolding switch or_wait
switch-ViewMove e qc content tmp r n lo hi =
    stays (Kept-SameView (handle_normal_msg-Kept e content r))
switch-ViewMove e qcrep content tmp r n lo hi = stays (handle_normal_rep_msg-SameView e content r)
switch-ViewMove e timeout content tmp r n lo hi =
    stays (Kept-SameView (handle_timeout_msg-Kept e content tmp r))
switch-ViewMove e tqc content tmp r n lo hi = handle_tqc_msg-ViewMove e content r lo hi
switch-ViewMove e viewchange content tmp r n lo hi = handle_qcvc_message-ViewMove e content tmp r
switch-ViewMove e newview content tmp r n lo hi = absurd (n refl)
switch-ViewMove e rec1 content tmp r n lo hi =
    stays (Kept-SameView (handle_rec1_msg-Kept e content r))
switch-ViewMove e echo1 content tmp r n lo hi =
    stays (Kept-SameView (handle_echo1_msg-Kept e content r))
switch-ViewMove e rec2 content tmp r n lo hi = stays (Kept-SameView (waiting-Kept e content r))
switch-ViewMove e echo2 content tmp r n lo hi =
    stays (Kept-SameView (handle_echo2_msg-Kept e content r))
switch-ViewMove e _ content tmp r n lo hi = stays same

lower_bound : (source : ℤ) (r : Replica) → min_int ≤ℤ r.view → min_int ≤ℤ (set_live source r).view
unfolding set_live
lower_bound source r lo = lo

-- The message inside the bytes that arrive.
abbrev pub received : Env → Bytes → HotStuffMessage
received e input = e.unmarshal_message (bytes_to_string (e.unmarshal_signed input).msg)

live-SameView : (source : ℤ) (r : Replica) → SameView r (set_live source r)
unfolding set_live
live-SameView source r = record { view = refl; leader = refl; id = refl }

handle_qc_byte_msg-ViewMove :
    (e : Env) (input : Bytes) (r : Replica)
    → (received e input).mtype ≢ newview
    → min_int ≤ℤ r.view
    → (received e input).view <ℤ max_int
    → ViewMove e r (handle_qc_byte_msg e input r)
unfolding handle_qc_byte_msg
handle_qc_byte_msg-ViewMove e input r n lo hi =
    let content = received e input in
    let alive = set_live content.source r in
    if_rule (ViewMove e r)
      (is_sleeping alive.cur_status
        || (is_recovering alive.cur_status && not (is_for_recovery content.mtype)))
      (λ _. stays (live-SameView content.source r))
      (λ _. same_then e (live-SameView content.source r) (
        switch-ViewMove e content.mtype content (e.unmarshal_signed input) alive n
          (lower_bound content.source r lo) hi))

-- The replica believes that it leads exactly if it is the leader of its view.
abbrev pub Leads : Env → Replica → Type 0
Leads e r = r.leader ≡ eq_ℤ (leader_id e r.view) r.id

moved :
    (e : Env) (r r' : Replica)
    → ViewMove e r r'
    → Leads e r
    → (r.view ≤ℤ r'.view) × Leads e r' × (r'.id ≡ r.id)
moved e r r' (stays p) l = (ground arith, ground arith, p.id)
moved e r r' (moves a b c) l = (a, b, c)

-- At a replica whose view is a 64-bit integer and that believes that it leads exactly if it is the
-- leader of its view, a message that is not NEWVIEW, and whose view is below the largest integer,
-- does not lower the view, keeps that belief right, and does not change the id.
pub handle_qc_byte_msg-keeps_leader :
    (e : Env) (input : Bytes) (r : Replica)
    → (received e input).mtype ≢ newview
    → min_int ≤ℤ r.view
    → (received e input).view <ℤ max_int
    → Leads e r
    → (r.view ≤ℤ (handle_qc_byte_msg e input r).view)
      × Leads e (handle_qc_byte_msg e input r)
      × ((handle_qc_byte_msg e input r).id ≡ r.id)
handle_qc_byte_msg-keeps_leader e input r n lo hi l =
    moved e r _ (handle_qc_byte_msg-ViewMove e input r n lo hi) l

-- A NEWVIEW message of any view that the replica would lead, signed by no matter whom, makes it believe
-- that it leads the view that it is in, which another replica leads.
pub handle_qc_new_view-usurps :
    (e : Env) (raw : Bytes) (r : Replica)
    → leader_id e (e.unmarshal_view_change raw).view ≡ r.id
    → leader_id e r.view ≢ r.id
    → ¬ Leads e (handle_qc_new_view e raw r)
unfolding handle_qc_new_view
handle_qc_new_view-usurps e raw r h n l =
    let vcm = e.unmarshal_view_change raw in
    ground (
      arith,
      replay-Kept e vcm.o
          (record r { leader = eq_ℤ (leader_id e vcm.view) r.id; cur_status = ready }),
      eq_ℤ_iff (leader_id e vcm.view) r.id,
      eq_ℤ_iff (leader_id e r.view) r.id,
    )
