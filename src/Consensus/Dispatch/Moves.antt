-- ===== src/Consensus/Dispatch/Moves.antt =====
-- The handlers that change the view: each enters a view that is not lower, and leads it as it should.
use sleepy_hot_stuff.Base.{
  ◌≡◌, refl, false, not, ◌&&◌, Option, arith, if_rule, check_rule, Bytes, ℤ, pos, ◌≤ℤ◌, ◌<ℤ◌, leb_ℤ,
  ltb_ℤ, eq_ℤ, add_int, ◌+ℤ◌, max_int, min_int,
}
use sleepy_hot_stuff.Utils.Values.{bytes_to_string}
use sleepy_hot_stuff.Quorum.IntBuffer
use sleepy_hot_stuff.Quorum.IntBuffer.{IntBuffer}
use sleepy_hot_stuff.Message.{MessageWithSignature, HotStuffMessage, QcBlock}
use sleepy_hot_stuff.Env.{Env}
use sleepy_hot_stuff.Consensus.State.{
  Replica, Effect, Status, view_change, is_ready, is_recovering, emit, persist,
}
use sleepy_hot_stuff.Consensus.Status.{is_prepared, update_buffer_content, vcqc_key, view_hash}
use sleepy_hot_stuff.Consensus.Certificates.{verify_tqc, verify_qc}
use sleepy_hot_stuff.Consensus.Sequence.{update_seq}
use sleepy_hot_stuff.Consensus.View.{
  leader_id, set_view, hotstuff_start_vc, start_view_change, view_change_in_recovery, store_tqc,
  handle_tqc_msg,
}
use sleepy_hot_stuff.Consensus.NewLeader.{
  adopt_block, lead_if_quorum, collect_vc, handle_qcvc_message,
}
use sleepy_hot_stuff.Consensus.Dispatch.Kept.{SameView, same, then_same, Kept-SameView}
use sleepy_hot_stuff.Consensus.Dispatch.Frame.{crash-Kept}

-- What a handler does to the view: nothing, or it enters a view that is not lower, and then leads
-- exactly if the replica is the leader of that view.
pub data ViewMove (e : Env) (r r' : Replica) : Type 0 where
  stays : SameView r r' → ViewMove e r r'
  moves :
      r.view ≤ℤ r'.view
      → r'.leader ≡ eq_ℤ (leader_id e r'.view) r'.id
      → r'.id ≡ r.id
      → ViewMove e r r'

next_view : (v w : ℤ) → ltb_ℤ v w ≡ false → min_int ≤ℤ w → v <ℤ max_int → w ≤ℤ add_int v (pos 1)
unfolding add_int ◌+ℤ◌
next_view v w h lo hi = ground arith

then_stays : (e : Env) {r s t : Replica} → ViewMove e r s → SameView s t → ViewMove e r t
then_stays e (stays p) q = stays (then_same p q)
then_stays e (moves a b c) q = moves (ground arith) (ground arith) (ground arith)

pub same_then : (e : Env) {r s t : Replica} → SameView r s → ViewMove e s t → ViewMove e r t
same_then e p (stays q) = stays (then_same p q)
same_then e p (moves a b c) = moves (ground arith) (ground arith) (ground arith)

module _ (e : Env) where
  entered : (v : ℤ) (r s : Replica) → SameView r s → r.view ≤ℤ v → ViewMove e r (set_view e v s)
  unfolding set_view persist
  entered v r s p h = moves h refl p.id

  set_view-ViewMove : (v : ℤ) (r : Replica) → r.view ≤ℤ v → ViewMove e r (set_view e v r)
  set_view-ViewMove v r h = entered v r r same h

  with_status-SameView : (x : Status) (r : Replica) → SameView r (record r { cur_status = x })
  with_status-SameView x r = record { view = refl; leader = refl; id = refl }

  pub persist-SameView :
      (key : Bytes) (value : Option Bytes) (level : ℤ) (r : Replica)
      → SameView r (persist e key value level r)
  unfolding persist
  persist-SameView key value level r = record { view = refl; leader = refl; id = refl }

  pub armed-SameView :
      (x : Effect) (s : Status) (r : Replica) → SameView r (emit x (record r { cur_status = s }))
  unfolding emit
  armed-SameView x s r = record { view = refl; leader = refl; id = refl }

  pub hotstuff_start_vc-SameView : (r : Replica) → SameView r (hotstuff_start_vc e r)
  unfolding hotstuff_start_vc persist emit
  hotstuff_start_vc-SameView r = ground arith

  start_view_change-ViewMove :
      (v : ℤ) (r : Replica)
      → min_int ≤ℤ r.view
      → v <ℤ max_int
      → ViewMove e r (start_view_change e v r)
  unfolding start_view_change
  start_view_change-ViewMove v r lo hi =
      if_rule (ViewMove e r) (ltb_ℤ v r.view) (λ _. stays same)
        (λ h.
          let next = add_int v (pos 1) in
          then_stays e
            (entered next r _ (with_status-SameView view_change r) (next_view v r.view h lo hi))
            (then_same (persist-SameView _ _ _ _) (
              then_same (hotstuff_start_vc-SameView _) (
                if_rule (SameView _) (eq_ℤ (leader_id e next) r.id) (λ _. same)
                  (λ _. armed-SameView _ _ _)))))

  view_change_in_recovery-ViewMove :
      (v : ℤ) (r : Replica)
      → min_int ≤ℤ r.view
      → v <ℤ max_int
      → ViewMove e r (view_change_in_recovery e v r)
  unfolding view_change_in_recovery
  view_change_in_recovery-ViewMove v r lo hi =
      if_rule (ViewMove e r) (ltb_ℤ v r.view) (λ _. stays same)
        (λ h. set_view-ViewMove (add_int v (pos 1)) r (next_view v r.view h lo hi))

  pub store_tqc-SameView :
      (content : HotStuffMessage) (r : Replica) → SameView r (store_tqc e content r)
  unfolding store_tqc update_buffer_content emit
  store_tqc-SameView content r = ground arith

  pub handle_tqc_msg-ViewMove :
      (content : HotStuffMessage) (r : Replica)
      → min_int ≤ℤ r.view
      → content.view <ℤ max_int
      → ViewMove e r (handle_tqc_msg e content r)
  unfolding handle_tqc_msg
  handle_tqc_msg-ViewMove content r lo hi =
      check_rule (ViewMove e r) (verify_tqc e r.sizes.quorum content.view content.v)
        (λ _. stays (Kept-SameView (crash-Kept e r))) (λ _. stays same)
        (λ _.
          if_rule (ViewMove e r) (ltb_ℤ content.view r.view) (λ _. stays same)
            (λ _.
              then_stays e
                (if_rule (ViewMove e r) (is_recovering r.cur_status)
                  (λ _. view_change_in_recovery-ViewMove content.view r lo hi)
                  (λ _. start_view_change-ViewMove content.view r lo hi))
                (store_tqc-SameView content _)))

  adopt_block-SameView :
      (view : ℤ) (cb : QcBlock) (r : Replica) → SameView r (adopt_block e view cb r)
  unfolding adopt_block update_seq persist
  adopt_block-SameView view cb r = ground arith

  lead_if_quorum-ViewMove :
      (v : ℤ) (r : Replica) → r.view ≤ℤ v → ViewMove e r (lead_if_quorum e v r)
  unfolding lead_if_quorum set_view update_buffer_content persist emit
  lead_if_quorum-ViewMove v r h =
      if_rule (ViewMove e r) (leb_ℤ r.sizes.quorum (pos (IntBuffer.get_len r.intbuffer v)))
        (λ _. moves h refl refl) (λ _. stays same)

  collected-SameView : (b : IntBuffer) (r : Replica) → SameView r (record r { intbuffer = b })
  collected-SameView b r = record { view = refl; leader = refl; id = refl }

  collect_vc-ViewMove :
      (content : HotStuffMessage) (vcm : MessageWithSignature) (cb : QcBlock) (r : Replica)
      → r.view ≤ℤ content.view
      → ViewMove e r (collect_vc e content vcm cb r)
  unfolding collect_vc
  collect_vc-ViewMove content vcm cb r h =
      if_rule (ViewMove e r) (is_prepared (vcqc_key (view_hash e content.view)) r) (λ _. stays same)
        (λ _.
          let collected : Replica = record r {
            intbuffer = IntBuffer.insert_value r.intbuffer content.view content.source vcm;
          } in
          let adopted : Replica = adopt_block e content.view cb collected in
          let before : SameView r adopted =
            then_same (collected-SameView collected.intbuffer r)
              (adopt_block-SameView content.view cb collected) in
          if_rule (ViewMove e r) (is_ready adopted.cur_status) (λ _. stays before)
            (λ _. same_then e before (lead_if_quorum-ViewMove content.view adopted (ground arith))))

  pub handle_qcvc_message-ViewMove :
      (content : HotStuffMessage) (vcm : MessageWithSignature) (r : Replica)
      → ViewMove e r (handle_qcvc_message e content vcm r)
  unfolding handle_qcvc_message
  handle_qcvc_message-ViewMove content vcm r =
      let cb = e.unmarshal_block (bytes_to_string content.pre_hash) in
      if_rule (ViewMove e r) (ltb_ℤ content.view r.view) (λ _. stays same)
        (λ h.
          if_rule (ViewMove e r)
            (not (eq_ℤ content.view r.view) && not (eq_ℤ content.view (add_int r.view (pos 1))))
            (λ _. stays same)
            (λ _.
              if_rule (ViewMove e r) (not (eq_ℤ (leader_id e content.view) r.id)) (λ _. stays same)
                (λ _.
                  check_rule (ViewMove e r) (verify_qc e r.sizes.quorum cb)
                    (λ _. stays (Kept-SameView (crash-Kept e r))) (λ _. stays same)
                    (λ _. collect_vc-ViewMove content vcm cb r (ground arith)))))
