-- ===== src/Consensus/Dispatch/ViewBallots.antt =====
-- View changes and recovery leave the collected votes and the queue as they are too, and proposals and
-- requests the votes.
use sleepy_hot_stuff.Base.{
  refl, Bool, ◌||◌, ◌&&◌, not, List, [], ◌∷◌, arith, if_rule, check_rule, Bytes, ℤ, pos, eq_ℤ,
  leb_ℤ, ltb_ℤ, length, add_int, ltb, ◌==◌,
}
use sleepy_hot_stuff.Utils.Values.{Slice, bytes_to_string}
use sleepy_hot_stuff.Message.{MessageWithSignature, HotStuffMessage, QcBlock}
use sleepy_hot_stuff.Env.{Env}
use sleepy_hot_stuff.Db.{persist_critical, persist_all, Recovered, read, failed}
use sleepy_hot_stuff.Quorum.IntBuffer
use sleepy_hot_stuff.Utils.IntByteMap
use sleepy_hot_stuff.Quorum.IntBuffer.{IntBuffer}
use sleepy_hot_stuff.Consensus.State.{
  Replica, is_ready, is_sleeping, is_recovering, emit, persist, crash, set_live,
}
use sleepy_hot_stuff.Consensus.Status.{update_buffer_content, is_prepared, vcqc_key, view_hash}
use sleepy_hot_stuff.Consensus.Sequence.{increment, update_seq}
use sleepy_hot_stuff.Consensus.Certificates.{verify_tqc}
use sleepy_hot_stuff.Consensus.View.{
  leader_id, set_view, tell_everyone, hotstuff_start_vc, start_view_change, timeout_handler,
  view_change_in_recovery, store_tqc, handle_tqc_msg,
}
use sleepy_hot_stuff.Consensus.NewLeader.{
  adopt_block, lead_if_quorum, collect_vc, handle_qcvc_message, handle_qc_new_view,
}
use sleepy_hot_stuff.Consensus.Propose.{start_hotstuff, monitor_turn}
use sleepy_hot_stuff.Consensus.Recovery.{
  RecMode, rec_from_disk, no_rec, rec_koala2, restore, recover_from_disk, recovery_process,
  finish_echo1,
}
use sleepy_hot_stuff.Consensus.Dispatch.{handle_request, handle_batch_request}
use sleepy_hot_stuff.Consensus.Dispatch.Kept.{
  SameVotes, Untouched, untouched, then_again, Kept-Untouched,
}
use sleepy_hot_stuff.Consensus.Dispatch.Frame.{crash-Kept, replay-Kept}

module _ (e : Env) where
  pub set_live-Untouched : (source : ℤ) (r : Replica) → Untouched r (set_live source r)
  unfolding set_live
  set_live-Untouched source r = record { votes = refl; cer = refl; queue = refl }

  set_view-Untouched : (v : ℤ) (r : Replica) → Untouched r (set_view e v r)
  unfolding set_view persist
  set_view-Untouched v r = record { votes = refl; cer = refl; queue = refl }

  hotstuff_start_vc-Untouched : (r : Replica) → Untouched r (hotstuff_start_vc e r)
  unfolding hotstuff_start_vc persist emit
  hotstuff_start_vc-Untouched r = ground arith

  pub start_view_change-Untouched : (v : ℤ) (r : Replica) → Untouched r (start_view_change e v r)
  unfolding start_view_change set_view persist emit
  start_view_change-Untouched v r =
      if_rule (Untouched r) (ltb_ℤ v r.view) (λ _. untouched)
        (λ _.
          then_again (record { votes = refl; cer = refl; queue = refl })
            (then_again (hotstuff_start_vc-Untouched _) (
              if_rule (Untouched _) (eq_ℤ (leader_id e (add_int v (pos 1))) r.id) (λ _. untouched)
                (λ _. record { votes = refl; cer = refl; queue = refl }))))

  view_change_in_recovery-Untouched :
      (v : ℤ) (r : Replica) → Untouched r (view_change_in_recovery e v r)
  unfolding view_change_in_recovery
  view_change_in_recovery-Untouched v r =
      if_rule (Untouched r) (ltb_ℤ v r.view) (λ _. untouched) (λ _. set_view-Untouched _ r)

  store_tqc-Untouched :
      (content : HotStuffMessage) (r : Replica) → Untouched r (store_tqc e content r)
  unfolding store_tqc update_buffer_content emit
  store_tqc-Untouched content r = ground arith

  pub handle_tqc_msg-Untouched :
      (content : HotStuffMessage) (r : Replica) → Untouched r (handle_tqc_msg e content r)
  unfolding handle_tqc_msg
  handle_tqc_msg-Untouched content r =
      check_rule (Untouched r) (verify_tqc e r.sizes.quorum content.view content.v)
        (λ _. Kept-Untouched (crash-Kept e r)) (λ _. untouched)
        (λ _.
          if_rule (Untouched r) (ltb_ℤ content.view r.view) (λ _. untouched)
            (λ _.
              then_again
                (if_rule (Untouched r) (is_recovering r.cur_status)
                  (λ _. view_change_in_recovery-Untouched content.view r)
                  (λ _. start_view_change-Untouched content.view r))
                (store_tqc-Untouched content _)))

  adopt_block-Untouched :
      (view : ℤ) (cb : QcBlock) (r : Replica) → Untouched r (adopt_block e view cb r)
  unfolding adopt_block update_seq persist
  adopt_block-Untouched view cb r = ground arith

  lead_if_quorum-Untouched : (v : ℤ) (r : Replica) → Untouched r (lead_if_quorum e v r)
  unfolding lead_if_quorum set_view update_buffer_content persist emit
  lead_if_quorum-Untouched v r =
      if_rule (Untouched r) (leb_ℤ r.sizes.quorum (pos (IntBuffer.get_len r.intbuffer v)))
        (λ _. record { votes = refl; cer = refl; queue = refl }) (λ _. untouched)

  collected-Untouched : (b : IntBuffer) (r : Replica) → Untouched r (record r { intbuffer = b })
  collected-Untouched b r = record { votes = refl; cer = refl; queue = refl }

  collect_vc-Untouched :
      (content : HotStuffMessage) (vcm : MessageWithSignature) (cb : QcBlock) (r : Replica)
      → Untouched r (collect_vc e content vcm cb r)
  unfolding collect_vc
  collect_vc-Untouched content vcm cb r =
      if_rule (Untouched r) (is_prepared (vcqc_key (view_hash e content.view)) r) (λ _. untouched)
        (λ _.
          let collected : Replica = record r {
            intbuffer = IntBuffer.insert_value r.intbuffer content.view content.source vcm;
          } in
          let adopted : Replica = adopt_block e content.view cb collected in
          let before : Untouched r adopted =
            then_again (collected-Untouched collected.intbuffer r)
              (adopt_block-Untouched content.view cb collected) in
          if_rule (Untouched r) (is_ready adopted.cur_status) (λ _. before)
            (λ _. then_again before (lead_if_quorum-Untouched content.view adopted)))

  pub handle_qcvc_message-Untouched :
      (content : HotStuffMessage) (vcm : MessageWithSignature) (r : Replica)
      → Untouched r (handle_qcvc_message e content vcm r)
  unfolding handle_qcvc_message crash
  handle_qcvc_message-Untouched content vcm r = ground (
    arith,
    collect_vc-Untouched content vcm (e.unmarshal_block (bytes_to_string content.pre_hash)) r,
  )

  pub handle_qc_new_view-Untouched :
      (raw : Bytes) (r : Replica) → Untouched r (handle_qc_new_view e raw r)
  unfolding handle_qc_new_view
  handle_qc_new_view-Untouched raw r =
      then_again (record { votes = refl; cer = refl; queue = refl })
        (Kept-Untouched (replay-Kept e (e.unmarshal_view_change raw).o _))

  pub timeout_handler-Untouched : (v : ℤ) (r : Replica) → Untouched r (timeout_handler e v r)
  unfolding timeout_handler tell_everyone emit
  timeout_handler-Untouched v r = ground (arith, start_view_change-Untouched v r)

  pub monitor_turn-SameVotes : (v : ℤ) (r : Replica) → SameVotes r (monitor_turn e v r).0
  unfolding monitor_turn start_hotstuff increment tell_everyone persist emit
  monitor_turn-SameVotes v r =
      if_rule (λ (x : Replica × Bool). SameVotes r x.0)
        (not (eq_ℤ v r.view) || is_sleeping r.cur_status || not (eq_ℤ (leader_id e v) r.id))
        (λ _. record { votes = refl; cer = refl })
        (λ _.
          if_rule (λ (x : Replica × Bool). SameVotes r x.0)
            (is_ready r.cur_status
              && (ltb 0 (IntByteMap.get_len r.awaiting_decision_copy) || not (length r.queue == 0)))
            (λ _. record { votes = refl; cer = refl }) (λ _. record { votes = refl; cer = refl }))

  pub handle_request-SameVotes : (x : Slice) (r : Replica) → SameVotes r (handle_request e x r)
  unfolding handle_request persist
  handle_request-SameVotes x r = record { votes = refl; cer = refl }

  pub handle_batch_request-SameVotes :
      (xs : List Slice) (r : Replica) → SameVotes r (handle_batch_request e xs r)
  unfolding handle_batch_request persist crash
  handle_batch_request-SameVotes [] r = record { votes = refl; cer = refl }
  handle_batch_request-SameVotes (x ∷ xs) r = record { votes = refl; cer = refl }

  pub finish_echo1-Untouched : (r : Replica) → Untouched r (finish_echo1 e r)
  unfolding finish_echo1 emit crash
  finish_echo1-Untouched r = ground arith

  restore-Untouched : (v b c : Recovered) (r : Replica) → Untouched r (restore e v b c r)
  unfolding restore
  restore-Untouched (read v) (read b) (read c) r =
      if_rule (Untouched r) (e.is_block b && e.is_blocks c)
        (λ _.
          then_again (record { votes = refl; cer = refl; queue = refl })
            (start_view_change-Untouched _ _))
        (λ _. Kept-Untouched (crash-Kept e r))
  restore-Untouched (failed x) b c r = Kept-Untouched (crash-Kept e r)
  restore-Untouched (read v) (failed x) c r = Kept-Untouched (crash-Kept e r)
  restore-Untouched (read v) (read b) (failed x) r = Kept-Untouched (crash-Kept e r)

  recover_from_disk-Untouched : (r : Replica) → Untouched r (recover_from_disk e r)
  unfolding recover_from_disk
  recover_from_disk-Untouched r =
      if_rule (Untouched r) (eq_ℤ e.persist_level persist_critical) (λ _. restore-Untouched _ _ _ r)
        (λ _.
          if_rule (Untouched r) (eq_ℤ e.persist_level persist_all)
            (λ _. record { votes = refl; cer = refl; queue = refl }) (λ _. untouched))

  pub recovery_process-Untouched :
      (mode : RecMode) (r : Replica) → Untouched r (recovery_process e mode r).0
  unfolding recovery_process emit crash
  recovery_process-Untouched rec_from_disk r =
      if_rule (λ (x : Replica × Bool). Untouched r x.0) (not (is_sleeping r.cur_status))
        (λ _. untouched)
        (λ _.
          then_again (record { votes = refl; cer = refl; queue = refl })
            (recover_from_disk-Untouched _))
  recovery_process-Untouched no_rec r = ground arith
  recovery_process-Untouched rec_koala2 r = ground arith
