-- ===== src/Consensus/Dispatch/Frame.antt =====
-- The handlers that leave the view of a replica, its belief that it leads, the votes that it has
-- collected and its queue of requests as they are; a vote leaves all but the votes.
use sleepy_hot_stuff.Base.{
  ℕ, refl, ◌||◌, [], ◌∷◌, arith, if◌then◌else◌, if_rule, check_rule, Bytes, ℤ, pos, leb_ℤ, ltb_ℤ,
  length,
}
use sleepy_hot_stuff.Utils.Values.{Slice, bytes_to_string}
use sleepy_hot_stuff.Utils.Map.{Map}
use sleepy_hot_stuff.Message.{MessageWithSignature, HotStuffMessage, QcBlock}
use sleepy_hot_stuff.Env.{Env}
use sleepy_hot_stuff.Consensus.State.{Replica, Effect, is_view_change, emit, persist, crash}
use sleepy_hot_stuff.Consensus.Status.{update_buffer_content}
use sleepy_hot_stuff.Consensus.Sequence.{update_seq}
use sleepy_hot_stuff.Consensus.View.{tell_everyone, handle_timeout_msg}
use sleepy_hot_stuff.Consensus.NewLeader.{replay}
use sleepy_hot_stuff.Consensus.Block.{
  verify_block, commit_locked, lock_current, adopt_higher, forget_decisions, finish_block,
  process_qc_info, evaluation, vote, ops_of, await_decision, accept_block, handle_normal_msg,
}
use sleepy_hot_stuff.Consensus.Propose.{add_vote, certify, count_vote, handle_normal_rep_msg}
use sleepy_hot_stuff.Consensus.Recovery.{
  handle_rec1_msg, handle_echo1_msg, handle_rec2_msg, handle_echo2_msg, adopt_echoed, accept_echo2,
  merge_committed,
}
use sleepy_hot_stuff.Consensus.Dispatch.{or_wait}
use sleepy_hot_stuff.Consensus.Dispatch.Kept.{
  SameView, Kept, nothing_changed, then_keeps, Kept-SameView,
}

module _ (e : Env) where
  pub emit-Kept : (x : Effect) (r : Replica) → Kept r (emit x r)
  unfolding emit
  emit-Kept x r = record {
    view = refl;
    leader = refl;
    id = refl;
    votes = refl;
    cer = refl;
    queue = refl;
  }

  pub update_seq-Kept : (seq : ℤ) (r : Replica) → Kept r (update_seq e seq r)
  unfolding update_seq persist
  update_seq-Kept seq r = ground arith

  pub commit_locked-Kept : (b : QcBlock) (r : Replica) → Kept r (commit_locked e b r)
  unfolding commit_locked persist emit
  commit_locked-Kept b r = ground arith

  pub lock_current-Kept : (r : Replica) → Kept r (lock_current e r)
  unfolding lock_current persist
  lock_current-Kept r = ground arith

  pub adopt_higher-Kept : (b : QcBlock) (r : Replica) → Kept r (adopt_higher e b r)
  unfolding adopt_higher persist
  adopt_higher-Kept b r = ground arith

  pub forget_decisions-Kept : (seq : ℤ) (r : Replica) → Kept r (forget_decisions e seq r)
  unfolding forget_decisions persist
  forget_decisions-Kept seq r = ground arith

  pub finish_block-Kept : (b : QcBlock) (seq : ℤ) (r : Replica) → Kept r (finish_block e b seq r)
  unfolding finish_block
  finish_block-Kept b seq r =
      then_keeps (adopt_higher-Kept b r)
        (then_keeps (forget_decisions-Kept seq _) (update_seq-Kept seq _))

  pub process_qc_info-Kept :
      (b : QcBlock) (seq : ℤ) (r : Replica) → Kept r (process_qc_info e b seq r)
  unfolding process_qc_info
  process_qc_info-Kept b seq r =
      if_rule (Kept r) (leb_ℤ (pos 2) b.height)
        (λ _.
          if_rule (Kept r) (leb_ℤ b.height r.cur_block.height) (λ _. nothing_changed)
            (λ _.
              then_keeps
                (if_rule (Kept r) (leb_ℤ (pos 3) b.height) (λ _. commit_locked-Kept b r)
                  (λ _. nothing_changed))
                (then_keeps (lock_current-Kept _) (finish_block-Kept b seq _))))
        (λ _. finish_block-Kept b seq r)

  pub vote-Kept : (content : HotStuffMessage) (r : Replica) → Kept r (vote e content r)
  unfolding vote crash emit
  vote-Kept content r = ground arith

  pub stored-Kept : (m : Map Bytes Slice) (r : Replica) → Kept r (record r { received_blocks = m })
  stored-Kept m r = record {
    view = refl;
    leader = refl;
    id = refl;
    votes = refl;
    cer = refl;
    queue = refl;
  }

  pub crash-Kept : (r : Replica) → Kept r (crash r)
  unfolding crash
  crash-Kept r = record {
    view = refl;
    leader = refl;
    id = refl;
    votes = refl;
    cer = refl;
    queue = refl;
  }

  pub accept_block-Kept :
      (b : QcBlock) (content : HotStuffMessage) (r : Replica) → Kept r (accept_block e b content r)
  unfolding accept_block
  accept_block-Kept b content r =
      then_keeps (then_keeps (stored-Kept _ r) (process_qc_info-Kept b content.seq _))
        (vote-Kept content _)

  pub evaluation-Kept : (len_ops : ℕ) (seq : ℤ) (r : Replica) → Kept r (evaluation e len_ops seq r)
  unfolding evaluation
  evaluation-Kept len_ops seq r = ground arith

  pub await_decision-Kept :
      (content : HotStuffMessage) (r : Replica) → Kept r (await_decision e content r)
  unfolding await_decision persist
  await_decision-Kept content r = ground arith

  pub handle_normal_msg-Kept :
      (content : HotStuffMessage) (r : Replica) → Kept r (handle_normal_msg e content r)
  unfolding handle_normal_msg
  handle_normal_msg-Kept content r =
      if_rule (Kept r) (ltb_ℤ content.view r.view || is_view_change r.cur_status)
        (λ _. nothing_changed)
        (λ _.
          let counted : Replica =
            if ltb_ℤ (pos 0) e.eval_mode
            then evaluation e (length (ops_of content.ops)) content.seq r
            else r in
          let before : Kept r (await_decision e content counted) =
            then_keeps
              (if_rule (Kept r) (ltb_ℤ (pos 0) e.eval_mode)
                (λ _. evaluation-Kept (length (ops_of content.ops)) content.seq r)
                (λ _. nothing_changed))
              (await_decision-Kept content counted) in
          check_rule (Kept r)
            (verify_block e content.seq content.source
              (e.unmarshal_block (bytes_to_string content.qc)) (await_decision e content counted))
            (λ _. then_keeps before (crash-Kept _)) (λ _. before)
            (λ _. then_keeps before (accept_block-Kept _ content _)))

  pub certify-Kept : (content : HotStuffMessage) (r : Replica) → Kept r (certify e content r)
  unfolding certify persist update_buffer_content
  certify-Kept content r = ground arith

  pub handle_normal_rep_msg-SameView :
      (content : HotStuffMessage) (r : Replica) → SameView r (handle_normal_rep_msg e content r)
  unfolding handle_normal_rep_msg count_vote add_vote crash
  handle_normal_rep_msg-SameView content r =
      ground (arith, Kept-SameView (certify-Kept content (add_vote content r)))

  pub handle_timeout_msg-Kept :
      (content : HotStuffMessage) (vcm : MessageWithSignature) (r : Replica)
      → Kept r (handle_timeout_msg e content vcm r)
  unfolding handle_timeout_msg tell_everyone update_buffer_content emit
  handle_timeout_msg-Kept content vcm r = ground arith

  pub handle_rec1_msg-Kept :
      (content : HotStuffMessage) (r : Replica) → Kept r (handle_rec1_msg e content r)
  unfolding handle_rec1_msg emit
  handle_rec1_msg-Kept content r = ground arith

  pub handle_echo1_msg-Kept :
      (content : HotStuffMessage) (r : Replica) → Kept r (handle_echo1_msg e content r).0
  unfolding handle_echo1_msg update_buffer_content crash
  handle_echo1_msg-Kept content r = ground arith

  pub adopt_echoed-Kept : (b c : QcBlock) (r : Replica) → Kept r (adopt_echoed e b c r)
  unfolding adopt_echoed update_seq persist
  adopt_echoed-Kept b c r = ground arith

  pub accept_echo2-Kept :
      (content : HotStuffMessage) (b c : QcBlock) (r : Replica)
      → Kept r (accept_echo2 e content b c r)
  unfolding accept_echo2 update_buffer_content
  accept_echo2-Kept content b c r = ground (arith, adopt_echoed-Kept b c r)

  pub handle_echo2_msg-Kept :
      (content : HotStuffMessage) (r : Replica) → Kept r (handle_echo2_msg e content r)
  unfolding handle_echo2_msg crash
  handle_echo2_msg-Kept content r = ground (
    arith,
    accept_echo2-Kept content (e.unmarshal_block (bytes_to_string content.qc))
        (e.unmarshal_block (bytes_to_string content.lqc))
        (record r {
          committed_blocks =
              merge_committed (e.unmarshal_blocks (bytes_to_string content.com_blocks))
                r.committed_blocks;
        }),
  )

  pub waiting-Kept :
      (content : HotStuffMessage) (r : Replica) → Kept r (or_wait r (handle_rec2_msg e content r))
  unfolding or_wait handle_rec2_msg emit
  waiting-Kept content r = ground arith

  pub replay-Kept : (ops : Map ℤ MessageWithSignature) (r : Replica) → Kept r (replay e ops r)
  unfolding replay
  replay-Kept [] r = nothing_changed
  replay-Kept ((k, rm) ∷ ops) r = then_keeps (emit-Kept _ r) (replay-Kept ops _)
