-- ===== src/Consensus/Dispatch/Vouched.antt =====
-- The votes along the events: what holds of each vote that comes in holds of all that are collected.
use sleepy_hot_stuff.Base.{
  ◌≡◌, refl, [], arith, if_rule, Bytes, ℤ, Option, none, some, not, ◌||◌, ◌&&◌, eq_ℤ, pos,
}
use sleepy_hot_stuff.Utils.Map
use sleepy_hot_stuff.Utils.Values.{Slice, bytes_to_string}
use sleepy_hot_stuff.Utils.Sets.{new_set, set_list}
use sleepy_hot_stuff.Message.{
  MessageType, MessageWithSignature, HotStuffMessage, qc, qcrep, timeout, tqc, viewchange, newview,
  rec1, echo1, rec2, echo2,
}
use sleepy_hot_stuff.Env.{Env}
use sleepy_hot_stuff.Quorum.Sizes.{Level}
use sleepy_hot_stuff.Quorum.Buffer.{empty_certificate, votes, ids_of, sigs_of}
use sleepy_hot_stuff.Consensus.State.{Replica, crash, persist, is_sleeping, is_recovering, set_live}
use sleepy_hot_stuff.Consensus.Propose.Votes.{VouchedVotes, Admitted, handle_normal_rep_msg-Vouched}
use sleepy_hot_stuff.Consensus.View.{set_view}
use sleepy_hot_stuff.Utils.StringIntMap
use sleepy_hot_stuff.Consensus.Start.{
  fall_asleep, wake_up, init_hotstuff, configure_quorum, start_quorum, start_sleepy_quorum,
  sleepy_hotstuff_config,
}
use sleepy_hot_stuff.Consensus.Dispatch.{
  is_for_recovery, switch, handle_qc_byte_msg, Event, message, timer, monitor, request, requests,
  echo1_goes_on, sleeps, wakes, recovers, step,
}
use sleepy_hot_stuff.Consensus.Dispatch.Kept.{
  SameVotes, Untouched, Untouched-SameVotes, Kept-Untouched,
}
use sleepy_hot_stuff.Consensus.Dispatch.Frame.{
  handle_normal_msg-Kept, handle_timeout_msg-Kept, handle_rec1_msg-Kept, handle_echo1_msg-Kept,
  handle_echo2_msg-Kept, waiting-Kept,
}
use sleepy_hot_stuff.Consensus.Dispatch.ViewBallots.{
  set_live-Untouched, handle_tqc_msg-Untouched, handle_qcvc_message-Untouched,
  handle_qc_new_view-Untouched, timeout_handler-Untouched, monitor_turn-SameVotes,
  handle_request-SameVotes, handle_batch_request-SameVotes, finish_echo1-Untouched,
  recovery_process-Untouched,
}

pub init_hotstuff-SameVotes :
    (e : Env) (r : Replica)
    → SameVotes (configure_quorum e (record r { buffer = StringIntMap.init })) (init_hotstuff e r)
unfolding init_hotstuff set_view persist
init_hotstuff-SameVotes e r = ground arith

-- The message in an envelope that comes in.
abbrev pub incoming : Env → Bytes → HotStuffMessage
incoming e input = e.unmarshal_message (bytes_to_string (e.unmarshal_signed input).msg)

-- What an event has to bring for `P` to go on holding of the collected votes: a vote is admitted.
abbrev pub Brings : (Bytes → ℤ → Slice → Type 0) → Env → Event → Type 0
Brings P e (message input) = (incoming e input).mtype ≡ qcrep → Admitted P e (incoming e input)
Brings P e _ = Unit

module _ (P : Bytes → ℤ → Slice → Type 0) where
  -- The same votes are vouched for as before.
  still : (r r' : Replica) → SameVotes r r' → VouchedVotes P r → VouchedVotes P r'
  still r r' s v = record { certified = rw (s.votes, s.cer) v.certified }

  kept_vouched : (r r' : Replica) → Untouched r r' → VouchedVotes P r → VouchedVotes P r'
  kept_vouched r r' u = still r r' (Untouched-SameVotes u)

  -- There are no votes.
  pub cleared-Vouched :
      (r : Replica) → r.votes_pp ≡ [] → r.cer ≡ empty_certificate → VouchedVotes P r
  unfolding votes ids_of sigs_of set_list Map.get new_set
  cleared-Vouched r h k = record {
    certified = rw (h, k) (record { agree = λ h. refl; distinct = λ h. tt; vouched = λ h. tt });
  }

  module _ (e : Env) where
    switch-Vouched :
        (t : MessageType) (content : HotStuffMessage) (tmp : MessageWithSignature) (r : Replica)
        → (t ≡ qcrep → Admitted P e content)
        → VouchedVotes P r
        → VouchedVotes P (switch e t content tmp r)
    unfolding switch
    switch-Vouched qc content tmp r a =
        kept_vouched r _ (Kept-Untouched (handle_normal_msg-Kept e content r))
    switch-Vouched qcrep content tmp r a = handle_normal_rep_msg-Vouched P e content r (a refl)
    switch-Vouched timeout content tmp r a =
        kept_vouched r _ (Kept-Untouched (handle_timeout_msg-Kept e content tmp r))
    switch-Vouched tqc content tmp r a = kept_vouched r _ (handle_tqc_msg-Untouched e content r)
    switch-Vouched viewchange content tmp r a =
        kept_vouched r _ (handle_qcvc_message-Untouched e content tmp r)
    switch-Vouched newview content tmp r a = kept_vouched r _ (handle_qc_new_view-Untouched e _ r)
    switch-Vouched rec1 content tmp r a =
        kept_vouched r _ (Kept-Untouched (handle_rec1_msg-Kept e content r))
    switch-Vouched echo1 content tmp r a =
        kept_vouched r _ (Kept-Untouched (handle_echo1_msg-Kept e content r))
    switch-Vouched rec2 content tmp r a =
        kept_vouched r _ (Kept-Untouched (waiting-Kept e content r))
    switch-Vouched echo2 content tmp r a =
        kept_vouched r _ (Kept-Untouched (handle_echo2_msg-Kept e content r))
    switch-Vouched _ content tmp r a = λ v. v

    handle_qc_byte_msg-Vouched :
        (input : Bytes) (r : Replica)
        → Brings P e (message input)
        → VouchedVotes P r
        → VouchedVotes P (handle_qc_byte_msg e input r)
    unfolding handle_qc_byte_msg
    handle_qc_byte_msg-Vouched input r a v =
        let content = e.unmarshal_message (bytes_to_string (e.unmarshal_signed input).msg) in
        let alive = set_live content.source r in
        let w = kept_vouched r alive (set_live-Untouched e content.source r) v in
        if_rule (VouchedVotes P)
          (is_sleeping alive.cur_status
            || (is_recovering alive.cur_status && not (is_for_recovery content.mtype)))
          (λ _. w) (λ _. switch-Vouched content.mtype content (e.unmarshal_signed input) alive a w)

    start_sleepy_quorum-Vouched :
        (c : Option Level) (r : Replica)
        → VouchedVotes P r
        → VouchedVotes P (start_sleepy_quorum e c r)
    unfolding start_sleepy_quorum crash
    start_sleepy_quorum-Vouched none r v = record { certified = v.certified }
    start_sleepy_quorum-Vouched (some level) r v = cleared-Vouched _ refl refl

    configure_quorum-Vouched :
        (r : Replica) → VouchedVotes P r → VouchedVotes P (configure_quorum e r)
    unfolding configure_quorum start_quorum
    configure_quorum-Vouched r v =
        if_rule (VouchedVotes P) (eq_ℤ e.test_id (pos 1) || eq_ℤ e.test_id (pos 4))
          (λ _. start_sleepy_quorum-Vouched (sleepy_hotstuff_config e) r v)
          (λ _.
            if_rule (VouchedVotes P)
              (eq_ℤ e.test_id (pos 0) || eq_ℤ e.test_id (pos 2) || eq_ℤ e.test_id (pos 3))
              (λ _. cleared-Vouched _ refl refl) (λ _. v))

    wake_up-Vouched : (r : Replica) → VouchedVotes P r → VouchedVotes P (wake_up e r)
    unfolding wake_up
    wake_up-Vouched r v = still _ _ (init_hotstuff-SameVotes e r) (
        configure_quorum-Vouched (record r { buffer = StringIntMap.init })
          (record { certified = v.certified }))

    -- Every event leaves `P` true of the collected votes, if it is of the vote that it may bring.
    pub step-Vouched :
        (ev : Event) (r : Replica) → Brings P e ev → VouchedVotes P r → VouchedVotes P (step e ev r)
    unfolding step fall_asleep
    step-Vouched (message input) r a v = handle_qc_byte_msg-Vouched input r a v
    step-Vouched (timer n) r a v = kept_vouched r _ (timeout_handler-Untouched e n r) v
    step-Vouched (monitor n) r a v = still r _ (monitor_turn-SameVotes e n r) v
    step-Vouched (request x) r a v = still r _ (handle_request-SameVotes e x r) v
    step-Vouched (requests xs) r a v = still r _ (handle_batch_request-SameVotes e xs r) v
    step-Vouched echo1_goes_on r a v = kept_vouched r _ (finish_echo1-Untouched e r) v
    step-Vouched sleeps r a v = record { certified = v.certified }
    step-Vouched wakes r a v = wake_up-Vouched r v
    step-Vouched (recovers mode) r a v = kept_vouched r _ (recovery_process-Untouched e mode r) v
