-- ===== src/Consensus/Dispatch/Requests.antt =====
-- events.go: the requests of a history, from the queue to the proposals.
use mathlib.Core.List.{append-nil, append_assoc}
use sleepy_hot_stuff.Base.{
  ℕ, ◌≡◌, refl, sym, ap, ◌∙◌, Bool, true, false, ◌||◌, ◌&&◌, not, List, [], ◌∷◌, ◌++◌, map,
  if◌then◌else◌, arith, ltb, ◌==◌, length, Bytes, ℤ, eq_ℤ, Bool-cases, inl, inr,
}
use sleepy_hot_stuff.Utils.Values.{bytes_to_string}
use sleepy_hot_stuff.Utils.IntByteMap
use sleepy_hot_stuff.Message.{
  MessageType, HotStuffMessage, MessageWithSignature, RawMessage, qc, qcrep, timeout, tqc,
  viewchange, newview, rec1, echo1, rec2, echo2,
}
use sleepy_hot_stuff.Env.{Env}
use sleepy_hot_stuff.Queue.{raw, append, grab_with_max_len, grab_with_max_len_and_clear}
use sleepy_hot_stuff.Queue.Laws.{append_batch-eq, grab_with_max_len_and_clear-splits}
use sleepy_hot_stuff.Consensus.State.{
  Replica, persist, emit, crash, is_ready, is_sleeping, set_live,
}
use sleepy_hot_stuff.Consensus.Sequence.{increment}
use sleepy_hot_stuff.Consensus.View.{leader_id, tell_everyone}
use sleepy_hot_stuff.Consensus.Propose.{
  start_hotstuff, monitor_turn, add_vote, count_vote, handle_normal_rep_msg,
}
use sleepy_hot_stuff.Consensus.Start.{
  fall_asleep, wake_up, init_hotstuff, configure_quorum, start_quorum, start_sleepy_quorum,
}
use sleepy_hot_stuff.Consensus.View.{set_view}
use sleepy_hot_stuff.Consensus.Dispatch.{
  switch, handle_qc_byte_msg, handle_request, handle_batch_request, Event, message, timer, monitor,
  request, requests, echo1_goes_on, sleeps, wakes, recovers, step, run,
}
use sleepy_hot_stuff.Consensus.Dispatch.Frame.{
  certify-Kept, handle_normal_msg-Kept, handle_timeout_msg-Kept, handle_rec1_msg-Kept,
  handle_echo1_msg-Kept, handle_echo2_msg-Kept, waiting-Kept,
}
use sleepy_hot_stuff.Consensus.Dispatch.ViewBallots.{
  handle_tqc_msg-Untouched, handle_qcvc_message-Untouched, handle_qc_new_view-Untouched,
  timeout_handler-Untouched, finish_echo1-Untouched, recovery_process-Untouched,
}

-- The requests that an event brings.
unfoldable pub arrivals : Event → List RawMessage
arrivals (request x) = raw x ∷ []
arrivals (requests xs) = map raw xs
arrivals _ = []

-- A turn of the monitor proposes.
unfoldable pub proposes : Env → ℤ → Replica → Bool
proposes e v r =
    eq_ℤ v r.view
    && not (is_sleeping r.cur_status)
    && eq_ℤ (leader_id e v) r.id
    && is_ready r.cur_status
    && (ltb 0 (IntByteMap.get_len r.awaiting_decision_copy) || not (length r.queue == 0))

-- The batch that the event makes the replica propose.
unfoldable pub batch_of : Env → Event → Replica → List RawMessage
batch_of e (monitor v) r = if proposes e v r then grab_with_max_len e.max_batch_size r.queue else []
batch_of e _ r = []

unfoldable pub all_arrivals : List ((ℕ → ℤ) × Event) → List RawMessage
all_arrivals [] = []
all_arrivals ((clock, ev) ∷ evs) = arrivals ev ++ all_arrivals evs

-- The batches of a history, one after the other.
unfoldable pub all_batches : Env → List ((ℕ → ℤ) × Event) → Replica → List RawMessage
all_batches e [] r = []
all_batches e ((clock, ev) ∷ evs) r =
    batch_of (record e { clock = clock }) ev r
    ++ all_batches e evs (step (record e { clock = clock }) ev r)

module _ (e : Env) where
  handle_normal_rep_msg-queue :
      (content : HotStuffMessage) (r : Replica)
      → (handle_normal_rep_msg e content r).queue ≡ r.queue
  unfolding handle_normal_rep_msg count_vote add_vote crash
  handle_normal_rep_msg-queue content r =
      ground (arith, (certify-Kept e content (add_vote content r)).queue)

  switch-queue :
      (t : MessageType) (content : HotStuffMessage) (tmp : MessageWithSignature) (r : Replica)
      → (switch e t content tmp r).queue ≡ r.queue
  unfolding switch
  switch-queue qc content tmp r = (handle_normal_msg-Kept e content r).queue
  switch-queue qcrep content tmp r = handle_normal_rep_msg-queue content r
  switch-queue timeout content tmp r = (handle_timeout_msg-Kept e content tmp r).queue
  switch-queue tqc content tmp r = (handle_tqc_msg-Untouched e content r).queue
  switch-queue viewchange content tmp r = (handle_qcvc_message-Untouched e content tmp r).queue
  switch-queue newview content tmp r = (handle_qc_new_view-Untouched e _ r).queue
  switch-queue rec1 content tmp r = (handle_rec1_msg-Kept e content r).queue
  switch-queue echo1 content tmp r = (handle_echo1_msg-Kept e content r).queue
  switch-queue rec2 content tmp r = (waiting-Kept e content r).queue
  switch-queue echo2 content tmp r = (handle_echo2_msg-Kept e content r).queue
  switch-queue _ content tmp r = refl

  handle_qc_byte_msg-queue :
      (input : Bytes) (r : Replica) → (handle_qc_byte_msg e input r).queue ≡ r.queue
  unfolding handle_qc_byte_msg set_live
  handle_qc_byte_msg-queue input r =
      let content = e.unmarshal_message (bytes_to_string (e.unmarshal_signed input).msg) in
      ground (
        arith,
        switch-queue content.mtype content (e.unmarshal_signed input) (set_live content.source r),
      )

  wake_up-queue : (r : Replica) → (wake_up e r).queue ≡ r.queue
  unfolding wake_up init_hotstuff configure_quorum start_quorum start_sleepy_quorum set_view persist
      crash
  wake_up-queue r = ground arith

  monitor_turn-queue :
      (v : ℤ) (r : Replica)
      → batch_of e (monitor v) r ++ (monitor_turn e v r).0.queue ≡ r.queue ++ []
  unfolding batch_of proposes monitor_turn start_hotstuff increment tell_everyone persist emit
      grab_with_max_len grab_with_max_len_and_clear
  monitor_turn-queue v r =
      ground
        (arith, append-nil r.queue, (grab_with_max_len_and_clear-splits e.max_batch_size r.queue).0)

  step-queue :
      (ev : Event) (r : Replica) → batch_of e ev r ++ (step e ev r).queue ≡ r.queue ++ arrivals ev
  unfolding batch_of step arrivals fall_asleep handle_request handle_batch_request append persist
      crash
  step-queue (message input) r = handle_qc_byte_msg-queue input r ∙ sym (append-nil r.queue)
  step-queue (timer v) r = (timeout_handler-Untouched e v r).queue ∙ sym (append-nil r.queue)
  step-queue (monitor v) r = monitor_turn-queue v r
  step-queue (request x) r = refl
  step-queue (requests []) r = sym (append-nil r.queue)
  step-queue (requests (x ∷ xs)) r = append_batch-eq r.queue (x ∷ xs)
  step-queue echo1_goes_on r = (finish_echo1-Untouched e r).queue ∙ sym (append-nil r.queue)
  step-queue sleeps r = sym (append-nil r.queue)
  step-queue wakes r = wake_up-queue r ∙ sym (append-nil r.queue)
  step-queue (recovers mode) r =
      (recovery_process-Untouched e mode r).queue ∙ sym (append-nil r.queue)

pub true_is_not_false : ¬ (true ≡ false)
true_is_not_false h = ground arith

going_on : (b : Bool) (x y : Replica) → b ≡ true → (if b then x else y) ≡ x
going_on b x y h = ground arith

going_off : (b : Bool) (x y : Replica) → b ≡ false → (if b then x else y) ≡ y
going_off b x y h = ground arith

pub run-halted :
    (e : Env) (evs : List ((ℕ → ℤ) × Event)) (r : Replica) → r.halted ≡ true → run e evs r ≡ r
unfolding run
run-halted e [] r h = refl
run-halted e ((clock, ev) ∷ evs) r h =
    ap (run e evs) (going_on r.halted r (step (record e { clock = clock }) ev r) h)
    ∙ run-halted e evs r h

pub run-next :
    (e : Env) (clock : ℕ → ℤ) (ev : Event) (evs : List ((ℕ → ℤ) × Event)) (r : Replica)
    → (run e ((clock, ev) ∷ evs) r).halted ≡ false
    → run e ((clock, ev) ∷ evs) r ≡ run e evs (step (record e { clock = clock }) ev r)
unfolding run
run-next e clock ev evs r h =
    let s = step (record e { clock = clock }) ev r in
    elim (Bool-cases r.halted) [
      | inl on ↦
          let ended : run e evs (if r.halted then r else s) ≡ r =
            ap (run e evs) (going_on r.halted r s on) ∙ run-halted e evs r on in
          absurd (true_is_not_false (sym on ∙ (ap (λ (t : Replica). t.halted) (sym ended) ∙ h)))
      | inr off ↦ ap (run e evs) (going_off r.halted r s off)
    ]

start : (e : Env) (r : Replica) → (run e [] r).queue ≡ r.queue ++ []
unfolding run
start e r = sym (append-nil r.queue)

joined :
    (b bs q s r a more : List RawMessage)
    → b ++ s ≡ r ++ a
    → bs ++ q ≡ s ++ more
    → (b ++ bs) ++ q ≡ r ++ (a ++ more)
joined b bs q s r a more h k =
    append_assoc b bs q
    ∙ (ap (λ (t : List RawMessage). b ++ t) k
        ∙ (sym (append_assoc b s more)
            ∙ (ap (λ (t : List RawMessage). t ++ more) h ∙ append_assoc r a more)))

-- Where the process does not end, the batches that are taken out of the queue, one after the other, and
-- then the queue that is left, are the requests of the queue at the start and those that arrived.
pub run-queue :
    (e : Env) (evs : List ((ℕ → ℤ) × Event)) (r : Replica)
    → (run e evs r).halted ≡ false
    → all_batches e evs r ++ (run e evs r).queue ≡ r.queue ++ all_arrivals evs
unfolding all_batches all_arrivals
run-queue e [] r h = start e r
run-queue e ((clock, ev) ∷ evs) r h =
    let s = step (record e { clock = clock }) ev r in
    let same : run e ((clock, ev) ∷ evs) r ≡ run e evs s = run-next e clock ev evs r h in
    joined _ _ _ s.queue r.queue (arrivals ev) _ (step-queue (record e { clock = clock }) ev r) (
      ap (λ (t : Replica). all_batches e evs s ++ t.queue) same
      ∙ run-queue e evs s (ap (λ (t : Replica). t.halted) (sym same) ∙ h))
