-- ===== src/Consensus/Dispatch/Turns.antt =====
-- events.go `RequestMonitor` and hotstuff.go `StartHotStuff`: what a turn of the monitor sends.
use sleepy_hot_stuff.Base.{
  ◌≤◌, ◌≡◌, refl, sym, ap, ◌∙◌, true, false, Option, some, List, [], ◌∷◌, ◌++◌, arith, length,
  Bytes, ℤ, pos, add_int, Bool-cases, inl, inr,
}
use mathlib.Core.List.{append_assoc}
use mathlib.Core.Path.{subst}
use sleepy_hot_stuff.Utils.IntByteMap
use sleepy_hot_stuff.Message.{MessageType, HotStuffMessage, RawMessage}
use sleepy_hot_stuff.Env.{Env}
use sleepy_hot_stuff.Db.{codes, persist_all}
use sleepy_hot_stuff.Queue.{grab_with_max_len_and_clear}
use sleepy_hot_stuff.Queue.Laws.{grab_with_max_len_and_clear-splits}
use sleepy_hot_stuff.Consensus.State.{
  Replica, Status, loopback, broadcast_all, or_empty, persist, emit, is_ready, processing, ready,
}
use sleepy_hot_stuff.Consensus.Sequence.{increment}
use sleepy_hot_stuff.Consensus.View.{leader_id, tell_everyone, serialize_with_signature}
use sleepy_hot_stuff.Consensus.Propose.{start_hotstuff, monitor_turn, proposal, await_proposal}
use sleepy_hot_stuff.Consensus.Dispatch.{monitor}
use sleepy_hot_stuff.Consensus.Dispatch.Requests.{proposes, batch_of}

get-insert_self :
    (m : IntByteMap.IntByteMap) (key : ℤ) (value : Option Bytes)
    → IntByteMap.get (IntByteMap.insert m key value) key ≡ (value, true)
get-insert_self m key value = ground (arith, IntByteMap.get-insert m key key value)

module _ (e : Env) where
  -- The message that proposes a batch has gone to the replica itself and to all others.
  pub record Sent (batch : List RawMessage) (r r' : Replica) : Type 0 where
    pub msg : HotStuffMessage
    pub kind : msg.mtype ≡ MessageType.qc
    pub ops : msg.ops ≡ some batch
    pub seq : msg.seq ≡ add_int r.sequence (pos 1)
    pub view : msg.view ≡ r.view
    pub by : msg.source ≡ r.id
    pub awaited : IntByteMap.get r'.awaiting_blocks msg.seq ≡ (msg.hash, true)
    pub kept : r'.sequence ≡ msg.seq
    pub sent :
        r'.out
        ≡ r.out
          ++ loopback (serialize_with_signature e (or_empty (e.marshal_message msg)))
            ∷ broadcast_all (or_empty (e.marshal_message msg))
            ∷ []

  told :
      (msg : Bytes) (r : Replica)
      → r.halted ≡ false
      → (tell_everyone e msg r).out
        ≡ r.out ++ loopback (serialize_with_signature e msg) ∷ broadcast_all msg ∷ []
  unfolding tell_everyone emit
  told msg r h = rw h (append_assoc r.out _ _)

  start_hotstuff-Sent :
      (batch : List RawMessage) (r : Replica)
      → (start_hotstuff e batch r).halted ≡ false
      → Sent batch r (start_hotstuff e batch r)
  unfolding start_hotstuff proposal await_proposal increment tell_everyone persist emit
  start_hotstuff-Sent batch r h = record {
    msg = proposal e batch (increment e r);
    kind = refl;
    ops = refl;
    seq = refl;
    view = refl;
    by = refl;
    awaited = get-insert_self r.awaiting_blocks _ _;
    kept = refl;
    sent = told _ (await_proposal e (proposal e batch (increment e r)) batch (increment e r)) h;
  }

  -- The replica that takes its batch out of the queue.
  taking : Replica → Replica
  taking r =
      let rest = (grab_with_max_len_and_clear e.max_batch_size r.queue).1 in
      persist e (codes "queue") (e.marshal_queue rest) persist_all
        (record r { cur_status = processing; queue = rest })

  monitor_turn-waits : (v : ℤ) (r : Replica) → proposes e v r ≡ false → (monitor_turn e v r).0 ≡ r
  unfolding proposes monitor_turn
  monitor_turn-waits v r h = ground arith

  monitor_turn-starts :
      (v : ℤ) (r : Replica)
      → proposes e v r ≡ true
      → (monitor_turn e v r).0 ≡ start_hotstuff e (batch_of e (monitor v) r) (taking r)
  unfolding proposes monitor_turn batch_of taking
  monitor_turn-starts v r h =
      ground (arith, (grab_with_max_len_and_clear-splits e.max_batch_size r.queue).2)

  batch_of-bounded : (v : ℤ) (r : Replica) → length (batch_of e (monitor v) r) ≤ e.max_batch_size
  unfolding batch_of
  batch_of-bounded v r =
      let z = grab_with_max_len_and_clear-splits e.max_batch_size r.queue in
      ground (arith, z.1, z.2)

  -- What comes of a turn of the monitor for a view: nothing, or a proposal by the leader of its view.
  pub data Turn (v : ℤ) (r r' : Replica) : Type 0 where
    waits : proposes e v r ≡ false → r' ≡ r → Turn v r r'
    proposed :
        v ≡ r.view
        → leader_id e v ≡ r.id
        → r.cur_status ≡ ready
        → length (batch_of e (monitor v) r) ≤ e.max_batch_size
        → r'.cur_status ≡ processing
        → Sent (batch_of e (monitor v) r) r r'
        → Turn v r r'

  leads : (v : ℤ) (r : Replica) → proposes e v r ≡ true → (v ≡ r.view) × (leader_id e v ≡ r.id)
  unfolding proposes
  leads v r h = ground (arith, h)

  was_ready : (v : ℤ) (r : Replica) → proposes e v r ≡ true → is_ready r.cur_status ≡ true
  unfolding proposes
  was_ready v r h = ground (arith, h)

  ready_of : (s : Status) → is_ready s ≡ true → s ≡ ready
  ready_of ready h = refl
  ready_of _ h = ground (arith, h)

  start_hotstuff-status :
      (batch : List RawMessage) (r : Replica)
      → (start_hotstuff e batch (taking r)).cur_status ≡ processing
  unfolding start_hotstuff await_proposal increment tell_everyone persist emit taking
  start_hotstuff-status batch r = refl

  -- A proposal after the batch is taken is one of the replica before.
  taken :
      (batch : List RawMessage) (r : Replica)
      → (start_hotstuff e batch (taking r)).halted ≡ false
      → Sent batch r (start_hotstuff e batch (taking r))
  unfolding taking persist
  taken batch r h =
      let s = start_hotstuff-Sent batch (taking r) h in
      record {
        msg = s.msg;
        kind = s.kind;
        ops = s.ops;
        seq = s.seq;
        view = s.view;
        by = s.by;
        awaited = s.awaited;
        kept = s.kept;
        sent = s.sent;
      }

  -- A turn of the monitor in which the process does not end leaves the replica as it is, or proposes: then
  -- the replica leads its view and was ready, and exactly one proposal, of this view and the next
  -- sequence number, with the batch from the queue, of at most the maximal size, has gone to itself and
  -- to all others, and waits for its votes.
  pub monitor_turn-Turn :
      (v : ℤ) (r : Replica)
      → (monitor_turn e v r).0.halted ≡ false
      → Turn v r (monitor_turn e v r).0
  monitor_turn-Turn v r h = elim (Bool-cases (proposes e v r)) [
    | inr off ↦ waits off (monitor_turn-waits v r off)
    | inl on ↦
        let starts = monitor_turn-starts v r on in
        proposed (leads v r on).0 (leads v r on).1 (ready_of r.cur_status (was_ready v r on))
          (batch_of-bounded v r)
          (ap (λ (t : Replica). t.cur_status) starts ∙ start_hotstuff-status _ r)
          (subst (Sent (batch_of e (monitor v) r) r) (sym starts)
            (taken _ r (ap (λ (t : Replica). t.halted) (sym starts) ∙ h)))
  ]
