-- ===== src/Consensus/Block/Twice.antt =====
-- hotstuff.go: what `HandleNormalMsg` sends for a proposal on a parent that the replica holds, and
-- for a second proposal of the same height.
use sleepy_hot_stuff.Base.{
  string_eq, ap, ◌∙◌, ◌≡◌, refl, true, false, none, some, [], ◌∷◌, ◌++◌, Bytes, ℤ, pos, ltb_ℤ,
  leb_ℤ,
}
use sleepy_hot_stuff.Utils.Values.{Slice, bytes_to_string}
use sleepy_hot_stuff.Utils.Map
use sleepy_hot_stuff.Message.{HotStuffMessage, QcBlock}
use sleepy_hot_stuff.Env.{Env}
use sleepy_hot_stuff.Crypto.{gen_sig, verify_sig}
use sleepy_hot_stuff.Consensus.State.{Replica, is_view_change, emit, or_empty, send_to_node}
use sleepy_hot_stuff.Consensus.Block.{
  verify_block, process_qc_info, await_decision, vote_message, vote, accept_block,
  handle_normal_msg,
}

module _ (e : Env) where
  -- The block that a proposal names as its parent.
  abbrev pub parent : HotStuffMessage → QcBlock
  parent content = e.unmarshal_block (bytes_to_string content.qc)

  abbrev pub own_sig : HotStuffMessage → Slice
  own_sig content = gen_sig e (bytes_to_string content.hash)

  -- A proposal without operations that passes the tests of a replica which holds its parent, with
  -- the text of the vote for it.
  pub record Votable (r : Replica) (content : HotStuffMessage) (msg : Bytes) : Type 0 where
    pub timely : ltb_ℤ content.view r.view ≡ false
    pub stable : is_view_change r.cur_status ≡ false
    pub empty : content.ops ≡ none
    pub chained : leb_ℤ (pos 2) (parent content).height ≡ true
    pub held : leb_ℤ (parent content).height r.cur_block.height ≡ true
    pub verified : verify_block e content.seq content.source (parent content) r ≡ some true
    pub signed : verify_sig e r.id content.hash (own_sig content) ≡ some true
    pub text : e.marshal_message (vote_message content (own_sig content) r) ≡ some msg

  abbrev pub after_vote : Replica → HotStuffMessage → Bytes → Replica
  after_vote r content msg = record r {
    received_blocks =
        Map.insert (bytes_to_string content.hash) (some (or_empty (e.marshal_message content)))
          r.received_blocks;
    out = r.out ++ send_to_node msg content.source ∷ [];
  }

  -- The vote for one proposal leaves another as acceptable as it was.
  Votable-after_vote :
      (r : Replica) (content other : HotStuffMessage) (msg msg2 : Bytes)
      → Votable r other msg2
      → Votable (after_vote r content msg) other msg2
  unfolding verify_block vote_message
  Votable-after_vote r content other msg msg2 h = record {
    timely = h.timely;
    stable = h.stable;
    empty = h.empty;
    chained = h.chained;
    held = h.held;
    verified = h.verified;
    signed = h.signed;
    text = h.text;
  }

  abbrev stored : Replica → HotStuffMessage → Replica
  stored r content = record r {
    received_blocks =
        Map.insert (bytes_to_string content.hash) (some (or_empty (e.marshal_message content)))
          r.received_blocks;
  }

  process_qc_info-held :
      (b : QcBlock) (seq : ℤ) (r : Replica)
      → leb_ℤ (pos 2) b.height ≡ true
      → leb_ℤ b.height r.cur_block.height ≡ true
      → process_qc_info e b seq r ≡ r
  unfolding process_qc_info
  process_qc_info-held b seq r high low = simp (high, low) refl

  vote-sends :
      (r : Replica) (content : HotStuffMessage) (msg : Bytes)
      → r.halted ≡ false
      → r.leader ≡ false
      → verify_sig e r.id content.hash (own_sig content) ≡ some true
      → e.marshal_message (vote_message content (own_sig content) r) ≡ some msg
      → vote e content r ≡ record r { out = r.out ++ send_to_node msg content.source ∷ [] }
  unfolding vote emit
  vote-sends r content msg live follower signed text = simp (signed, text, live, follower) refl

  accept_block-after_vote :
      (r : Replica) (content : HotStuffMessage) (msg : Bytes)
      → r.halted ≡ false
      → r.leader ≡ false
      → Votable r content msg
      → accept_block e (parent content) content r ≡ after_vote r content msg
  unfolding accept_block vote_message
  accept_block-after_vote r content msg live follower h =
      ap (vote e content)
        (process_qc_info-held (parent content) content.seq (stored r content) h.chained h.held)
      ∙ vote-sends (stored r content) content msg live follower h.signed h.text

  await_decision-empty :
      (content : HotStuffMessage) (r : Replica)
      → content.ops ≡ none
      → await_decision e content r ≡ r
  unfolding await_decision
  await_decision-empty content r empty = rw (empty) refl

  module _ (quiet : ltb_ℤ (pos 0) e.eval_mode ≡ false) where
    handle_normal_msg-after_vote :
        (r : Replica) (content : HotStuffMessage) (msg : Bytes)
        → r.halted ≡ false
        → r.leader ≡ false
        → Votable r content msg
        → handle_normal_msg e content r ≡ after_vote r content msg
    unfolding handle_normal_msg
    handle_normal_msg-after_vote r content msg live follower h =
        simp (h.timely, h.stable, quiet, await_decision-empty content r h.empty, h.verified)
          (accept_block-after_vote r content msg live follower h)

    -- Where no throughput log is kept, a running replica that does not lead and has voted for a
    -- proposal votes as well for a second one that differs in its hash only, so has the same height,
    -- view and proposer, and sends both votes to the proposer, if neither proposal has operations,
    -- their parent is at height 2 or above and not above the current block, and each passes the
    -- tests of the replica.
    pub handle_normal_msg-votes_twice :
        (r : Replica) (content : HotStuffMessage) (other : Slice) (msg msg2 : Bytes)
        → r.halted ≡ false
        → r.leader ≡ false
        → Votable r content msg
        → Votable r (record content { hash = other }) msg2
        → (handle_normal_msg e
            (record content { hash = other })
            (handle_normal_msg e content r)).out
          ≡ (r.out ++ send_to_node msg content.source ∷ []) ++ send_to_node msg2 content.source ∷ []
    handle_normal_msg-votes_twice r content other msg msg2 live follower h k =
        rw
          (
            handle_normal_msg-after_vote r content msg live follower h,
            handle_normal_msg-after_vote (after_vote r content msg)
                (record content { hash = other }) msg2 live follower
                (Votable-after_vote r content _ msg msg2 k),
          )
          refl
