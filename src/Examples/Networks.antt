-- ===== src/Examples/Networks.antt =====
-- The theorem on networks, at four replicas, of which two vote for two proposals and certify one each.
use mathlib.Core.List.{Mem, mem-cons}
use mathlib.Core.Logic.Or
use sleepy_hot_stuff.Base.{
  length, leb_ℤ, ltb_ℤ, false, ◌&&◌, ◌≡◌, ◌≢◌, refl, Bool, true, ℕ, some, List, [], ◌∷◌, arith,
  Bytes, bytes_eq, ℤ, pos, add_int, ◌+ℤ◌,
}
use sleepy_hot_stuff.Utils.Map
use sleepy_hot_stuff.Utils.Values.{bytes_to_string}
use sleepy_hot_stuff.Utils.IntByteMap
use sleepy_hot_stuff.Utils.StringIntMap
use sleepy_hot_stuff.Utils.Sets.{new_set, set_list, len, add_item}
use sleepy_hot_stuff.Message.{MessageType, HotStuffMessage, QcBlock, zero_message}
use sleepy_hot_stuff.Env.{Env, SignaturesRoundTrip}
use sleepy_hot_stuff.Crypto.{complement, gen_sig, verify_sig}
use sleepy_hot_stuff.Db.{no_persist}
use sleepy_hot_stuff.Communication.Connection
use sleepy_hot_stuff.Quorum.Sizes.{quorum_of, faults}
use sleepy_hot_stuff.Quorum.Buffer
use sleepy_hot_stuff.Quorum.Buffer.{ids_of, sigs_of}
use sleepy_hot_stuff.Quorum.Intersection.{IsReplica}
use sleepy_hot_stuff.Consensus.State.{Effect, set_live, persist, emit, send_to_node}
use sleepy_hot_stuff.Consensus.Status.{is_prepared, update_buffer_content}
use sleepy_hot_stuff.Consensus.Certificates.{verify_qc, verify_votes}
use sleepy_hot_stuff.Consensus.Block.{
  handle_normal_msg, verify_block, await_decision, accept_block, process_qc_info, vote,
}
use sleepy_hot_stuff.Consensus.Propose.{
  handle_normal_rep_msg, matches_awaited, count_vote, has_quorum, add_vote, certify,
  certified_block,
}
use sleepy_hot_stuff.Consensus.Propose.Votes.{VouchedVotes}
use sleepy_hot_stuff.Consensus.Dispatch.{message, step, switch, handle_qc_byte_msg}
use sleepy_hot_stuff.Consensus.Network.{
  Net, VoteSent, update, stamp, at, acted, after, acts, Reach, here, next, Fresh,
}
use sleepy_hot_stuff.Consensus.Network.Voting.{Backed, Reach-Backed}
use sleepy_hot_stuff.Consensus.Network.Agreement.{VotedBoth, Reach-VotedBoth}
use sleepy_hot_stuff.Examples.Setup.{
  good_sig, block_at, test_env, test_env-SignaturesRoundTrip, test_replica, vote_by,
}

-- Block 2 with the votes of three replicas.
abbrev parent : QcBlock
parent = record (block_at 2) {
  qc = good_sig ∷ good_sig ∷ good_sig ∷ [];
  ids = pos 0 ∷ pos 1 ∷ pos 2 ∷ [];
}

-- One byte is a proposal for height 3 with this hash. With more bytes, it is a vote for the hash, and the
-- number of the bytes after the second is the voter.
abbrev message_of : Bytes → HotStuffMessage
message_of [] = zero_message MessageType.qc
message_of (x ∷ []) = record (zero_message MessageType.qc) {
  view = pos 1;
  seq = pos 3;
  source = pos 0;
  hash = some (x ∷ []);
}
message_of (x ∷ y ∷ bs) = record (vote_by (length bs)) { hash = some (x ∷ []) }

abbrev known : ℤ → Bool
known id = leb_ℤ (pos 0) id && ltb_ℤ id (pos 4)

-- Messages are written as their hash, and every certificate is that of block 2.
abbrev env : Env
env = record (test_env no_persist) {
  codec = record (test_env no_persist).codec {
    marshal_message = λ m. some (bytes_to_string m.hash);
    unmarshal_message = message_of;
    unmarshal_block = λ b. parent;
  };
  has_key = known;
}

abbrev sign : ℤ → Bytes → Bytes × Bytes
sign i = env.ecdsa_sign

env-SignaturesRoundTrip : SignaturesRoundTrip env
env-SignaturesRoundTrip s = test_env-SignaturesRoundTrip no_persist s

only_replicas : (id : ℤ) → env.has_key id ≡ true → IsReplica 4 id
only_replicas id h = ground arith

abbrev start : Net
start = record { site = λ i. record test_replica { id = i; leader = false }; sent = [] }

-- Replica 3 is faulty.
abbrev faulty : List ℤ
faulty = pos 3 ∷ []

abbrev clock : ℕ → ℤ
clock n = pos n

abbrev receives : ℕ → Bytes → Net → Net
receives i b s = after s (pos i) (acted (at env sign (pos i) clock) (message b) (s.site (pos i)))

-- The replicas 0 and 1 vote for the proposal 5, and 0 collects its own vote and that of 3.
abbrev both_voted : Net
both_voted = receives 1 (5 ∷ []) (receives 0 (5 ∷ []) start)

abbrev collected : Net
collected = receives 0 (5 ∷ 0 ∷ 0 ∷ 0 ∷ 0 ∷ []) (receives 0 (5 ∷ 0 ∷ []) both_voted)

-- They vote for the proposal 6 too, and 1 collects the votes of 0 and 3.
abbrev both_voted_again : Net
both_voted_again = receives 1 (6 ∷ []) (receives 0 (6 ∷ []) collected)

abbrev collected_again : Net
collected_again = receives 1 (6 ∷ 0 ∷ 0 ∷ 0 ∷ 0 ∷ []) (receives 1 (6 ∷ 0 ∷ []) both_voted_again)

abbrev vote_for : ℕ → ℕ → HotStuffMessage
vote_for i h = record (vote_by i) { hash = some (h ∷ []) }

abbrev sends : ℕ → ℕ → ℤ × Effect
sends i h = (pos i, send_to_node (h ∷ []) (pos 0))

vote_there :
    (sent : List (ℤ × Effect)) (i h : ℕ) → Mem (sends i h) sent → VoteSent env sent (pos i) (h ∷ [])
unfolding bytes_to_string
vote_there sent i h m = record {
  ballot = vote_for i h;
  msg = h ∷ [];
  dest = pos 0;
  there = m;
  written = refl;
  kind = refl;
  by = refl;
  voted = refl;
}

abbrev two_votes : List (ℤ × Effect)
two_votes = sends 0 5 ∷ sends 1 5 ∷ []

abbrev four_votes : List (ℤ × Effect)
four_votes = sends 0 5 ∷ sends 1 5 ∷ sends 0 6 ∷ sends 1 6 ∷ []

-- What is sent, whether the replicas live, and what the last votes do.
record Facts : Type 0 where
  sent_two : both_voted.sent ≡ two_votes
  still_two : collected.sent ≡ two_votes
  sent_four : both_voted_again.sent ≡ four_votes
  still_four : collected_again.sent ≡ four_votes
  quorum_first : (collected.site (pos 0)).sizes.quorum ≡ pos (quorum_of 4)
  quorum_other : (collected_again.site (pos 1)).sizes.quorum ≡ pos (quorum_of 4)
  from_first : (collected.site (pos 0)).cur_block.height ≡ pos 2
  from_other : (collected_again.site (pos 1)).cur_block.height ≡ pos 2
  to_first :
      (handle_normal_rep_msg
        (at env sign (pos 0) clock)
        (vote_for 1 5)
        (collected.site (pos 0))).cur_block.height
      ≡ pos 3
  to_other :
      (handle_normal_rep_msg
        (at env sign (pos 1) clock)
        (vote_for 1 6)
        (collected_again.site (pos 1))).cur_block.height
      ≡ pos 3

facts : Facts
unfolding update stamp step handle_qc_byte_msg Map.contains set_live switch handle_normal_msg
    verify_block await_decision verify_qc verify_votes verify_sig bytes_to_string accept_block vote
    gen_sig complement process_qc_info emit handle_normal_rep_msg matches_awaited IntByteMap.get
    Map.get count_vote is_prepared StringIntMap.get has_quorum add_vote Buffer.get_len
    Buffer.insert_value Map.insert bytes_eq len set_list add_item Buffer.cer_insert ids_of sigs_of
    new_set Connection.set_live certify certified_block update_buffer_content persist
    StringIntMap.insert add_int ◌+ℤ◌ quorum_of faults
facts = record {
  sent_two = refl;
  still_two = refl;
  sent_four = refl;
  still_four = refl;
  quorum_first = refl;
  quorum_other = refl;
  from_first = refl;
  from_other = refl;
  to_first = refl;
  to_other = refl;
}

-- The votes that the replicas 0 and 1 have sent.
vote_5_by_0 : VoteSent env both_voted.sent (pos 0) (5 ∷ [])
vote_5_by_0 = vote_there both_voted.sent 0 5 (rw facts.sent_two (mem-cons.1 (Or.inl refl)))

vote_5_by_1 : VoteSent env collected.sent (pos 1) (5 ∷ [])
vote_5_by_1 =
    vote_there collected.sent 1 5
      (rw facts.still_two (mem-cons.1 (Or.inr (mem-cons.1 (Or.inl refl)))))

vote_6_by_0 : VoteSent env both_voted_again.sent (pos 0) (6 ∷ [])
vote_6_by_0 =
    vote_there both_voted_again.sent 0 6
      (rw facts.sent_four (mem-cons.1 (Or.inr (mem-cons.1 (Or.inr (mem-cons.1 (Or.inl refl)))))))

vote_6_by_1 : VoteSent env collected_again.sent (pos 1) (6 ∷ [])
vote_6_by_1 = vote_there collected_again.sent 1 6 (
    rw facts.still_four
      (mem-cons.1 (Or.inr (mem-cons.1 (Or.inr (mem-cons.1 (Or.inr (mem-cons.1 (Or.inl refl)))))))))

reached : Reach env sign faulty start collected
unfolding update stamp step handle_qc_byte_msg Map.contains set_live switch handle_normal_msg
    verify_block await_decision verify_qc verify_votes verify_sig bytes_to_string accept_block vote
    gen_sig complement process_qc_info emit handle_normal_rep_msg matches_awaited IntByteMap.get
    Map.get count_vote is_prepared StringIntMap.get has_quorum add_vote Buffer.get_len
    Buffer.insert_value Map.insert bytes_eq len set_list add_item Buffer.cer_insert ids_of sigs_of
    new_set Connection.set_live certify certified_block update_buffer_content persist
    StringIntMap.insert add_int ◌+ℤ◌ quorum_of faults
reached =
    next
      (next
        (next (next here (acts (pos 0) clock (message (5 ∷ [])) refl refl (λ q. cc)))
          (acts (pos 1) clock (message (5 ∷ [])) refl refl (λ q. cc)))
        (acts (pos 0) clock (message (5 ∷ 0 ∷ [])) refl refl (λ q v c. vote_5_by_0)))
      (acts (pos 0) clock (message (5 ∷ 0 ∷ 0 ∷ 0 ∷ 0 ∷ [])) refl refl (λ q v c. cc))

reached_again : Reach env sign faulty start collected_again
unfolding update stamp step handle_qc_byte_msg Map.contains set_live switch handle_normal_msg
    verify_block await_decision verify_qc verify_votes verify_sig bytes_to_string accept_block vote
    gen_sig complement process_qc_info emit handle_normal_rep_msg matches_awaited IntByteMap.get
    Map.get count_vote is_prepared StringIntMap.get has_quorum add_vote Buffer.get_len
    Buffer.insert_value Map.insert bytes_eq len set_list add_item Buffer.cer_insert ids_of sigs_of
    new_set Connection.set_live certify certified_block update_buffer_content persist
    StringIntMap.insert add_int ◌+ℤ◌ quorum_of faults
reached_again =
    next
      (next
        (next (next reached (acts (pos 0) clock (message (6 ∷ [])) refl refl (λ q. cc)))
          (acts (pos 1) clock (message (6 ∷ [])) refl refl (λ q. cc)))
        (acts (pos 1) clock (message (6 ∷ 0 ∷ [])) refl refl (λ q v c. vote_6_by_0)))
      (acts (pos 1) clock (message (6 ∷ 0 ∷ 0 ∷ 0 ∷ 0 ∷ [])) refl refl (λ q v c. cc))

by_height : (b c : QcBlock) → b.height ≡ pos 3 → c.height ≡ pos 2 → b ≢ c
by_height b c hb hc same = cc

fresh : Fresh start
fresh = record { no_votes = λ i. refl; no_certificate = λ i. refl }

Reach-VotedBoth_example :
    VotedBoth env faulty collected.sent collected_again.sent
      (handle_normal_rep_msg
        (at env sign (pos 0) clock)
        (vote_for 1 5)
        (collected.site (pos 0))).cur_block
      (handle_normal_rep_msg
        (at env sign (pos 1) clock)
        (vote_for 1 6)
        (collected_again.site (pos 1))).cur_block
unfolding bytes_to_string faults
Reach-VotedBoth_example =
    Reach-VotedBoth env sign faulty 4 start collected collected_again (pos 0) (pos 1) clock clock
      (vote_for 1 5) (vote_for 1 6) env-SignaturesRoundTrip only_replicas (omega arith)
      (omega arith) fresh reached reached_again (λ v c. vote_5_by_1) (λ v c. vote_6_by_1)
      facts.quorum_first facts.quorum_other (by_height _ _ facts.to_first facts.from_first)
      (by_height _ _ facts.to_other facts.from_other)

-- What the replicas have collected when 0 has the votes of 0 and 3.
Reach-Backed_example : VouchedVotes (Backed env sign faulty collected.sent) (collected.site (pos 0))
Reach-Backed_example = Reach-Backed env sign faulty start collected (pos 0) fresh reached
