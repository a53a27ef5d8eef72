-- ===== src/Examples/Proposals.antt =====
-- The theorem on repeated votes, at two proposals for height 3 on one certified block.
use sleepy_hot_stuff.Base.{false, ◌≡◌, refl, some, [], ◌∷◌, pos}
use sleepy_hot_stuff.Utils.Values.{bytes_to_string}
use sleepy_hot_stuff.Message.{MessageType, HotStuffMessage, QcBlock, zero_message}
use sleepy_hot_stuff.Env.{Env}
use sleepy_hot_stuff.Crypto.{complement, gen_sig, verify_sig}
use sleepy_hot_stuff.Db.{no_persist}
use sleepy_hot_stuff.Consensus.State.{Replica, send_to_node}
use sleepy_hot_stuff.Consensus.Certificates.{verify_qc, verify_votes}
use sleepy_hot_stuff.Consensus.Block.{handle_normal_msg, verify_block, vote_message}
use sleepy_hot_stuff.Consensus.Block.Twice.{handle_normal_msg-votes_twice}
use sleepy_hot_stuff.Examples.Setup.{good_sig, block_at, test_env, test_replica}

-- Block 2 with three votes.
abbrev certified : QcBlock
certified = record (block_at 2) {
  qc = good_sig ∷ good_sig ∷ good_sig ∷ [];
  ids = pos 1 ∷ pos 2 ∷ pos 3 ∷ [];
}

-- Messages are written as their hash, and every certificate is that of block 2.
abbrev env : Env
env = record (test_env no_persist) {
  codec = record (test_env no_persist).codec {
    marshal_message = λ m. some (bytes_to_string m.hash);
    unmarshal_block = λ b. certified;
  };
}

-- A proposal of replica 2 for height 3.
abbrev proposal : HotStuffMessage
proposal = record (zero_message MessageType.qc) {
  view = pos 1;
  seq = pos 3;
  source = pos 2;
  hash = some (5 ∷ []);
}

abbrev follower : Replica
follower = record test_replica { leader = false }

handle_normal_msg-votes_twice_example :
    (handle_normal_msg env
      (record proposal { hash = some (6 ∷ []) })
      (handle_normal_msg env proposal follower)).out
    ≡ send_to_node (5 ∷ []) (pos 2) ∷ send_to_node (6 ∷ []) (pos 2) ∷ []
unfolding verify_block verify_qc verify_votes verify_sig gen_sig complement bytes_to_string
    vote_message
handle_normal_msg-votes_twice_example =
    handle_normal_msg-votes_twice env refl follower proposal (some (6 ∷ [])) (5 ∷ []) (6 ∷ []) refl
      refl
      (record {
        timely = refl;
        stable = refl;
        empty = refl;
        chained = refl;
        held = refl;
        verified = refl;
        signed = refl;
        text = refl;
      })
      (record {
        timely = refl;
        stable = refl;
        empty = refl;
        chained = refl;
        held = refl;
        verified = refl;
        signed = refl;
        text = refl;
      })
