-- ===== src/Examples/Handlers.antt =====
-- The theorems on handlers, at concrete messages.
use sleepy_hot_stuff.Base.{
  All, int_eq, ◌≡◌, ◌≢◌, refl, true, false, some, List, [], ◌∷◌, arith, pos, ◌↔◌, ◌⊎◌, length,
  ltb_ℤ, ◌≤ℤ◌, add_int, ◌+ℤ◌, bytes_eq, if◌then◌else◌,
}
use sleepy_hot_stuff.Utils.Map
use sleepy_hot_stuff.Utils.Map.{Distinct}
use sleepy_hot_stuff.Utils.Values.{Slice, bytes_to_string}
use sleepy_hot_stuff.Utils.Sets.{new_set, set_list, len, add_item}
use sleepy_hot_stuff.Message.{QcBlock}
use sleepy_hot_stuff.Env.{Env}
use sleepy_hot_stuff.Crypto.{verify_sig}
use sleepy_hot_stuff.Db.{no_persist}
use sleepy_hot_stuff.Utils.IntByteMap
use sleepy_hot_stuff.Utils.StringIntMap
use sleepy_hot_stuff.Quorum.Buffer
use sleepy_hot_stuff.Quorum.Buffer.{votes, ids_of, sigs_of}
use sleepy_hot_stuff.Consensus.Status.{is_prepared, update_buffer_content}
use sleepy_hot_stuff.Consensus.State.{Replica, persist}
use sleepy_hot_stuff.Consensus.Certificates.{verify_tqc, verify_qc}
use sleepy_hot_stuff.Consensus.Certificates.Timeouts.{IsTimeout, sources, verify_tqc_iff}
use sleepy_hot_stuff.Consensus.Certificates.Votes.{verify_qc-counts_only}
use sleepy_hot_stuff.Consensus.View.{leader_id}
use sleepy_hot_stuff.Consensus.NewLeader.{handle_qc_new_view}
use sleepy_hot_stuff.Consensus.Block.{process_qc_info}
use sleepy_hot_stuff.Consensus.Block.Chain.{
  Chain, adopted, locks, after_commit, process_qc_info-Chain,
}
use sleepy_hot_stuff.Consensus.Propose.{
  handle_normal_rep_msg, matches_awaited, count_vote, has_quorum, add_vote, certify,
  certified_block,
}
use sleepy_hot_stuff.Consensus.Dispatch.{handle_qc_byte_msg}
use sleepy_hot_stuff.Consensus.Dispatch.Views.{
  Leads, handle_qc_byte_msg-keeps_leader, handle_qc_new_view-usurps,
}
use sleepy_hot_stuff.Examples.Setup.{bad_sig, timeout_by, block_at, test_env, test_replica, vote_by}

abbrev env : Env
env = test_env no_persist

-- A replica for which one vote is a quorum, before it has any.
abbrev voteless : Replica
voteless = record test_replica { sizes = record test_replica.sizes { quorum = pos 1 } }

-- A vote by replica 3 certifies a block, under its identity.
vote_certifies : (handle_normal_rep_msg env (vote_by 3) voteless).cur_block.ids ≡ pos 3 ∷ []
unfolding handle_normal_rep_msg matches_awaited IntByteMap.get Map.get verify_sig bytes_to_string
    count_vote is_prepared StringIntMap.get has_quorum add_vote Buffer.get_len Buffer.insert_value
    Map.insert bytes_eq len set_list add_item certify certified_block Buffer.fetch_cer
    Buffer.fetch_signatures Buffer.marshal Buffer.cer_insert ids_of sigs_of new_set
    update_buffer_content persist StringIntMap.insert add_int ◌+ℤ◌
vote_certifies = refl

-- Block 3 commits block 1, locks block 2, and a leader keeps block 2 as its current one.
process_qc_info-Chain_example :
    Chain
      (process_qc_info env (block_at 3) (pos 3) test_replica)
      (adopted (block_at 3) test_replica)
      (if locks (block_at 3) test_replica then block_at 2 else block_at 1)
      (after_commit env (block_at 3) test_replica)
process_qc_info-Chain_example = process_qc_info-Chain env (block_at 3) (pos 3) test_replica

-- A timeout certificate of view 4 takes the replica from view 1 to view 5.
handle_qc_byte_msg-keeps_leader_example :
    (test_replica.view ≤ℤ (handle_qc_byte_msg env [] test_replica).view)
    × Leads env (handle_qc_byte_msg env [] test_replica)
    × ((handle_qc_byte_msg env [] test_replica).id ≡ pos 1)
unfolding bytes_to_string leader_id
handle_qc_byte_msg-keeps_leader_example =
    handle_qc_byte_msg-keeps_leader env [] test_replica (λ h. cc) (omega arith) (omega arith) refl

-- Replica 1 leads view 5, which the message names, and not view 2, in which it is.
handle_qc_new_view-usurps_example :
    ¬ Leads env
      (handle_qc_new_view env (0 ∷ 0 ∷ 0 ∷ 0 ∷ 0 ∷ []) (record test_replica { view = pos 2 }))
unfolding leader_id
handle_qc_new_view-usurps_example =
    handle_qc_new_view-usurps env (0 ∷ 0 ∷ 0 ∷ 0 ∷ 0 ∷ []) (record test_replica { view = pos 2 })
      refl (λ h. cc)

verify_tqc_iff_example :
    (verify_tqc env (pos 3) (pos 4) (timeout_by 1 ∷ timeout_by 2 ∷ timeout_by 3 ∷ []) ≡ some true)
    ↔ ((pos 3 ≤ℤ pos 3)
        × All (IsTimeout env (pos 4)) (timeout_by 1 ∷ timeout_by 2 ∷ timeout_by 3 ∷ [])
        × Distinct (sources env (timeout_by 1 ∷ timeout_by 2 ∷ timeout_by 3 ∷ [])))
verify_tqc_iff_example =
    verify_tqc_iff env (pos 3) (pos 4) (timeout_by 1 ∷ timeout_by 2 ∷ timeout_by 3 ∷ [])
      (omega arith)

-- A certificate for the hash 5 by replicas 1 and 2, with these signatures.
abbrev signed_with : List Slice → QcBlock
signed_with sigs = record (block_at 5) { qc = sigs; ids = pos 1 ∷ pos 2 ∷ [] }

verify_qc-counts_only_example :
    (verify_qc env (pos 2) (signed_with (bad_sig ∷ [])) ≡ some false)
    ↔ ((length (bad_sig ∷ []) ≢ length (pos 1 ∷ pos 2 ∷ [])) ⊎ ltb_ℤ (pos 1) (pos 2) ≡ true)
verify_qc-counts_only_example =
    verify_qc-counts_only env (pos 2) (signed_with (bad_sig ∷ [])) (5 ∷ []) refl
