-- ===== src/Examples/Recoveries.antt =====
-- The theorems on reports, on the end of a recovery and on sleepers, at concrete inputs.
use sleepy_hot_stuff.Base.{
  ◌≡◌, ◌≤◌, ◌+◌, ◌+ℤ◌, ◌*ℤ◌, refl, true, some, ℕ, List, [], ◌∷◌, arith, Bytes, pos, int_eq,
}
use sleepy_hot_stuff.Utils.Map
use sleepy_hot_stuff.Utils.Map.{contains, Distinct}
use sleepy_hot_stuff.Utils.Values.{bytes_to_string}
use sleepy_hot_stuff.Utils.IntByteMap
use sleepy_hot_stuff.Utils.StringIntMap
use sleepy_hot_stuff.Message.{MessageType, HotStuffMessage, zero_message, zero_block}
use sleepy_hot_stuff.Env.{Env}
use sleepy_hot_stuff.Db.{no_persist}
use sleepy_hot_stuff.Quorum.Sizes.{zero_sizes, sleepy_no_gat, sleepy_quorum_sizes}
use sleepy_hot_stuff.Consensus.State.{Replica, ready, recovering}
use sleepy_hot_stuff.Consensus.Status.{is_prepared, get_buffer_content}
use sleepy_hot_stuff.Consensus.Certificates.{verify_qc}
use sleepy_hot_stuff.Consensus.Start.{sleepy_hotstuff_config}
use sleepy_hot_stuff.Consensus.Reports.{Block, genesis_block, save_committed_blocks_to_file}
use sleepy_hot_stuff.Consensus.Reports.Stamps.{block_stamps, ts_of}
use sleepy_hot_stuff.Consensus.Reports.Chain.{
  save_committed_blocks_to_file-Distinct, save_committed_blocks_to_file-covers,
}
use sleepy_hot_stuff.Consensus.Recovery.Ready.{
  Waits, IsAnswer, handle_echoes, handle_echoes-cur_status,
}
use sleepy_hot_stuff.Consensus.SleepTest.{TestParam}
use sleepy_hot_stuff.Consensus.SleepTest.Sleepers.{sleepers, sleepers-leave_quorum}
use sleepy_hot_stuff.Examples.Setup.{test_env, test_replica, timeout_by}

-- Every block holds the same two transactions, and no hash.
abbrev chain_env : Env
chain_env =
    let e = test_env no_persist in
    record e {
      codec = record e.codec {
        unmarshal_block = λ b. record zero_block { txs = timeout_by 1 ∷ timeout_by 2 ∷ [] };
      };
    }

abbrev with_blocks : Replica
with_blocks = record test_replica { committed_blocks = (pos 1, some []) ∷ (pos 2, some []) ∷ [] }

save_committed_blocks_to_file-Distinct_example :
    (blocks : List Block) × (save_committed_blocks_to_file chain_env with_blocks
      ≡ genesis_block ∷ blocks)
    × Distinct (block_stamps blocks)
save_committed_blocks_to_file-Distinct_example =
    save_committed_blocks_to_file-Distinct chain_env with_blocks

save_committed_blocks_to_file-covers_example :
    contains
      (ts_of chain_env (timeout_by 2))
      (block_stamps (save_committed_blocks_to_file chain_env with_blocks))
    ≡ true
unfolding IntByteMap.get IntByteMap.get_len Map.get
save_committed_blocks_to_file-covers_example =
    save_committed_blocks_to_file-covers chain_env with_blocks 1 (some []) 1 (timeout_by 2)
      (omega arith) refl refl

abbrev hash : Bytes
hash = 5 ∷ []

abbrev waiting : Replica
waiting = record test_replica {
  cur_status = recovering;
  req_hash = some hash;
  sizes = record test_replica.sizes { rec_quorum = pos 2 };
}

abbrev echo : HotStuffMessage
echo = record (zero_message MessageType.echo2) { hash = some hash }

waiting-Waits : Waits (pos 3) (pos 2) hash 0 waiting
unfolding is_prepared get_buffer_content StringIntMap.get Map.get bytes_to_string
waiting-Waits = record {
  status = refl;
  request = refl;
  open_still = refl;
  counted = refl;
  needs = refl;
  needs_answers = refl;
}

echo-IsAnswer : IsAnswer chain_env (pos 3) hash echo
unfolding verify_qc bytes_to_string
echo-IsAnswer = record { answers = refl; prepares = refl; locks = refl }

handle_echoes-cur_status_example :
    (handle_echoes chain_env (echo ∷ echo ∷ []) waiting).cur_status ≡ ready
handle_echoes-cur_status_example =
    handle_echoes-cur_status chain_env (pos 3) 2 hash (echo ∷ echo ∷ []) waiting waiting-Waits
      (echo-IsAnswer, (echo-IsAnswer, tt)) (omega arith) (omega arith)

-- Six replicas, one of them faulty and one asleep.
abbrev churn_env : Env
churn_env =
    let e = test_env no_persist in
    record e {
      config = record e.config {
        num_replicas = 6;
        num_of_mal = pos 1;
        num_of_sleepy = pos 1;
        test_id = pos 1;
      };
    }

abbrev churn : TestParam
churn = record { replicas = []; num_of_actual_sleep = pos 1; sleep_time = pos 5; sleep_seq = pos 2 }

sleepers-leave_quorum_example :
    (sleepers churn_env churn 6 ≡ 1)
    × ((size : ℕ) × ((sleepy_quorum_sizes zero_sizes (pos 6) (pos 1) (pos 1) sleepy_no_gat).quorum
          ≡ pos size)
        × (size + 1 + sleepers churn_env churn 6 ≤ 6))
unfolding sleepy_hotstuff_config ◌+ℤ◌ ◌*ℤ◌
sleepers-leave_quorum_example =
    sleepers-leave_quorum churn_env churn zero_sizes 1 1 1 refl refl (omega arith) refl refl refl
      (omega arith) (omega arith)
