-- ===== src/Consensus/SleepTest/Sleepers.antt =====
-- How many replicas the test of partial churn puts to sleep, and that the others are enough.
use sleepy_hot_stuff.Base.{
  ℕ, zero, suc, ◌+◌, ◌-◌, ◌≤◌, ◌<◌, ◌^◌, ◌≡◌, some, arith, if◌then◌else◌, pos, leb_ℤ,
}
use sleepy_hot_stuff.Env.{Env}
use sleepy_hot_stuff.Quorum.Sizes.{Sizes, sleepy_no_gat, sleepy_quorum_sizes}
use sleepy_hot_stuff.Consensus.Start.{sleepy_hotstuff_config}
use sleepy_hot_stuff.Consensus.Start.Sleepy.{sub_int-pos, sleepy_hotstuff_config-IsQuorum}
use sleepy_hot_stuff.Consensus.SleepTest.{TestParam, param_of_sleepy_replica}

-- The sleepers among the replicas with the ids below a number.
unfoldable pub sleepers : Env → TestParam → ℕ → ℕ
sleepers e p zero = 0
sleepers e p (suc k) =
    let rest = sleepers e p k in if (param_of_sleepy_replica e p (pos k)).0 then suc rest else rest

module _ (e : Env) (p : TestParam) (ss : ℕ) where
  sleeps-from :
      (k : ℕ)
      → e.test_id ≡ pos 1
      → p.num_of_actual_sleep ≡ pos ss
      → ss ≤ e.num_replicas
      → e.num_replicas < 2 ^ 62
      → (param_of_sleepy_replica e p (pos k)).0 ≡ leb_ℤ (pos (e.num_replicas - ss)) (pos k)
  unfolding param_of_sleepy_replica
  sleeps-from k test number below small =
      rw (test, number, sub_int-pos e.num_replicas ss below small) (ground arith)

  sleepers-below :
      (k : ℕ)
      → e.test_id ≡ pos 1
      → p.num_of_actual_sleep ≡ pos ss
      → ss ≤ e.num_replicas
      → e.num_replicas < 2 ^ 62
      → sleepers e p k ≡ k - (e.num_replicas - ss)
  unfolding sleepers
  sleepers-below zero test number below small = omega arith
  sleepers-below (suc k) test number below small =
      ground
        (arith, sleepers-below k test number below small, sleeps-from k test number below small)

-- In the test of partial churn, with at most as many actual sleepers as the configuration without GAT
-- provides for, the replicas that stay awake and are not faulty are enough for a quorum: `f` may be
-- faulty beside the `ss` replicas that the test puts to sleep.
pub sleepers-leave_quorum :
    (e : Env) (p : TestParam) (z : Sizes) (f s ss : ℕ)
    → e.test_id ≡ pos 1
    → p.num_of_actual_sleep ≡ pos ss
    → ss ≤ s
    → sleepy_hotstuff_config e ≡ some sleepy_no_gat
    → e.num_of_mal ≡ pos f
    → e.num_of_sleepy ≡ pos s
    → 1 ≤ e.num_replicas
    → e.num_replicas < 2 ^ 62
    → (sleepers e p e.num_replicas ≡ ss)
      × ((size : ℕ) × ((sleepy_quorum_sizes z
              (pos e.num_replicas)
              e.num_of_mal
              e.num_of_sleepy
              sleepy_no_gat).quorum
            ≡ pos size)
          × (size + f + sleepers e p e.num_replicas ≤ e.num_replicas))
sleepers-leave_quorum e p z f s ss test number fewer config mal sleepy_ones one small =
    let q =
      sleepy_hotstuff_config-IsQuorum e z sleepy_no_gat f s config mal sleepy_ones one small in
    let asleep =
      sleepers-below e p ss e.num_replicas test number (omega (arith, q.reachable)) small in
    (omega (arith, asleep, q.reachable), (q.size, q.is_size, omega (arith, asleep, q.reachable)))
