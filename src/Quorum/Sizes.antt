-- ===== src/Quorum/Sizes.antt =====
-- quorum/quorum.go: the numbers of replicas that a step waits for.
use sleepy_hot_stuff.Base.{
  ℕ, ◌+◌, ◌-◌, ◌*◌, ◌/◌, ◌%◌, ◌≤◌, ◌<◌, arith, ltb, if◌then◌else◌, ℤ, pos, sub_int,
}

pub record Sizes : Type 0 where
  pub n : ℤ
  pub f : ℤ
  pub quorum : ℤ
  pub rec_quorum : ℤ
  pub squorum : ℤ
  pub half : ℤ

-- Package variables start at 0.
abbrev pub zero_sizes : Sizes
zero_sizes = record {
  n = pos 0;
  f = pos 0;
  quorum = pos 0;
  rec_quorum = pos 0;
  squorum = pos 0;
  half = pos 0;
}

-- The number of faults that `num` replicas stand. Go's division rounds towards 0, so no replica gives
-- 0 here as there.
unfoldable pub faults : ℕ → ℕ
faults num = (num - 1) / 3

unfoldable pub quorum_of : ℕ → ℕ
unfolding faults
quorum_of num =
    let q = (num + faults num + 1) / 2 in if ltb 0 ((num + faults num + 1) % 2) then q + 1 else q

-- `SetQuorumSizes`, and the first half of `StartQuorum`. The number of replicas is a length.
unfoldable pub set_quorum_sizes : Sizes → ℕ → Sizes
set_quorum_sizes z num = record z {
  n = pos num;
  f = pos (faults num);
  quorum = pos (quorum_of num);
  squorum = pos (faults num + 1);
}

-- The strings "3f+1", "3f+s+1" and "3f+2s+1"; `none_of_them` is any other string.
pub data Level : Type 0 where
  plain sleepy_gat sleepy_no_gat none_of_them : Level

-- `StartSleepyHotstuffQuorum` up to the resets.
unfoldable pub sleepy_quorum_sizes : Sizes → ℤ → ℤ → ℤ → Level → Sizes
sleepy_quorum_sizes z num fal s plain = record z { n = num; f = fal; quorum = sub_int num fal }
sleepy_quorum_sizes z num fal s sleepy_gat = record z {
  n = num;
  f = fal;
  quorum = sub_int num fal;
  rec_quorum = sub_int (sub_int num fal) s;
}
sleepy_quorum_sizes z num fal s sleepy_no_gat = record z {
  n = num;
  f = fal;
  quorum = sub_int (sub_int num fal) s;
  rec_quorum = sub_int (sub_int num fal) s;
}
sleepy_quorum_sizes z num fal s none_of_them = record z { n = num; f = fal }

-- For one replica or more, of which `(num - 1) / 3` may be faulty: any two quorums share a correct
-- replica, the correct replicas are a quorum, and no smaller number would do.
pub quorum_of_tight :
    (num : ℕ)
    → 1 ≤ num
    → (num + faults num + 1 ≤ 2 * quorum_of num)
      × (quorum_of num + faults num ≤ num)
      × (2 * (quorum_of num - 1) < num + faults num + 1)
unfolding quorum_of faults
quorum_of_tight num h = ground arith
