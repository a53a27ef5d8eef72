-- ===== src/Consensus/Start/Sleepy.antt =====
-- The sizes that the sleepy configurations set.
use sleepy_hot_stuff.Base.{
  ℕ, ◌+◌, ◌-◌, ◌*◌, ◌≤◌, ◌<◌, ◌^◌, ◌≡◌, refl, some, arith, ℤ, pos, ◌+ℤ◌, ◌*ℤ◌, ◌-ℤ◌, eq_ℤ_iff,
  sub_int,
}
use sleepy_hot_stuff.Env.{Env}
use sleepy_hot_stuff.Quorum.Sizes.{
  Sizes, Level, plain, sleepy_gat, sleepy_no_gat, none_of_them, sleepy_quorum_sizes,
}
use sleepy_hot_stuff.Consensus.Start.{sleepy_hotstuff_config, wanted}

-- Quorums of `q` among `n` replicas, `f` of them faulty: two of them share a correct replica, and the
-- `n - f` correct ones less `away` that sleep are enough for one.
pub record IsQuorum (n f away : ℕ) (q : ℤ) : Type 0 where
  pub size : ℕ
  pub is_size : q ≡ pos size
  pub intersects : n + f < 2 * size
  pub reachable : size + f + away ≤ n

-- How many sleepers the protocol goes on without.
abbrev pub away : Level → ℕ → ℕ
away sleepy_no_gat s = s
away _ s = 0

wanted_pos : (level : Level) (f s : ℕ) → ℕ
wanted_pos plain f s = 3 * f + 1
wanted_pos sleepy_gat f s = 3 * f + s + 1
wanted_pos sleepy_no_gat f s = 3 * f + 2 * s + 1
wanted_pos none_of_them f s = 0

wanted-pos : (level : Level) (f s : ℕ) → wanted level (pos f) (pos s) ≡ pos (wanted_pos level f s)
unfolding wanted wanted_pos ◌+ℤ◌ ◌*ℤ◌
wanted-pos plain f s = ground arith
wanted-pos sleepy_gat f s = ground arith
wanted-pos sleepy_no_gat f s = ground arith
wanted-pos none_of_them f s = refl

pub sub_int-pos : (n k : ℕ) → k ≤ n → n < 2 ^ 62 → sub_int (pos n) (pos k) ≡ pos (n - k)
unfolding sub_int ◌-ℤ◌
sub_int-pos n k h b = ground arith

sleepy_quorum_sizes-IsQuorum :
    (z : Sizes) (level : Level) (n f s : ℕ)
    → n ≡ wanted_pos level f s
    → 1 ≤ n
    → n < 2 ^ 62
    → IsQuorum n f (away level s) (sleepy_quorum_sizes z (pos n) (pos f) (pos s) level).quorum
unfolding sleepy_quorum_sizes wanted_pos
sleepy_quorum_sizes-IsQuorum z plain n f s h p b = record {
  size = n - f;
  is_size = sub_int-pos n f (omega arith) b;
  intersects = omega arith;
  reachable = omega arith;
}
sleepy_quorum_sizes-IsQuorum z sleepy_gat n f s h p b = record {
  size = n - f;
  is_size = sub_int-pos n f (omega arith) b;
  intersects = omega arith;
  reachable = omega arith;
}
sleepy_quorum_sizes-IsQuorum z sleepy_no_gat n f s h p b = record {
  size = n - f - s;
  is_size =
      rw (sub_int-pos n f (omega arith) b) (sub_int-pos (n - f) s (omega arith) (omega arith));
  intersects = omega arith;
  reachable = omega arith;
}
sleepy_quorum_sizes-IsQuorum z none_of_them n f s h p b = absurd (omega arith)

sleepy_hotstuff_config-wanted :
    (e : Env) (level : Level)
    → sleepy_hotstuff_config e ≡ some level
    → pos e.num_replicas ≡ wanted level e.num_of_mal e.num_of_sleepy
unfolding sleepy_hotstuff_config
sleepy_hotstuff_config-wanted e level h =
    ground (arith, h, eq_ℤ_iff (pos e.num_replicas) (wanted level e.num_of_mal e.num_of_sleepy))

as_number :
    (e : Env) (level : Level) (f s : ℕ)
    → sleepy_hotstuff_config e ≡ some level
    → e.num_of_mal ≡ pos f
    → e.num_of_sleepy ≡ pos s
    → e.num_replicas ≡ wanted_pos level f s
as_number e level f s h hf hs =
    let w = sleepy_hotstuff_config-wanted e level h in
    let v = wanted-pos level f s in ground (arith, w, v, hf, hs)

-- Where the sleepy configuration accepts the numbers of replicas, of faulty and of sleepy ones, the
-- quorum that is set for it is one: two quorums share a correct replica, and the correct replicas that
-- the protocol counts on are enough for one.
pub sleepy_hotstuff_config-IsQuorum :
    (e : Env) (z : Sizes) (level : Level) (f s : ℕ)
    → sleepy_hotstuff_config e ≡ some level
    → e.num_of_mal ≡ pos f
    → e.num_of_sleepy ≡ pos s
    → 1 ≤ e.num_replicas
    → e.num_replicas < 2 ^ 62
    → IsQuorum e.num_replicas f
        (away level s)
        (sleepy_quorum_sizes z (pos e.num_replicas) e.num_of_mal e.num_of_sleepy level).quorum
sleepy_hotstuff_config-IsQuorum e z level f s h hf hs p b =
    rw (hf, hs)
      (sleepy_quorum_sizes-IsQuorum z level e.num_replicas f s (as_number e level f s h hf hs) p b)
