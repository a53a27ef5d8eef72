-- ===== src/Consensus/SleepTest.antt =====
-- test_sleepy_hotstuff.go: which replicas a test puts to sleep, and what they go through.
pub mod Sleepers
use sleepy_hot_stuff.Base.{
  ℕ, Bool, true, false, ◌||◌, not, List, [], ◌∷◌, if◌then◌else◌, Bytes, bytes_eq, ℤ, pos, eq_ℤ,
  ltb_ℤ, leb_ℤ, sub_int,
}
use sleepy_hot_stuff.Utils.Text.{itoa}
use sleepy_hot_stuff.Env.{Env}
use sleepy_hot_stuff.Consensus.State.{Replica}
use sleepy_hot_stuff.Consensus.Recovery.{RecMode, no_rec, rec_koala2}
use sleepy_hot_stuff.Consensus.Dispatch.{Event, sleeps, wakes, recovers}

pub record SleepyReplica : Type 0 where
  pub id : Bytes
  pub sleep_time : ℤ
  pub sleep_seq : ℤ
  pub rec_mode : RecMode

pub record TestParam : Type 0 where
  pub replicas : List SleepyReplica
  pub num_of_actual_sleep : ℤ
  pub sleep_time : ℤ
  pub sleep_seq : ℤ

abbrev pub nobody : SleepyReplica
nobody = record { id = []; sleep_time = pos 0; sleep_seq = pos 0; rec_mode = no_rec }

-- The first entry of the replica.
unfoldable pub find_replica : List SleepyReplica → Bytes → Bool × SleepyReplica
find_replica [] id = (false, nobody)
find_replica (x ∷ replicas) id =
    let rest = find_replica replicas id in if bytes_eq x.id id then (true, x) else rest

-- In test 1 the last replicas sleep.
unfoldable pub param_of_sleepy_replica : Env → TestParam → ℤ → Bool × SleepyReplica
param_of_sleepy_replica e p id =
    if eq_ℤ e.test_id (pos 1)
    then (if leb_ℤ (sub_int (pos e.num_replicas) p.num_of_actual_sleep) id
        then (
          true,
          record {
            id = [];
            sleep_time = p.sleep_time;
            sleep_seq = p.sleep_seq;
            rec_mode = rec_koala2;
          },
        )
        else (false, nobody))
    else (if eq_ℤ e.test_id (pos 2) || eq_ℤ e.test_id (pos 3) || eq_ℤ e.test_id (pos 4)
        then find_replica p.replicas (itoa id)
        else (false, nobody))

-- The loop at the head of `SleepProcess` is over.
unfoldable pub sleep_is_due : SleepyReplica → Replica → Bool
sleep_is_due p r = not (ltb_ℤ r.sequence p.sleep_seq)

-- What `TestSleepAndRecover` does from there: the steps that it takes, while other steps go on.
unfoldable pub test_sleep_and_recover : Env → TestParam → ℤ → List Event
test_sleep_and_recover e p input =
    let (is_sleepy, x) = param_of_sleepy_replica e p input in
    if is_sleepy then sleeps ∷ wakes ∷ recovers x.rec_mode ∷ [] else []
