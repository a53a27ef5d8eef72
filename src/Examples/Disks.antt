-- ===== src/Examples/Disks.antt =====
-- The theorems on recovery and on the database, at concrete disks.
use sleepy_hot_stuff.Base.{
  ◌≡◌, refl, inr, ℤ, int_eq, if◌then◌else◌, false, none, some, [], ◌∷◌, arith, bytes_eq, string_eq,
  pos, add_int, ◌+ℤ◌,
}
use sleepy_hot_stuff.Utils.Map
use sleepy_hot_stuff.Utils.Map.{contains}
use sleepy_hot_stuff.Utils.Values.{bytes_to_string, int_to_bytes}
use sleepy_hot_stuff.Utils.IntByteMap
use sleepy_hot_stuff.Env.{Env}
use sleepy_hot_stuff.Db.{
  Disk, codes, recover_value, persist_value, read, persist_critical, is_critical,
  recover_value-persist_value, write_fails,
}
use sleepy_hot_stuff.Consensus.State.{Replica, persist}
use sleepy_hot_stuff.Consensus.View.{set_view}
use sleepy_hot_stuff.Consensus.Start.{wake_up, init_hotstuff, configure_quorum, start_quorum}
use sleepy_hot_stuff.Consensus.Recovery.{recover_from_disk, decode_into}
use sleepy_hot_stuff.Consensus.Recovery.Disk.{
  Stores, Restored, recover_from_disk-restores, wake_up-forgets_view,
}
use sleepy_hot_stuff.Examples.Setup.{block_at, test_env, test_replica}

abbrev env : Env
env = test_env persist_critical

-- View 7, block 2 and one committed block.
abbrev disk : Disk
disk =
    (codes "view", 0 ∷ 0 ∷ 0 ∷ 0 ∷ 0 ∷ 0 ∷ 0 ∷ 7 ∷ [])
    ∷ (codes "lockedBlock", 0 ∷ 0 ∷ [])
    ∷ (codes "committedBlocks", 0 ∷ [])
    ∷ []

-- A block at height 2 is still in memory.
abbrev rebooted : Replica
rebooted = record test_replica { disk = disk; committed_blocks = (pos 2, none) ∷ [] }

rebooted-Stores : Stores env rebooted (pos 7) (block_at 2) ((pos 1, some (0 ∷ [])) ∷ [])
unfolding recover_value is_critical Map.get bytes_eq int_to_bytes bytes_to_string contains
rebooted-Stores = record {
  block_bytes = 0 ∷ 0 ∷ [];
  map_bytes = 0 ∷ [];
  view_stored = refl;
  block_stored = refl;
  map_stored = refl;
  block_read = refl;
  block_ok = refl;
  map_read = refl;
  map_ok = refl;
  map_keys = (refl, tt);
}

recover_from_disk-restores_example :
    Restored
      (recover_from_disk env rebooted)
      (pos 8)
      (block_at 2)
      ((pos 2, none) ∷ (pos 1, some (0 ∷ [])) ∷ [])
    × ((k : ℤ)
        → IntByteMap.get (recover_from_disk env rebooted).committed_blocks k ≡ (
            if contains k (pos 1 ∷ [])
            then IntByteMap.get ((pos 1, some (0 ∷ [])) ∷ []) k
            else IntByteMap.get ((pos 2, none) ∷ []) k))
unfolding add_int ◌+ℤ◌ decode_into IntByteMap.insert Map.insert
recover_from_disk-restores_example =
    recover_from_disk-restores env rebooted (pos 7) (block_at 2) ((pos 1, some (0 ∷ [])) ∷ []) refl
      rebooted-Stores (omega arith) (omega arith) (omega arith)

survives : (wake_up env rebooted).halted ≡ false
unfolding wake_up init_hotstuff set_view persist write_fails configure_quorum start_quorum
    IntByteMap.get_len int_to_bytes
survives = refl

wake_up-forgets_view_example :
    recover_value persist_critical (codes "view") (wake_up env rebooted).disk
    ≡ read (bytes_to_string (int_to_bytes (pos 0)))
wake_up-forgets_view_example = wake_up-forgets_view env rebooted refl survives

recover_value-persist_value_example :
    recover_value persist_critical
      (codes "lockedBlock")
      (persist_value persist_critical (codes "lockedBlock") (some (3 ∷ [])) persist_critical disk)
    ≡ read (3 ∷ [])
recover_value-persist_value_example =
    recover_value-persist_value persist_critical persist_critical (codes "lockedBlock") (3 ∷ [])
      disk (omega arith) (inr (refl, inr (inr refl)))
