-- ===== src/Consensus/Start.antt =====
-- hotstuff.go `InitHotStuff`, the choice of the quorum sizes in test_sleepy_hotstuff.go and
-- sleepyRec.go, and falling asleep. Waking runs the initialisation again over what memory still holds.
pub mod Sleepy
use sleepy_hot_stuff.Base.{
  ℕ, ◌==◌, Bool, true, false, ◌||◌, not, Option, none, some, List, [], ◌∷◌, if◌then◌else◌, length,
  Bytes, ℤ, pos, ◌+ℤ◌, ◌*ℤ◌, eq_ℤ, leb_ℤ,
}
use sleepy_hot_stuff.Utils.Values.{int_to_bytes}
use sleepy_hot_stuff.Utils.IntByteMap
use sleepy_hot_stuff.Utils.IntBytesMap
use sleepy_hot_stuff.Utils.IntIntMap
use sleepy_hot_stuff.Utils.StringIntMap
use sleepy_hot_stuff.Message.{zero_block}
use sleepy_hot_stuff.Env.{Env}
use sleepy_hot_stuff.Db.{codes, persist_all, persist_critical, no_persist}
use sleepy_hot_stuff.Quorum.Sizes.{
  Sizes, Level, plain, sleepy_gat, sleepy_no_gat, none_of_them, set_quorum_sizes,
  sleepy_quorum_sizes,
}
use sleepy_hot_stuff.Quorum.Buffer.{empty_certificate}
use sleepy_hot_stuff.Quorum.IntBuffer
use sleepy_hot_stuff.Consensus.State.{Replica, sleeping, crash, persist}
use sleepy_hot_stuff.Consensus.View.{set_view}

-- The persistence level and GAT choose the protocol.
unfoldable pub choose_level : ℤ → Bool → Level
choose_level plevel true = if eq_ℤ plevel no_persist then sleepy_gat else plain
choose_level plevel false = sleepy_no_gat

-- The number of replicas that a protocol wants. Products and sums of the configured numbers are exact.
unfoldable pub wanted : Level → ℤ → ℤ → ℤ
wanted plain f s = pos 3 *ℤ f +ℤ pos 1
wanted sleepy_gat f s = pos 3 *ℤ f +ℤ s +ℤ pos 1
wanted sleepy_no_gat f s = pos 3 *ℤ f +ℤ pos 2 *ℤ s +ℤ pos 1
wanted none_of_them f s = pos 0

-- `SleepyHotstuffConfig`: the protocol, or `none` for an error.
unfoldable pub sleepy_hotstuff_config : Env → Option Level
unfolding choose_level wanted
sleepy_hotstuff_config e =
    let level = choose_level e.persist_level e.gat in
    if leb_ℤ (pos e.num_replicas) (pos 3 *ℤ e.num_of_mal)
    then none
    else (if eq_ℤ (pos e.num_replicas) (wanted level e.num_of_mal e.num_of_sleepy)
        then some level
        else none)

clear_quorum : Replica → Replica
clear_quorum r = record r {
  votes_pp = [];
  votes_cm = [];
  cer = empty_certificate;
  intbuffer = IntBuffer.init;
}

unfoldable pub start_quorum : ℕ → Replica → Replica
unfolding clear_quorum
start_quorum num r = clear_quorum (record r { sizes = set_quorum_sizes r.sizes num })

unfoldable pub start_sleepy_quorum : Env → Option Level → Replica → Replica
unfolding clear_quorum
start_sleepy_quorum e none r = crash r
start_sleepy_quorum e (some level) r = clear_quorum (record r {
  sizes = sleepy_quorum_sizes r.sizes (pos e.num_replicas) e.num_of_mal e.num_of_sleepy level;
})

-- `InTestConfig`, and `StartQuorum` where no test is on.
unfoldable pub configure_quorum : Env → Replica → Replica
configure_quorum e r =
    if eq_ℤ e.test_id (pos 1) || eq_ℤ e.test_id (pos 4)
    then start_sleepy_quorum e (sleepy_hotstuff_config e) r
    else (if eq_ℤ e.test_id (pos 0) || eq_ℤ e.test_id (pos 2) || eq_ℤ e.test_id (pos 3)
        then start_quorum e.num_replicas r
        else r)

-- The containers, and their copies in the database.
reset_containers : Env → Replica → Replica
reset_containers e r =
    let empty = e.marshal_blocks IntByteMap.init in
    let r1 =
      persist e (codes "Sequence") (int_to_bytes (pos 0)) persist_all
        (record r { sequence = pos 0; view = pos 0 }) in
    let r2 =
      persist e (codes "votedBlocks") empty persist_all
        (record r1 { voted_blocks = IntByteMap.init }) in
    let r3 =
      persist e (codes "awaitingBlocks") empty persist_all
        (record r2 { awaiting_blocks = IntByteMap.init; awaiting_blocks_txs = IntBytesMap.init }) in
    let r4 =
      persist e (codes "awaitingDecision") empty persist_all
        (record r3 { awaiting_decision = IntByteMap.init }) in
    persist e (codes "awaitingDecisionCopy") empty persist_all
      (record r4 { awaiting_decision_copy = IntByteMap.init })

-- Committed blocks that are still in memory stay.
reset_committed : Env → Replica → Replica
reset_committed e r =
    if IntByteMap.get_len r.committed_blocks == 0
    then persist e (codes "committedBlocks") (e.marshal_blocks IntByteMap.init) persist_critical
        (record r { committed_blocks = IntByteMap.init })
    else r

unfoldable pub init_hotstuff : Env → Replica → Replica
unfolding reset_containers reset_committed
init_hotstuff e r =
    let r1 = configure_quorum e (record r { buffer = StringIntMap.init }) in
    let r2 = set_view e (pos 0) (reset_committed e (reset_containers e r1)) in
    record r2 {
      timeout_buffer = IntBuffer.init;
      rec_buffer = StringIntMap.init;
      cur_block = zero_block;
      locked_block = zero_block;
      cur_hash = none;
      vc_awaiting_votes = IntIntMap.init;
      force_print = true;
    }

-- `SleepProcess` around its sleep: the replica ignores messages from here,
unfoldable pub fall_asleep : Replica → Replica
fall_asleep r = record r { cur_status = sleeping }

-- and initialises itself when the time is over.
unfoldable pub wake_up : Env → Replica → Replica
wake_up e r = init_hotstuff e r
