-- ===== src/Consensus/Boot.antt =====
-- def.go `StartHandler`: what a process does before its first event.
use sleepy_hot_stuff.Utils.IntByteMap
use sleepy_hot_stuff.Quorum.Sizes.{Level}
use sleepy_hot_stuff.Base.{
  ◌⊎◌, ◌++◌, ◌∷◌, ◌||◌, ℕ, ◌≡◌, Bool, true, false, Option, none, some, [], arith, if◌then◌else◌,
  Bytes, ℤ, pos, eq_ℤ, ltb_ℤ, ◌∙◌,
}
use sleepy_hot_stuff.Utils.Text.{atoi, atoi_value}
use sleepy_hot_stuff.Env.{Env}
use sleepy_hot_stuff.Db.{codes, persist_all}
use sleepy_hot_stuff.Communication.Connection
use sleepy_hot_stuff.Quorum.Buffer.{empty_certificate}
use sleepy_hot_stuff.Consensus.State.{Replica, ready, request_monitor, crash, persist, emit}
use sleepy_hot_stuff.Consensus.View.{leader_id}
use sleepy_hot_stuff.Consensus.Start.{
  sleepy_hotstuff_config, init_hotstuff, configure_quorum, start_quorum, start_sleepy_quorum,
}
use sleepy_hot_stuff.Consensus.Dispatch.Vouched.{init_hotstuff-SameVotes}
use sleepy_hot_stuff.Utils.StringIntMap
use sleepy_hot_stuff.Consensus.Network.{at, Fresh}

-- Both queues are written, empty, under the same key.
unfoldable pub init_queues : Env → Replica → Replica
init_queues e r =
    let r1 =
      persist e (codes "queue") (e.marshal_queue []) persist_all
        (record r { cur_status = ready; queue = [] }) in
    persist e (codes "queue") (e.marshal_queue []) persist_all r1

unfoldable pub reset_counts : Env → Replica → Replica
reset_counts e r =
    if ltb_ℤ (pos 0) e.eval_mode then record r { cur_ops = pos 0; total_ops = pos 0 } else r

-- The process with a valid id, where conf.json says whether HotStuff runs. Starting the sender makes
-- the table of live nodes anew.
unfoldable pub start_as : Env → Bool → ℤ → Replica → Replica
start_as e false id r = crash (init_queues e (record r { id = id }))
start_as e true id r =
    let r1 = reset_counts e (init_hotstuff e (init_queues e (record r { id = id }))) in
    emit (request_monitor r1.view) (record r1 { connection = Connection.start_connection_manager })

-- With an id that is no number, nothing is started. The test of sleep, which is spawned last, is a
-- series of events.
unfoldable pub start_if : Env → Bool → Option ℤ → Bytes → Replica → Replica
start_if e is_hotstuff none rid r = record r { id = atoi_value rid }
start_if e is_hotstuff (some id) rid r = start_as e is_hotstuff id r

unfoldable pub start_handler : Env → Bool → Bytes → Replica → Replica
unfolding start_if
start_handler e is_hotstuff rid r = start_if e is_hotstuff (atoi rid) rid r

-- What a process has before it is started: variables that are zero.
abbrev pub Unused : Replica → Type 0
Unused r = (r.votes_pp ≡ []) × (r.cer ≡ empty_certificate)

module _ (e : Env) where
  configure_quorum-Unused : (r : Replica) → Unused r → Unused (configure_quorum e r)
  unfolding configure_quorum start_quorum start_sleepy_quorum crash
  configure_quorum-Unused r u = ground (arith, u.0, u.1)

  init_hotstuff-Unused : (r : Replica) → Unused r → Unused (init_hotstuff e r)
  init_hotstuff-Unused r u =
      let s = init_hotstuff-SameVotes e r in
      let c = configure_quorum-Unused (record r { buffer = StringIntMap.init }) u in
      (s.votes ∙ c.0, s.cer ∙ c.1)

  start_as-Unused :
      (is_hotstuff : Bool) (id : ℤ) (r : Replica) → Unused r → Unused (start_as e is_hotstuff id r)
  unfolding start_as init_queues reset_counts persist crash emit
  start_as-Unused false id r u = u
  start_as-Unused true id r u =
      let z = init_hotstuff-Unused (init_queues e (record r { id = id })) u in
      ground (arith, z.0, z.1)

  start_if-Unused :
      (is_hotstuff : Bool) (parsed : Option ℤ) (rid : Bytes) (r : Replica)
      → Unused r
      → Unused (start_if e is_hotstuff parsed rid r)
  unfolding start_if
  start_if-Unused is_hotstuff none rid r u = u
  start_if-Unused is_hotstuff (some id) rid r u = start_as-Unused is_hotstuff id r u

  pub start_handler-Unused :
      (is_hotstuff : Bool) (rid : Bytes) (r : Replica)
      → Unused r
      → Unused (start_handler e is_hotstuff rid r)
  unfolding start_handler
  start_handler-Unused is_hotstuff rid r = start_if-Unused is_hotstuff (atoi rid) rid r

  -- What is set in a replica that runs HotStuff: it goes on, and the monitor of view 0 is the one thing
  -- that it has spawned.
  pub record Started (id : ℤ) (r r' : Replica) : Type 0 where
    pub id_set : r'.id ≡ id
    pub view : r'.view ≡ pos 0
    pub leads : r'.leader ≡ eq_ℤ (leader_id e (pos 0)) id
    pub status : r'.cur_status ≡ ready
    pub no_requests : r'.queue ≡ []
    pub unused : Unused r'
    pub goes_on : r'.halted ≡ false
    pub monitored : r'.out ≡ r.out ++ request_monitor (pos 0) ∷ []

  -- The numbers of replicas fit the protocol that the test asks for: InTestConfig ends no process.
  abbrev pub IsAccepted : Type 0
  IsAccepted =
      (eq_ℤ e.test_id (pos 1) || eq_ℤ e.test_id (pos 4) ≡ false)
      ⊎ ((level : Level) × (sleepy_hotstuff_config e ≡ some level))

  -- Empty containers and an empty queue can be serialized.
  pub record Encodes : Type 0 where
    pub blocks : Bytes
    pub no_blocks : e.marshal_blocks [] ≡ some blocks
    pub requests : Bytes
    pub queue : e.marshal_queue [] ≡ some requests

-- Replicas that StartHandler has started, whatever their ids and their clocks, are a network that starts
-- without votes.
pub start_handler-Fresh :
    (e : Env) (sign : ℤ → Bytes → Bytes × Bytes) (clock : ℕ → ℤ) (is_hotstuff : Bool)
    (rids : ℤ → Bytes) (unused : ℤ → Replica)
    → ((i : ℤ) → Unused (unused i))
    → Fresh (record {
      site = λ i. start_handler (at e sign i clock) is_hotstuff (rids i) (unused i);
      sent = [];
    })
start_handler-Fresh e sign clock is_hotstuff rids unused u = record {
  no_votes =
      λ i. (start_handler-Unused (at e sign i clock) is_hotstuff (rids i) (unused i) (u i)).0;
  no_certificate =
      λ i. (start_handler-Unused (at e sign i clock) is_hotstuff (rids i) (unused i) (u i)).1;
}
