-- ===== src/Consensus/Dispatch/Agreement.antt =====
-- Certificates of two leaders: a correct replica has signed both.
use sleepy_hot_stuff.Base.{
  ℕ, ◌≤◌, ◌≡◌, ◌≢◌, true, false, some, List, [], arith, length, ℤ, pos, ◌≤ℤ◌, int_eq,
}
use sleepy_hot_stuff.Utils.Map.{contains}
use sleepy_hot_stuff.Utils.Values.{Slice}
use sleepy_hot_stuff.Message.{HotStuffMessage, QcBlock}
use sleepy_hot_stuff.Env.{Env, SignaturesRoundTrip}
use sleepy_hot_stuff.Crypto.{verify_sig}
use sleepy_hot_stuff.Quorum.Sizes.{faults, quorum_of, quorum_of_tight}
use sleepy_hot_stuff.Quorum.Intersection.{IsReplica}
use sleepy_hot_stuff.Quorum.Voters.{Quorum, Quorum-Common}
use sleepy_hot_stuff.Quorum.Buffer.{empty_certificate}
use sleepy_hot_stuff.Consensus.State.{Replica}
use sleepy_hot_stuff.Consensus.Propose.{handle_normal_rep_msg}
use sleepy_hot_stuff.Consensus.Propose.Certified.{IsCertified, Outcome, kept, certified}
use sleepy_hot_stuff.Consensus.Dispatch.{Event, run}
use sleepy_hot_stuff.Consensus.Dispatch.Genuine.{run-certifies}

verified-has_key :
    (e : Env) (hash sig : Slice) (id : ℤ)
    → verify_sig e id hash sig ≡ some true
    → e.has_key id ≡ true
unfolding verify_sig
verified-has_key e hash sig id h = ground arith

-- The signature of the hash by the replica verifies.
abbrev Verifies : Env → Slice → ℤ → Slice → Type 0
Verifies e hash id sig = verify_sig e id hash sig ≡ some true

-- There is a signature of the hash by the replica.
abbrev pub SignedBy : Env → Slice → ℤ → Type 0
SignedBy e hash id = (sig : Slice) × (verify_sig e id hash sig ≡ some true)

quorum :
    (e : Env) (num : ℕ) (q : ℤ) (b : QcBlock)
    → ((id : ℤ) → e.has_key id ≡ true → IsReplica num id)
    → q ≡ pos (quorum_of num)
    → IsCertified e q b
    → Quorum (Verifies e b.hash) num b.ids b.qc
quorum e num q b keys h c = record {
  enough = ground (arith, c.enough);
  distinct = c.distinct;
  vouched = c.genuine;
  members = λ id sig v. keys id (verified-has_key e b.hash sig id v);
}

takes_votes : (num : ℕ) (q : ℤ) → 1 ≤ num → q ≡ pos (quorum_of num) → pos 1 ≤ℤ q
takes_votes num q n h = rw h (omega (arith, (quorum_of_tight num n).0))

-- A vote that changes the current block certifies it.
new_block-IsCertified :
    (e : Env) (content : HotStuffMessage) (r r' : Replica)
    → r'.cur_block ≢ r.cur_block
    → Outcome (IsCertified e) content r r'
    → IsCertified e r.sizes.quorum r'.cur_block
new_block-IsCertified e content r r' ne (kept k) = absurd (ne k)
new_block-IsCertified e content r r' ne (certified c h n) = c

-- A replica outside the faulty ones that has signed both blocks.
pub record CorrectVoter (e : Env) (faulty : List ℤ) (b c : QcBlock) : Type 0 where
  pub id : ℤ
  pub correct : contains id faulty ≡ false
  pub signed : SignedBy e b.hash id
  pub signed_too : SignedBy e c.hash id

-- Where the codec reads certificates back as they were written, and only the `num` replicas have keys,
-- take two leaders that start without votes, each with any history at the end of which it waits for
-- the quorum that StartQuorum sets for `num` replicas. If a further vote changes the current block of
-- each, then, whatever replicas are faulty, no more of them than are tolerated, a replica that is not
-- has signed both new blocks.
pub run-CorrectVoter :
    (e : Env) (num : ℕ) (faulty : List ℤ) (evs evs' : List ((ℕ → ℤ) × Event)) (r r' : Replica)
    (content content' : HotStuffMessage)
    → SignaturesRoundTrip e
    → ((id : ℤ) → e.has_key id ≡ true → IsReplica num id)
    → 1 ≤ num
    → length faulty ≤ faults num
    → r.votes_pp ≡ []
    → r'.votes_pp ≡ []
    → r.cer ≡ empty_certificate
    → r'.cer ≡ empty_certificate
    → (run e evs r).sizes.quorum ≡ pos (quorum_of num)
    → (run e evs' r').sizes.quorum ≡ pos (quorum_of num)
    → (handle_normal_rep_msg e content (run e evs r)).cur_block ≢ (run e evs r).cur_block
    → (handle_normal_rep_msg e content' (run e evs' r')).cur_block ≢ (run e evs' r').cur_block
    → CorrectVoter e faulty
        (handle_normal_rep_msg e content (run e evs r)).cur_block
        (handle_normal_rep_msg e content' (run e evs' r')).cur_block
run-CorrectVoter e num faulty evs evs' r r' content content' codec keys n few v v' c c' q q' new
      new' =
    let first =
      new_block-IsCertified e content _ _ new
        (run-certifies e evs r content codec v c (takes_votes num _ n q)) in
    let other =
      new_block-IsCertified e content' _ _ new'
        (run-certifies e evs' r' content' codec v' c' (takes_votes num _ n q')) in
    let z =
      Quorum-Common _ _ num faulty _ _ _ _ (quorum e num _ _ keys q first)
        (quorum e num _ _ keys q' other) n few in
    record { id = z.id; correct = z.correct; signed = z.first; signed_too = z.second }
