-- ===== src/Consensus/Network/Agreement.antt =====
-- Certificates that two leaders of a network make: a correct replica has sent a vote for each.
use sleepy_hot_stuff.Base.{
  ℕ, ◌≤◌, ◌≡◌, ◌≢◌, true, false, some, List, arith, length, Bytes, ℤ, pos, ◌≤ℤ◌, int_eq,
}
use sleepy_hot_stuff.Utils.Map.{contains}
use sleepy_hot_stuff.Utils.Values.{Slice, bytes_to_string}
use sleepy_hot_stuff.Message.{HotStuffMessage, QcBlock}
use sleepy_hot_stuff.Env.{Env, SignaturesRoundTrip}
use sleepy_hot_stuff.Crypto.{verify_sig}
use sleepy_hot_stuff.Quorum.Sizes.{faults, quorum_of, quorum_of_tight}
use sleepy_hot_stuff.Quorum.Intersection.{IsReplica}
use sleepy_hot_stuff.Quorum.Voters.{Quorum, Quorum-Common}
use sleepy_hot_stuff.Consensus.State.{Replica, Effect}
use sleepy_hot_stuff.Consensus.Propose.{handle_normal_rep_msg}
use sleepy_hot_stuff.Consensus.Propose.Votes.{VouchedVotes}
use sleepy_hot_stuff.Consensus.Propose.Certified.{
  CertifiedBy, Outcome, kept, certified, handle_normal_rep_msg-CertifiedBy,
}
use sleepy_hot_stuff.Consensus.Network.{Net, VoteSent, at, Unforged, Reach, Fresh}
use sleepy_hot_stuff.Consensus.Network.Voting.{Backed, Unforged-Admitted, Reach-Backed}

-- A replica outside the faulty ones that has sent a vote for each of the blocks, when the network had
-- sent `sent` and `sent'`.
pub record VotedBoth (e : Env) (faulty : List ℤ) (sent sent' : List (ℤ × Effect)) (b c : QcBlock)
    : Type 0 where
  pub id : ℤ
  pub correct : contains id faulty ≡ false
  pub first : VoteSent e sent id (bytes_to_string b.hash)
  pub second : VoteSent e sent' id (bytes_to_string c.hash)

takes_votes : (num : ℕ) (q : ℤ) → 1 ≤ num → q ≡ pos (quorum_of num) → pos 1 ≤ℤ q
takes_votes num q n h = rw h (omega (arith, (quorum_of_tight num n).0))

new_block :
    (C : ℤ → QcBlock → Type 0) (content : HotStuffMessage) (r r' : Replica)
    → r'.cur_block ≢ r.cur_block
    → Outcome C content r r'
    → C r.sizes.quorum r'.cur_block
new_block C content r r' ne (kept k) = absurd (ne k)
new_block C content r r' ne (certified c h n) = c

verified-has_key :
    (e : Env) (hash sig : Slice) (id : ℤ)
    → verify_sig e id hash sig ≡ some true
    → e.has_key id ≡ true
unfolding verify_sig
verified-has_key e hash sig id h = ground arith

module _ (e : Env) (sign : ℤ → Bytes → Bytes × Bytes) (faulty : List ℤ) (num : ℕ) where
  quorum :
      (sent : List (ℤ × Effect)) (q : ℤ) (b : QcBlock)
      → ((id : ℤ) → e.has_key id ≡ true → IsReplica num id)
      → q ≡ pos (quorum_of num)
      → CertifiedBy (Backed e sign faulty sent) q b
      → Quorum (Backed e sign faulty sent (bytes_to_string b.hash)) num b.ids b.qc
  quorum sent q b keys h c = record {
    enough = ground (arith, c.enough);
    distinct = c.distinct;
    vouched = c.vouched;
    members = λ id sig v. keys id (verified-has_key e (some (bytes_to_string b.hash)) sig id v.0);
  }

  -- The block that a vote makes the current one, in a network whose votes are backed.
  made :
      (s : Net) (i : ℤ) (clock : ℕ → ℤ) (content : HotStuffMessage)
      → SignaturesRoundTrip e
      → ((id : ℤ) → e.has_key id ≡ true → IsReplica num id)
      → 1 ≤ num
      → VouchedVotes (Backed e sign faulty s.sent) (s.site i)
      → Unforged e sign faulty s content
      → (s.site i).sizes.quorum ≡ pos (quorum_of num)
      → (handle_normal_rep_msg (at e sign i clock) content (s.site i)).cur_block
        ≢ (s.site i).cur_block
      → Quorum
          (Backed e sign faulty s.sent (
            bytes_to_string
              (handle_normal_rep_msg (at e sign i clock) content (s.site i)).cur_block.hash))
          num
          (handle_normal_rep_msg (at e sign i clock) content (s.site i)).cur_block.ids
          (handle_normal_rep_msg (at e sign i clock) content (s.site i)).cur_block.qc
  made s i clock content codec keys n v u q new = quorum s.sent _ _ keys q (
      new_block (CertifiedBy (Backed e sign faulty s.sent)) content (s.site i) _ new (
        handle_normal_rep_msg-CertifiedBy (Backed e sign faulty s.sent) (at e sign i clock) codec
          content (s.site i) (takes_votes num _ n q)
          (Unforged-Admitted e sign faulty s i clock content u) v))

  -- Where the codec reads certificates back as they were written, only the `num` replicas have keys, and
  -- no more of them are faulty than are tolerated: take two states `s` and `t` that a network reaches
  -- from a start without votes, by any steps, and a leader in each that waits for the quorum that
  -- StartQuorum sets. If an unforged vote changes the current block of each, then a replica that is
  -- not faulty has sent a vote for the hash of each of the two new blocks, for the one of `s` up to `s`
  -- and for that of `t` up to `t`.
  pub Reach-VotedBoth :
      (start s t : Net) (i j : ℤ) (clock clock' : ℕ → ℤ) (content content' : HotStuffMessage)
      → SignaturesRoundTrip e
      → ((id : ℤ) → e.has_key id ≡ true → IsReplica num id)
      → 1 ≤ num
      → length faulty ≤ faults num
      → Fresh start
      → Reach e sign faulty start s
      → Reach e sign faulty start t
      → Unforged e sign faulty s content
      → Unforged e sign faulty t content'
      → (s.site i).sizes.quorum ≡ pos (quorum_of num)
      → (t.site j).sizes.quorum ≡ pos (quorum_of num)
      → (handle_normal_rep_msg (at e sign i clock) content (s.site i)).cur_block
        ≢ (s.site i).cur_block
      → (handle_normal_rep_msg (at e sign j clock') content' (t.site j)).cur_block
        ≢ (t.site j).cur_block
      → VotedBoth e faulty s.sent t.sent
          (handle_normal_rep_msg (at e sign i clock) content (s.site i)).cur_block
          (handle_normal_rep_msg (at e sign j clock') content' (t.site j)).cur_block
  Reach-VotedBoth start s t i j clock clock' content content' codec keys n few fresh rs rt u u' q q'
        new new' =
      let v = Reach-Backed e sign faulty start s i fresh rs in
      let v' = Reach-Backed e sign faulty start t j fresh rt in
      let z =
        Quorum-Common _ _ num faulty _ _ _ _ (made s i clock content codec keys n v u q new)
          (made t j clock' content' codec keys n v' u' q' new') n few in
      record {
        id = z.id;
        correct = z.correct;
        first = z.first.1.1 z.correct;
        second = z.second.1.1 z.correct;
      }
