-- ===== src/Consensus/Propose/Votes.antt =====
-- The votes that a leader collects for its proposals: their signatures verify, and they come from
-- distinct replicas.
use sleepy_hot_stuff.Base.{
  ◌≡◌, ◌≢◌, refl, ◌∙◌, true, not, ◌||◌, none, some, arith, if_rule, check_rule, Bytes, ℤ, ltb_ℤ,
  int_eq,
}
use sleepy_hot_stuff.Utils.Values.{Slice, bytes_to_string}
use sleepy_hot_stuff.Message.{HotStuffMessage}
use sleepy_hot_stuff.Env.{Env}
use sleepy_hot_stuff.Crypto.{verify_sig}
use sleepy_hot_stuff.Quorum.Buffer.Certified.{Certified, insert_value-Certified}
use sleepy_hot_stuff.Consensus.State.{Replica, is_view_change, persist, crash}
use sleepy_hot_stuff.Consensus.Status.{update_buffer_content, is_prepared, block_key}
use sleepy_hot_stuff.Consensus.Propose.{
  add_vote, has_quorum, count_vote, certify, matches_awaited, handle_normal_rep_msg,
}

-- A signature of the hash that verifies.
abbrev pub Signed : Env → Bytes → ℤ → Slice → Type 0
Signed e h id sig = verify_sig e id (some h) sig ≡ some true

-- For every collected vote, the hash, the replica and the signature satisfy `P`.
pub record VouchedVotes (P : Bytes → ℤ → Slice → Type 0) (r : Replica) : Type 0 where
  pub certified : Certified P r.votes_pp r.cer

-- The collected votes of a replica are genuine.
abbrev pub GenuineVotes : Env → Replica → Type 0
GenuineVotes e r = VouchedVotes (Signed e) r

Signed-hash :
    (e : Env) (id : ℤ) (hash sig : Slice)
    → verify_sig e id (some (bytes_to_string hash)) sig ≡ verify_sig e id hash sig
unfolding verify_sig bytes_to_string
Signed-hash e id hash sig = refl

not_nil : (e : Env) (id : ℤ) (hash : Slice) → verify_sig e id hash none ≢ some true
unfolding verify_sig bytes_to_string
not_nil e id hash h = cc

-- A vote that counts: its signature verifies, and `P` holds of it.
abbrev pub Admitted : (Bytes → ℤ → Slice → Type 0) → Env → HotStuffMessage → Type 0
Admitted P e content =
    (verify_sig e content.source content.hash content.sig ≡ some true)
    → P (bytes_to_string content.hash) content.source content.sig

certify_same_votes :
    (e : Env) (content : HotStuffMessage) (r : Replica)
    → ((certify e content r).votes_pp ≡ r.votes_pp) × ((certify e content r).cer ≡ r.cer)
unfolding certify persist update_buffer_content
certify_same_votes e content r = ground arith

module _ (P : Bytes → ℤ → Slice → Type 0) (e : Env) where
  pub add_vote-Vouched :
      (content : HotStuffMessage) (r : Replica) (sig : Slice)
      → content.sig ≡ sig
      → verify_sig e content.source content.hash sig ≡ some true
      → P (bytes_to_string content.hash) content.source sig
      → VouchedVotes P r
      → VouchedVotes P (add_vote content r)
  unfolding add_vote
  add_vote-Vouched content r none s h p v = absurd (not_nil e content.source content.hash h)
  add_vote-Vouched content r (some sig) s h p v = rw s (record {
    certified =
        insert_value-Certified P r.votes_pp r.cer (bytes_to_string content.hash) content.source sig
          p v.certified;
  })

  certify-Vouched :
      (content : HotStuffMessage) (r : Replica)
      → VouchedVotes P r
      → VouchedVotes P (certify e content r)
  certify-Vouched content r v = record {
    certified =
        rw ((certify_same_votes e content r).0, (certify_same_votes e content r).1) v.certified;
  }

  count_vote-Vouched :
      (content : HotStuffMessage) (r : Replica)
      → verify_sig e content.source content.hash content.sig ≡ some true
      → Admitted P e content
      → VouchedVotes P r
      → VouchedVotes P (count_vote e content r)
  unfolding count_vote
  count_vote-Vouched content r h admits v =
      let counted = add_vote-Vouched content r content.sig refl h (admits h) v in
      if_rule (VouchedVotes P) (is_prepared (block_key (bytes_to_string content.hash)) r) (λ _. v)
        (λ _.
          if_rule (VouchedVotes P) (has_quorum (bytes_to_string content.hash) (add_vote content r))
            (λ _. certify-Vouched content (add_vote content r) counted) (λ _. counted))

  crash-Vouched : (r : Replica) → VouchedVotes P r → VouchedVotes P (crash r)
  unfolding crash
  crash-Vouched r v = record { certified = v.certified }

  -- Whatever vote arrives, if `P` holds of it in case its signature verifies, `P` goes on to hold of
  -- all collected votes, and no replica is counted twice.
  pub handle_normal_rep_msg-Vouched :
      (content : HotStuffMessage) (r : Replica)
      → Admitted P e content
      → VouchedVotes P r
      → VouchedVotes P (handle_normal_rep_msg e content r)
  unfolding handle_normal_rep_msg
  handle_normal_rep_msg-Vouched content r admits v =
      if_rule (VouchedVotes P) (ltb_ℤ content.view r.view || is_view_change r.cur_status) (λ _. v)
        (λ _.
          if_rule (VouchedVotes P) (not (matches_awaited content r)) (λ _. v)
            (λ _.
              check_rule (VouchedVotes P) (verify_sig e content.source content.hash content.sig)
                (λ _. crash-Vouched r v) (λ _. v) (λ h. count_vote-Vouched content r h admits v)))

pub Signed-Admitted : (e : Env) (content : HotStuffMessage) → Admitted (Signed e) e content
Signed-Admitted e content h = Signed-hash e content.source content.hash content.sig ∙ h

-- Whatever vote arrives, votes that are genuine stay so: each collected signature verifies for its
-- replica and hash, and no replica is counted twice.
pub handle_normal_rep_msg-Genuine :
    (e : Env) (content : HotStuffMessage) (r : Replica)
    → GenuineVotes e r
    → GenuineVotes e (handle_normal_rep_msg e content r)
handle_normal_rep_msg-Genuine e content r v =
    handle_normal_rep_msg-Vouched (Signed e) e content r (Signed-Admitted e content) v
