-- ===== src/Consensus/Propose/Certified.antt =====
-- The blocks that a leader certifies: each has a quorum of verified signatures from distinct replicas.
use sleepy_hot_stuff.Base.{
  ◌≤◌, ◌≡◌, refl, ap, true, not, ◌||◌, Option, some, List, arith, if_rule, check_rule, Bool-cases,
  inl, inr, length, Bytes, ℤ, pos, ◌≤ℤ◌, ltb_ℤ, add_int, int_eq,
}
use sleepy_hot_stuff.Utils.Map.{Distinct}
use sleepy_hot_stuff.Utils.Values.{Slice, bytes_to_string}
use sleepy_hot_stuff.Message.{HotStuffMessage, QcBlock, Signatures}
use sleepy_hot_stuff.Env.{Env, SignaturesRoundTrip}
use sleepy_hot_stuff.Crypto.{verify_sig}
use sleepy_hot_stuff.Quorum.Buffer
use sleepy_hot_stuff.Quorum.Buffer.Certified.{
  Vouched, Vouched-length, fetch_signatures-Certified, length-ids_of,
}
use sleepy_hot_stuff.Consensus.State.{Replica, is_view_change, persist, crash}
use sleepy_hot_stuff.Consensus.Status.{update_buffer_content, is_prepared, block_key}
use sleepy_hot_stuff.Consensus.Certificates.Votes.{AllVerify}
use sleepy_hot_stuff.Consensus.Propose.{
  add_vote, has_quorum, count_vote, certify, certified_block, certificate_of, matches_awaited,
  handle_normal_rep_msg,
}
use sleepy_hot_stuff.Consensus.Propose.Votes.{
  Signed, Signed-Admitted, Admitted, VouchedVotes, GenuineVotes, add_vote-Vouched,
}

-- A block whose certificate is sound: a quorum of signatures of its hash, from distinct replicas.
pub record IsCertified (e : Env) (quorum : ℤ) (b : QcBlock) : Type 0 where
  pub enough : quorum ≤ℤ pos (length b.qc)
  pub distinct : Distinct b.ids
  pub genuine : AllVerify e b.hash b.ids b.qc

-- The same with `P` in place of a verified signature.
pub record CertifiedBy (P : Bytes → ℤ → Slice → Type 0) (quorum : ℤ) (b : QcBlock) : Type 0 where
  pub enough : quorum ≤ℤ pos (length b.qc)
  pub distinct : Distinct b.ids
  pub vouched : Vouched (P (bytes_to_string b.hash)) b.ids b.qc

-- What a vote does to the current block: a new one is `C`.
pub data Outcome (C : ℤ → QcBlock → Type 0) (content : HotStuffMessage) (r r' : Replica)
    : Type 0 where
  kept : r'.cur_block ≡ r.cur_block → Outcome C content r r'
  certified :
      C r.sizes.quorum r'.cur_block
      → r'.cur_block.hash ≡ content.hash
      → r'.cur_block.height ≡ add_int r.cur_block.height (pos 1)
      → Outcome C content r r'

weaker :
    {C D : ℤ → QcBlock → Type 0} {content : HotStuffMessage} {r r' : Replica}
    → ((q : ℤ) (b : QcBlock) → C q b → D q b)
    → Outcome C content r r'
    → Outcome D content r r'
weaker f (kept k) = kept k
weaker f (certified c h n) = certified (f _ _ c) h n

-- A signature of a hash as a string is one of the hash.
same_hash :
    (e : Env) (hash : Slice) (ids : List ℤ) (sigs : List Slice)
    → Vouched (Signed e (bytes_to_string hash)) ids sigs
    → AllVerify e hash ids sigs
unfolding verify_sig bytes_to_string
same_hash e hash ids sigs v = v

read_back :
    (e : Env) (s : Signatures) (o : Option Signatures)
    → SignaturesRoundTrip e
    → o ≡ some s
    → e.unmarshal_signatures (bytes_to_string (Buffer.marshal e o)) ≡ s
unfolding bytes_to_string Buffer.marshal
read_back e s o codec h = let (bs, there, back) = codec s in ground arith

-- Counting a vote touches neither the current block nor the sizes.
after_vote :
    (C : ℤ → QcBlock → Type 0) (content : HotStuffMessage) (r r' : Replica)
    → Outcome C content (add_vote content r) r'
    → Outcome C content r r'
unfolding add_vote
after_vote C content r r' (kept k) = kept k
after_vote C content r r' (certified c h n) = certified c h n

only_counted :
    (C : ℤ → QcBlock → Type 0) (content : HotStuffMessage) (r : Replica)
    → Outcome C content r (add_vote content r)
unfolding add_vote
only_counted C content r = kept refl

crash-Outcome :
    (C : ℤ → QcBlock → Type 0) (content : HotStuffMessage) (r : Replica)
    → Outcome C content r (crash r)
unfolding crash
crash-Outcome C content r = kept refl

certify-Outcome :
    (C : ℤ → QcBlock → Type 0) (e : Env) (content : HotStuffMessage) (r : Replica)
    → C r.sizes.quorum (certified_block e content r)
    → Outcome C content r (certify e content r)
unfolding certify persist update_buffer_content certified_block
certify-Outcome C e content r c =
    elim (Bool-cases (ltb_ℤ r.cur_block.height (add_int r.cur_block.height (pos 1)))) [
      | inl higher ↦ rw higher (certified c refl refl)
      | inr not_higher ↦ rw not_higher (kept refl)
    ]

module _ (P : Bytes → ℤ → Slice → Type 0) (e : Env) (codec : SignaturesRoundTrip e) where
  certificate_lem :
      (hash : Bytes) (r : Replica)
      → VouchedVotes P r
      → 1 ≤ Buffer.get_len r.votes_pp hash
      → certificate_of e hash r ≡ record {
        hash = some hash;
        sigs = Buffer.sigs_of r.cer hash;
        ids = Buffer.ids_of r.cer hash;
      }
  unfolding certificate_of Buffer.fetch_cer
  certificate_lem hash r v n =
      read_back e _ _ codec (fetch_signatures-Certified P r.votes_pp r.cer hash v.certified n)

  certified_lists :
      (content : HotStuffMessage) (r : Replica)
      → VouchedVotes P r
      → 1 ≤ Buffer.get_len r.votes_pp (bytes_to_string content.hash)
      → ((certified_block e content r).ids ≡ Buffer.ids_of r.cer (bytes_to_string content.hash))
        × ((certified_block e content r).qc ≡ Buffer.sigs_of r.cer (bytes_to_string content.hash))
  unfolding certified_block
  certified_lists content r v n =
      let c = certificate_lem (bytes_to_string content.hash) r v n in
      (ap (λ (s : Signatures). s.ids) c, ap (λ (s : Signatures). s.sigs) c)

  certified_block-CertifiedBy :
      (content : HotStuffMessage) (r : Replica)
      → pos 1 ≤ℤ r.sizes.quorum
      → has_quorum (bytes_to_string content.hash) r ≡ true
      → VouchedVotes P r
      → CertifiedBy P r.sizes.quorum (certified_block e content r)
  unfolding has_quorum certified_block
  certified_block-CertifiedBy content r q full v =
      let h = bytes_to_string content.hash in
      let lists = certified_lists content r v (ground arith) in
      let vouched = v.certified.vouched h in
      record {
        enough = ground (
          arith,
          lists.1,
          length-ids_of P r.votes_pp r.cer h v.certified,
          Vouched-length (P h) (Buffer.ids_of r.cer h) (Buffer.sigs_of r.cer h) vouched,
        );
        distinct = rw lists.0 (v.certified.distinct h);
        vouched = rw (lists.0, lists.1) vouched;
      }

  count_vote-Outcome :
      (content : HotStuffMessage) (r : Replica)
      → pos 1 ≤ℤ r.sizes.quorum
      → verify_sig e content.source content.hash content.sig ≡ some true
      → Admitted P e content
      → VouchedVotes P r
      → Outcome (CertifiedBy P) content r (count_vote e content r)
  unfolding count_vote
  count_vote-Outcome content r q h a v =
      if_rule (Outcome (CertifiedBy P) content r)
        (is_prepared (block_key (bytes_to_string content.hash)) r) (λ _. kept refl)
        (λ _.
          if_rule (Outcome (CertifiedBy P) content r)
            (has_quorum (bytes_to_string content.hash) (add_vote content r))
            (λ full. after_vote (CertifiedBy P) content r _ (
              certify-Outcome (CertifiedBy P) e content (add_vote content r) (
                certified_block-CertifiedBy content (add_vote content r) (unfold add_vote in q) full
                  (add_vote-Vouched P e content r content.sig refl h (a h) v))))
            (λ _. only_counted (CertifiedBy P) content r))

  -- Where the codec reads certificates back as they were written, a quorum is at least one vote and
  -- `P` holds of the collected votes and of the new one, a vote leaves the current block, or
  -- replaces it by a block of the voted hash, one higher, that a quorum of distinct replicas certifies,
  -- of whose votes `P` holds.
  pub handle_normal_rep_msg-CertifiedBy :
      (content : HotStuffMessage) (r : Replica)
      → pos 1 ≤ℤ r.sizes.quorum
      → Admitted P e content
      → VouchedVotes P r
      → Outcome (CertifiedBy P) content r (handle_normal_rep_msg e content r)
  unfolding handle_normal_rep_msg
  handle_normal_rep_msg-CertifiedBy content r q a v =
      let C = CertifiedBy P in
      if_rule (Outcome C content r) (ltb_ℤ content.view r.view || is_view_change r.cur_status)
        (λ _. kept refl)
        (λ _.
          if_rule (Outcome C content r) (not (matches_awaited content r)) (λ _. kept refl)
            (λ _.
              check_rule (Outcome C content r)
                (verify_sig e content.source content.hash content.sig)
                (λ _. crash-Outcome C content r) (λ _. kept refl)
                (λ h. count_vote-Outcome content r q h a v)))

-- Where the codec reads certificates back as they were written, a quorum is at least one vote and
-- the collected votes are genuine, a vote leaves the current block, or replaces it by a block of
-- the voted hash, one higher, that is certified by a quorum of verified signatures from distinct
-- replicas.
pub handle_normal_rep_msg-certifies :
    (e : Env) (content : HotStuffMessage) (r : Replica)
    → SignaturesRoundTrip e
    → pos 1 ≤ℤ r.sizes.quorum
    → GenuineVotes e r
    → Outcome (IsCertified e) content r (handle_normal_rep_msg e content r)
handle_normal_rep_msg-certifies e content r codec q v =
    weaker
      (λ quorum b c. record {
        enough = c.enough;
        distinct = c.distinct;
        genuine = same_hash e b.hash b.ids b.qc c.vouched;
      })
      (handle_normal_rep_msg-CertifiedBy (Signed e) e codec content r q (Signed-Admitted e content)
        v)
