-- ===== src/Consensus/Recovery/Ready.antt =====
-- sleepyRec.go: the last phase of a recovery ends.
use sleepy_hot_stuff.Base.{
  ℕ, suc, ◌+◌, ◌≤◌, ◌<◌, ◌^◌, ◌≡◌, refl, ap, ◌∙◌, true, false, Bool-cases, inl, inr, some, List, [],
  ◌∷◌, arith, leb, if◌then◌else◌, length, All, Bytes, bytes_eq_iff, bytes_eq_refl, ℤ, pos, add_int,
  ◌+ℤ◌, ◌-ℤ◌,
}
use sleepy_hot_stuff.Utils.Values.{bytes_to_string}
use sleepy_hot_stuff.Utils.StringIntMap
use sleepy_hot_stuff.Message.{HotStuffMessage, QcBlock}
use sleepy_hot_stuff.Env.{Env}
use sleepy_hot_stuff.Consensus.State.{Replica, ready, recovering, persist}
use sleepy_hot_stuff.Consensus.Status.{
  is_prepared, update_buffer_content, get_buffer_content, echo2_key,
}
use sleepy_hot_stuff.Consensus.Certificates.{verify_qc}
use sleepy_hot_stuff.Consensus.Sequence.{update_seq}
use sleepy_hot_stuff.Consensus.Recovery.{
  handle_echo2_msg, adopt_echoed, accept_echo2, answers_request, count_echo, merge_committed,
}

-- The answers, handled one after the other.
unfoldable pub handle_echoes : Env → List HotStuffMessage → Replica → Replica
handle_echoes e [] r = r
handle_echoes e (content ∷ contents) r = handle_echoes e contents (handle_echo2_msg e content r)

-- An answer to the request with this hash, with two verified certificates.
pub record IsAnswer (e : Env) (quorum : ℤ) (hash : Bytes) (content : HotStuffMessage) : Type 0 where
  pub answers : bytes_to_string content.hash ≡ hash
  pub prepares : verify_qc e quorum (e.unmarshal_block (bytes_to_string content.qc)) ≡ some true
  pub locks : verify_qc e quorum (e.unmarshal_block (bytes_to_string content.lqc)) ≡ some true

-- The replica waits for answers to this request, and has counted some.
pub record Waits (quorum rec_quorum : ℤ) (hash : Bytes) (n : ℕ) (r : Replica) : Type 0 where
  pub status : r.cur_status ≡ recovering
  pub request : bytes_to_string r.req_hash ≡ hash
  pub open_still : is_prepared (echo2_key hash) r ≡ false
  pub counted : (StringIntMap.get r.rec_buffer hash).0 ≡ pos n
  pub needs : r.sizes.quorum ≡ quorum
  pub needs_answers : r.sizes.rec_quorum ≡ rec_quorum

record SameWait (r s : Replica) : Type 0 where
  status : s.cur_status ≡ r.cur_status
  request : s.req_hash ≡ r.req_hash
  buffer : s.buffer ≡ r.buffer
  rec_buffer : s.rec_buffer ≡ r.rec_buffer
  sizes : s.sizes ≡ r.sizes

adopt_echoed-SameWait :
    (e : Env) (qc lqc : QcBlock) (r : Replica) → SameWait r (adopt_echoed e qc lqc r)
unfolding adopt_echoed update_seq persist
adopt_echoed-SameWait e qc lqc r = ground arith

module _ (e : Env) (quorum rec_quorum : ℤ) (hash : Bytes) (n : ℕ) (content : HotStuffMessage) where
  abbrev qc : QcBlock
  qc = e.unmarshal_block (bytes_to_string content.qc)

  abbrev lqc : QcBlock
  lqc = e.unmarshal_block (bytes_to_string content.lqc)

  abbrev merged : Replica → Replica
  merged r = record r {
    committed_blocks =
        merge_committed (e.unmarshal_blocks (bytes_to_string content.com_blocks))
          r.committed_blocks;
  }

  answers_request-merged :
      (r : Replica)
      → IsAnswer e quorum hash content
      → Waits quorum rec_quorum hash n r
      → (answers_request content (merged r) ≡ true)
        × (is_prepared (echo2_key (bytes_to_string content.hash)) (merged r) ≡ false)
  unfolding answers_request is_prepared get_buffer_content
  answers_request-merged r a w =
      (rw (w.status, a.answers, w.request) (bytes_eq_refl hash), rw a.answers w.open_still)

  handle_echo2_msg-accepts :
      (r : Replica)
      → IsAnswer e quorum hash content
      → Waits quorum rec_quorum hash n r
      → handle_echo2_msg e content r ≡ accept_echo2 e content qc lqc (merged r)
  unfolding handle_echo2_msg
  handle_echo2_msg-accepts r a w =
      let (answers, not_yet) = answers_request-merged r a w in
      rw (answers, not_yet, w.needs, a.prepares, a.locks) refl

  next_count : n < 2 ^ 62 → add_int (pos n) (pos 1) ≡ pos (suc n)
  unfolding add_int ◌+ℤ◌ ◌-ℤ◌
  next_count small = ground arith

  -- One more answer: the recovery ends if it is the last that is needed, and is one further otherwise.
  handle_echo2_msg-Waits :
      (q : ℕ) (r : Replica)
      → rec_quorum ≡ pos q
      → n < 2 ^ 62
      → IsAnswer e quorum hash content
      → Waits quorum rec_quorum hash n r
      → leb q (suc n) ≡ false
      → Waits quorum rec_quorum hash (suc n) (handle_echo2_msg e content r)
  unfolding accept_echo2 count_echo update_buffer_content is_prepared get_buffer_content
  handle_echo2_msg-Waits q r hq small a w more = rw (handle_echo2_msg-accepts r a w) (
      ground (
        arith,
        hq,
        next_count small,
        adopt_echoed-SameWait e qc lqc (merged r),
        StringIntMap.get-insert r.rec_buffer hash hash (pos (suc n)),
        bytes_eq_iff hash hash,
      ))

  handle_echo2_msg-ready :
      (q : ℕ) (r : Replica)
      → rec_quorum ≡ pos q
      → n < 2 ^ 62
      → IsAnswer e quorum hash content
      → Waits quorum rec_quorum hash n r
      → leb q (suc n) ≡ true
      → (handle_echo2_msg e content r).cur_status ≡ ready
  unfolding accept_echo2 count_echo update_buffer_content
  handle_echo2_msg-ready q r hq small a w done =
      rw (handle_echo2_msg-accepts r a w)
        (ground (arith, hq, next_count small, adopt_echoed-SameWait e qc lqc (merged r)))

stays_ready :
    (e : Env) (content : HotStuffMessage) (r : Replica)
    → r.cur_status ≡ ready
    → (handle_echo2_msg e content r).cur_status ≡ ready
unfolding handle_echo2_msg answers_request
stays_ready e content r h = rw h refl

handle_echoes-stay_ready :
    (e : Env) (contents : List HotStuffMessage) (r : Replica)
    → r.cur_status ≡ ready
    → (handle_echoes e contents r).cur_status ≡ ready
unfolding handle_echoes
handle_echoes-stay_ready e [] r h = h
handle_echoes-stay_ready e (content ∷ contents) r h =
    handle_echoes-stay_ready e contents (handle_echo2_msg e content r) (stays_ready e content r h)

module _ (e : Env) (quorum : ℤ) (q : ℕ) (hash : Bytes) where
  handle_echoes-from :
      (n : ℕ) (contents : List HotStuffMessage) (r : Replica)
      → Waits quorum (pos q) hash n r
      → All (IsAnswer e quorum hash) contents
      → n < q
      → n + length contents < 2 ^ 62
      → (handle_echoes e contents r).cur_status
        ≡ (if leb q (n + length contents) then ready else recovering)
  unfolding handle_echoes
  handle_echoes-from n [] r w all below small = ground (arith, w.status)
  handle_echoes-from n (content ∷ contents) r w all below small =
      elim (Bool-cases (leb q (suc n))) [
        | inl done ↦
            handle_echoes-stay_ready e contents (handle_echo2_msg e content r) (
              handle_echo2_msg-ready e quorum (pos q) hash n content q r refl (omega arith) all.0 w
                done)
            ∙ ground arith
        | inr more ↦
            handle_echoes-from (suc n) contents (handle_echo2_msg e content r)
              (handle_echo2_msg-Waits e quorum (pos q) hash n content q r refl (omega arith) all.0 w
                more)
              all.1 (ground arith) (omega arith)
            ∙ ap (λ k. if leb q k then ready else recovering) (omega arith)
      ]

-- A recovering replica that has counted no answer to its last request, and needs `q` of them, 1 or
-- more, handles fewer than 2 ^ 62 answers, each with two verified certificates: it is READY afterwards
-- exactly if there were `q` of them, and still RECOVERING otherwise.
pub handle_echoes-cur_status :
    (e : Env) (quorum : ℤ) (q : ℕ) (hash : Bytes) (contents : List HotStuffMessage) (r : Replica)
    → Waits quorum (pos q) hash 0 r
    → All (IsAnswer e quorum hash) contents
    → 1 ≤ q
    → length contents < 2 ^ 62
    → (handle_echoes e contents r).cur_status
      ≡ (if leb q (length contents) then ready else recovering)
handle_echoes-cur_status e quorum q hash contents r w all some_needed small =
    handle_echoes-from e quorum q hash 0 contents r w all (omega arith) (omega arith)
    ∙ ap (λ k. if leb q k then ready else recovering) (omega arith)
