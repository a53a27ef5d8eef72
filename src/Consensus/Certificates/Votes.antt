-- ===== src/Consensus/Certificates/Votes.antt =====
-- What `VerifyQC` accepts.
use sleepy_hot_stuff.Base.{
  ◌≡◌, ◌≢◌, refl, true, false, some, List, [], ◌∷◌, arith, length, Bytes, ℤ, pos, ltb_ℤ, ◌≤ℤ◌, ◌↔◌,
  Bool-cases, ◌⊎◌, inl, inr,
}
use sleepy_hot_stuff.Utils.Values.{Slice}
use sleepy_hot_stuff.Message.{QcBlock}
use sleepy_hot_stuff.Env.{Env}
use sleepy_hot_stuff.Quorum.Buffer.Certified.{Vouched, Vouched-length}
use sleepy_hot_stuff.Crypto.{verify_sig}
use sleepy_hot_stuff.Consensus.Certificates.{verify_votes, verify_qc}

-- Whatever the loop makes of the signatures, it never answers false.
verify_votes-ne-false :
    (e : Env) (hash : Slice) (ids : List ℤ) (sigs : List Slice)
    → verify_votes e hash ids sigs ≢ some false
unfolding verify_votes
verify_votes-ne-false e hash ids [] = λ h. cc
verify_votes-ne-false e hash [] (sig ∷ sigs) = λ h. cc
verify_votes-ne-false e hash (id ∷ ids) (sig ∷ sigs) =
    λ h. ground (arith, verify_votes-ne-false e hash ids sigs)

-- A certificate with a hash is refused exactly when the numbers are wrong: fewer signatures than a
-- quorum, or not as many as identities. No signature, however wrong, makes the check answer false.
pub verify_qc-counts_only :
    (e : Env) (quorum : ℤ) (qc : QcBlock) (hash : Bytes)
    → qc.hash ≡ some hash
    → (verify_qc e quorum qc ≡ some false)
      ↔ ((length qc.qc ≢ length qc.ids) ⊎ ltb_ℤ (pos (length qc.qc)) quorum ≡ true)
unfolding verify_qc
verify_qc-counts_only e quorum qc hash h = (
  λ no. elim (Bool-cases (ltb_ℤ (pos (length qc.qc)) quorum)) [
    | inl few ↦ inr few
    | inr enough ↦ inl (λ same. ground (arith, verify_votes-ne-false e (some hash) qc.ids qc.qc))
  ],
  λ c. ground arith,
)

-- The check of a certificate that the comments and the error messages describe: every vote verifies.
abbrev pub AllVerify : Env → Slice → List ℤ → List Slice → Type 0
AllVerify e hash = Vouched (λ id sig. verify_sig e id hash sig ≡ some true)

verify_votes-accepts :
    (e : Env) (hash : Slice) (ids : List ℤ) (sigs : List Slice)
    → AllVerify e hash ids sigs
    → verify_votes e hash ids sigs ≡ some true
unfolding verify_votes
verify_votes-accepts e hash [] [] v = refl
verify_votes-accepts e hash [] (sig ∷ sigs) v = absurd v
verify_votes-accepts e hash (id ∷ ids) [] v = absurd v
verify_votes-accepts e hash (id ∷ ids) (sig ∷ sigs) v =
    ground (arith, verify_votes-accepts e hash ids sigs v.1)

-- Genuine votes are accepted: the check never refuses, and never panics at, a certificate with a quorum
-- of them.
pub verify_qc-accepts :
    (e : Env) (quorum : ℤ) (qc : QcBlock)
    → quorum ≤ℤ pos (length qc.qc)
    → AllVerify e qc.hash qc.ids qc.qc
    → verify_qc e quorum qc ≡ some true
unfolding verify_qc
verify_qc-accepts e quorum qc h v = ground (
  arith,
  Vouched-length (λ id sig. verify_sig e id qc.hash sig ≡ some true) qc.ids qc.qc v,
  verify_votes-accepts e qc.hash qc.ids qc.qc v,
)
