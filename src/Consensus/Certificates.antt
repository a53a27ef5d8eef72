-- ===== src/Consensus/Certificates.antt =====
-- viewchange.go: the checks of the certificates that arrive in messages, `VerifyTQC` and `VerifyQC`.
-- `none` is a panic inside `VerifySig`.
pub mod Timeouts
pub mod Votes
use sleepy_hot_stuff.Base.{
  ℕ, ◌≡◌, refl, Bool, true, false, ◌||◌, ◌&&◌, not, Option, none, some, List, [], ◌∷◌,
  if◌then◌else◌, ltb, ◌==◌, length, Bytes, ℤ, pos, eq_ℤ, ltb_ℤ,
}
use sleepy_hot_stuff.Utils.Values.{Slice, bytes_to_string}
use sleepy_hot_stuff.Utils.Sets.{Set, new_set, add_item, has_item}
use sleepy_hot_stuff.Message.{MessageType, MessageWithSignature, HotStuffMessage, QcBlock}
use sleepy_hot_stuff.Env.{Env}
use sleepy_hot_stuff.Crypto.{verify_sig}

abbrev pub is_timeout : MessageType → Bool
is_timeout MessageType.timeout = true
is_timeout _ = false

-- The loop of `VerifyTQC`, with the sources seen.
unfoldable pub verify_timeouts : Env → ℤ → Set → List MessageWithSignature → Option Bool
verify_timeouts e v ids [] = some true
verify_timeouts e v ids (t ∷ tqc) =
    let content = e.unmarshal_message (bytes_to_string t.msg) in
    let rest = verify_timeouts e v (add_item ids content.source) tqc in
    if has_item ids content.source || not (eq_ℤ content.view v) || not (is_timeout content.mtype)
    then some false
    else elim (verify_sig e content.source t.msg t.sig) [
      | none ↦ none
      | some false ↦ some false
      | some true ↦ rest
    ]

unfoldable pub verify_tqc : Env → ℤ → ℤ → List MessageWithSignature → Option Bool
verify_tqc e quorum v tqc =
    if ltb_ℤ v (pos 0)
    then some true
    else (if ltb_ℤ (pos (length tqc)) quorum then some false else verify_timeouts e v new_set tqc)

-- The loop of `VerifyQC`. A signature that does not verify returns from the function, with true.
unfoldable pub verify_votes : Env → Slice → List ℤ → List Slice → Option Bool
verify_votes e hash ids [] = some true
verify_votes e hash [] (sig ∷ sigs) = none
verify_votes e hash (id ∷ ids) (sig ∷ sigs) =
    let rest = verify_votes e hash ids sigs in
    elim (verify_sig e id hash sig) [ none ↦ none | some false ↦ some true | some true ↦ rest ]

unfoldable pub verify_qc : Env → ℤ → QcBlock → Option Bool
verify_qc e quorum qc = elim qc.hash [
  | none ↦ some true
  | some hash ↦
      if not (length qc.qc == length qc.ids) || ltb_ℤ (pos (length qc.qc)) quorum
      then some false
      else verify_votes e (some hash) qc.ids qc.qc
]
