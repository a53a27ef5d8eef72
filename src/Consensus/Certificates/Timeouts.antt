-- ===== src/Consensus/Certificates/Timeouts.antt =====
-- `VerifyTQC` decides an independent description of a timeout certificate.
use sleepy_hot_stuff.Base.{
  ◌≡◌, refl, true, false, some, List, [], ◌∷◌, arith, length, ℤ, pos, eq_ℤ_iff, ◌≤ℤ◌, ◌↔◌, All,
  int_eq, eq_ℤ,
}
use sleepy_hot_stuff.Utils.Values.{bytes_to_string}
use sleepy_hot_stuff.Utils.Map
use sleepy_hot_stuff.Utils.Map.{contains, Distinct}
use sleepy_hot_stuff.Utils.Sets.{Set, new_set, add_item, has_item, has_item-add_item}
use sleepy_hot_stuff.Message.{MessageWithSignature, HotStuffMessage}
use sleepy_hot_stuff.Env.{Env}
use sleepy_hot_stuff.Crypto.{verify_sig}
use sleepy_hot_stuff.Consensus.Certificates.{is_timeout, verify_timeouts, verify_tqc}

-- The message inside a signed one.
abbrev pub opened : Env → MessageWithSignature → HotStuffMessage
opened e t = e.unmarshal_message (bytes_to_string t.msg)

-- A signed timeout message of the view.
pub record IsTimeout (e : Env) (v : ℤ) (t : MessageWithSignature) : Type 0 where
  pub of_view : (opened e t).view ≡ v
  pub is_timeout : is_timeout (opened e t).mtype ≡ true
  pub signed : verify_sig e (opened e t).source t.msg t.sig ≡ some true

-- Each entry is a signed timeout message of the view, and no source is in `ids` or comes twice.
abbrev AreTimeouts : Env → ℤ → Set → List MessageWithSignature → Type 0
AreTimeouts e v ids [] = Unit
AreTimeouts e v ids (t ∷ tqc) =
    (has_item ids (opened e t).source ≡ false)
    × IsTimeout e v t
    × AreTimeouts e v (add_item ids (opened e t).source) tqc

verify_timeouts_sound :
    (e : Env) (v : ℤ) (ids : Set) (tqc : List MessageWithSignature)
    → verify_timeouts e v ids tqc ≡ some true
    → AreTimeouts e v ids tqc
unfolding verify_timeouts
verify_timeouts_sound e v ids [] h = tt
verify_timeouts_sound e v ids (t ∷ tqc) h = ground (
  arith,
  eq_ℤ_iff (opened e t).view v,
  verify_timeouts_sound e v (add_item ids (opened e t).source) tqc,
)

verify_timeouts_complete :
    (e : Env) (v : ℤ) (ids : Set) (tqc : List MessageWithSignature)
    → AreTimeouts e v ids tqc
    → verify_timeouts e v ids tqc ≡ some true
unfolding verify_timeouts
verify_timeouts_complete e v ids [] h = refl
verify_timeouts_complete e v ids (t ∷ tqc) h = ground (
  arith,
  eq_ℤ_iff (opened e t).view v,
  verify_timeouts_complete e v (add_item ids (opened e t).source) tqc,
)

-- Those who sent the messages.
abbrev pub sources : Env → List MessageWithSignature → List ℤ
sources e [] = []
sources e (t ∷ tqc) = (opened e t).source ∷ sources e tqc

-- None of the messages is from a source in `ids`.
abbrev Outside : Env → Set → List MessageWithSignature → Type 0
Outside e ids [] = Unit
Outside e ids (t ∷ tqc) = (has_item ids (opened e t).source ≡ false) × Outside e ids tqc

eq_flip : (a b : ℤ) → eq_ℤ a b ≡ eq_ℤ b a
eq_flip a b = ground (arith, eq_ℤ_iff a b, eq_ℤ_iff b a)

Outside-add_item :
    (e : Env) (ids : Set) (id : ℤ) (tqc : List MessageWithSignature)
    → Outside e (add_item ids id) tqc ↔ (Outside e ids tqc × (contains id (sources e tqc) ≡ false))
unfolding contains
Outside-add_item e ids id [] = (λ o. (tt, refl), λ o. tt)
Outside-add_item e ids id (t ∷ tqc) =
    let rest = Outside-add_item e ids id tqc in
    let here = has_item-add_item ids id (opened e t).source in
    let flip = eq_flip id (opened e t).source in
    (
      λ o.
          let z = rest.0 o.1 in
          (ground (arith, here, o.0, z.0), ground (arith, here, o.0, z.1, flip)),
      λ o. (ground (arith, here, o, flip), rest.1 (o.0.1, ground (arith, o.1))),
    )

-- `AreTimeouts` takes the sources one by one.
AreTimeouts-iff :
    (e : Env) (v : ℤ) (ids : Set) (tqc : List MessageWithSignature)
    → AreTimeouts e v ids tqc
      ↔ (All (IsTimeout e v) tqc × Distinct (sources e tqc) × Outside e ids tqc)
AreTimeouts-iff e v ids [] = (λ a. (tt, tt, tt), λ a. tt)
AreTimeouts-iff e v ids (t ∷ tqc) =
    let rest = AreTimeouts-iff e v (add_item ids (opened e t).source) tqc in
    let apart = Outside-add_item e ids (opened e t).source tqc in
    (
      λ a. let z = rest.0 a.2 in let o = apart.0 z.2 in ((a.1, z.0), (o.1, z.1), (a.0, o.0)),
      λ a. (a.2.0, a.0.0, rest.1 (a.0.1, a.1.1, apart.1 (a.2.1, a.1.0))),
    )

Outside-new_set : (e : Env) (tqc : List MessageWithSignature) → Outside e new_set tqc
unfolding has_item new_set Map.get
Outside-new_set e [] = tt
Outside-new_set e (t ∷ tqc) = (refl, Outside-new_set e tqc)

-- For a view from 0 on the check accepts exactly a list of at least a quorum of messages, each of them a
-- signed timeout message of that view, no two of them from the same source.
pub verify_tqc_iff :
    (e : Env) (quorum v : ℤ) (tqc : List MessageWithSignature)
    → pos 0 ≤ℤ v
    → (verify_tqc e quorum v tqc ≡ some true)
      ↔ ((quorum ≤ℤ pos (length tqc)) × All (IsTimeout e v) tqc × Distinct (sources e tqc))
unfolding verify_tqc
verify_tqc_iff e quorum v tqc h =
    let all = AreTimeouts-iff e v new_set tqc in
    (
      λ ok.
          let enough : quorum ≤ℤ pos (length tqc) = ground (arith, ok) in
          let checked : verify_timeouts e v new_set tqc ≡ some true = ground (arith, ok) in
          let z = all.0 (verify_timeouts_sound e v new_set tqc checked) in (enough, z.0, z.1),
      λ c. ground (
        arith,
        c.0,
        verify_timeouts_complete e v new_set tqc (all.1 (c.1, c.2, Outside-new_set e tqc)),
      ),
    )
