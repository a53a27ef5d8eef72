-- ===== src/Consensus/Reports/Stamps.antt =====
-- consensus/hotstuff.go: which transactions the reports of the chain hold, by their timestamps.
use sleepy_hot_stuff.Base.{
  ◌≡◌, refl, ap, Bool, true, false, ◌||◌, Bool-cases, inl, inr, Option, none, some, List, [], ◌∷◌,
  ◌++◌, arith, ℤ, eq_ℤ, eq_ℤ_iff, int_eq,
}
use sleepy_hot_stuff.Utils.Values.{bytes_to_string}
use sleepy_hot_stuff.Utils.Map.{contains, Distinct}
use sleepy_hot_stuff.Utils.IntBoolMap
use sleepy_hot_stuff.Utils.IntBoolMap.{IntBoolMap}
use sleepy_hot_stuff.Message.{MessageWithSignature, ClientRequest, Transaction}
use sleepy_hot_stuff.Env.{Env}
use sleepy_hot_stuff.Consensus.Reports.{Tx, Block, tx_of, report_txs}

abbrev pub stamps : List Tx → List ℤ
stamps [] = []
stamps (t ∷ txs) = t.timestamp ∷ stamps txs

abbrev pub block_stamps : List Block → List ℤ
block_stamps [] = []
block_stamps (b ∷ blocks) = stamps b.txs ++ block_stamps blocks

unfoldable pub seen : IntBoolMap → ℤ → Bool
seen m k = (IntBoolMap.get m k).1

-- No timestamp twice, and none that was seen before.
pub record Fresh (m : IntBoolMap) (ks : List ℤ) : Type 0 where
  pub distinct : Distinct ks
  pub unseen : (k : ℤ) → contains k ks ≡ true → seen m k ≡ false

pub seen-insert :
    (m : IntBoolMap) (key k : ℤ) → seen (IntBoolMap.insert m key true) k ≡ (eq_ℤ key k || seen m k)
unfolding seen
seen-insert m key k = ground (arith, IntBoolMap.get-insert m key k true)

Fresh-absent :
    (m : IntBoolMap) (key : ℤ) (ks : List ℤ)
    → Fresh (IntBoolMap.insert m key true) ks
    → contains key ks ≡ false
Fresh-absent m key ks h = elim (Bool-cases (contains key ks)) [
  | inr no_key ↦ no_key
  | inl has_key ↦ ground (arith, h.unseen key has_key, seen-insert m key key, eq_ℤ_iff key key)
]

Fresh-cons :
    (m : IntBoolMap) (key : ℤ) (ks : List ℤ)
    → seen m key ≡ false
    → Fresh (IntBoolMap.insert m key true) ks
    → Fresh m (key ∷ ks)
unfolding contains
Fresh-cons m key ks new h = record {
  distinct = (Fresh-absent m key ks h, h.distinct);
  unseen = λ k there. ground (arith, eq_ℤ_iff key k, seen-insert m key k, h.unseen k);
}

tx_of-timestamp : (cr : ClientRequest) (t : Option Transaction) → (tx_of cr t).timestamp ≡ cr.ts
unfolding tx_of
tx_of-timestamp cr none = refl
tx_of-timestamp cr (some t) = refl

abbrev pub ts_of : Env → MessageWithSignature → ℤ
ts_of e x = (e.unmarshal_request (bytes_to_string x.msg)).ts

module _ (e : Env) (m : IntBoolMap) (x : MessageWithSignature)
    (txs : List MessageWithSignature) where
  pub report_txs-old : seen m (ts_of e x) ≡ true → report_txs e m (x ∷ txs) ≡ report_txs e m txs
  unfolding seen report_txs
  report_txs-old old = rw old refl

  pub report_txs-new :
      seen m (ts_of e x) ≡ false
      → (stamps (report_txs e m (x ∷ txs)).1
          ≡ ts_of e x ∷ stamps (report_txs e (IntBoolMap.insert m (ts_of e x) true) txs).1)
        × ((report_txs e m (x ∷ txs)).0
            ≡ (report_txs e (IntBoolMap.insert m (ts_of e x) true) txs).0)
  unfolding seen report_txs
  report_txs-new new = (
    rw new (
        ap (λ t. t ∷ stamps (report_txs e (IntBoolMap.insert m (ts_of e x) true) txs).1)
          (tx_of-timestamp (e.unmarshal_request (bytes_to_string x.msg)) (
            e.unmarshal_transaction
              (bytes_to_string (e.unmarshal_request (bytes_to_string x.msg)).op)))),
    rw new refl,
  )

module _ (e : Env) where
  pub seen-report_txs :
      (m : IntBoolMap) (txs : List MessageWithSignature) (k : ℤ)
      → seen (report_txs e m txs).0 k ≡ (seen m k || contains k (stamps (report_txs e m txs).1))
  unfolding contains
  seen-report_txs m [] k = unfold report_txs in ground arith
  seen-report_txs m (x ∷ txs) k = elim (Bool-cases (seen m (ts_of e x))) [
    | inl old ↦ rw (report_txs-old e m x txs old) (seen-report_txs m txs k)
    | inr new ↦
        rw ((report_txs-new e m x txs new).0, (report_txs-new e m x txs new).1)
          (ground (
            arith,
            seen-report_txs (IntBoolMap.insert m (ts_of e x) true) txs k,
            seen-insert m (ts_of e x) k,
          ))
  ]

  pub Fresh-report_txs :
      (m : IntBoolMap) (txs : List MessageWithSignature) → Fresh m (stamps (report_txs e m txs).1)
  Fresh-report_txs m [] = unfold report_txs contains in record { distinct = tt; unseen = λ k h. cc }
  Fresh-report_txs m (x ∷ txs) = elim (Bool-cases (seen m (ts_of e x))) [
    | inl old ↦ rw (report_txs-old e m x txs old) (Fresh-report_txs m txs)
    | inr new ↦ rw (report_txs-new e m x txs new).0 (
        Fresh-cons m (ts_of e x) _ new
          (Fresh-report_txs (IntBoolMap.insert m (ts_of e x) true) txs))
  ]
