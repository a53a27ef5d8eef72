-- ===== src/Consensus/Reports/Chain.antt =====
-- consensus/hotstuff.go: a report of the chain holds every transaction of the blocks that it looks up,
-- each timestamp once.
use sleepy_hot_stuff.Base.{
  ℕ, zero, suc, ◌+◌, ◌<◌, ◌≡◌, refl, ap, ◌∙◌, Bool, true, false, ◌||◌, Bool-cases, inl, inr, some,
  List, [], ◌∷◌, ◌++◌, arith, get_elem?, ℤ, pos, eq_ℤ_iff, int_eq,
}
use sleepy_hot_stuff.Utils.Values.{Slice, bytes_to_string}
use sleepy_hot_stuff.Utils.Map
use sleepy_hot_stuff.Utils.Map.{contains, Distinct, contains-append}
use sleepy_hot_stuff.Utils.IntByteMap
use sleepy_hot_stuff.Utils.IntByteMap.{IntByteMap}
use sleepy_hot_stuff.Utils.IntBoolMap
use sleepy_hot_stuff.Utils.IntBoolMap.{IntBoolMap}
use sleepy_hot_stuff.Message.{MessageWithSignature}
use sleepy_hot_stuff.Env.{Env}
use sleepy_hot_stuff.Consensus.State.{Replica}
use sleepy_hot_stuff.Consensus.Reports.{
  Block, report_txs, report_block, report_height, report_heights, save_committed_blocks_to_file,
  genesis_block,
}
use sleepy_hot_stuff.Consensus.Reports.Stamps.{
  stamps, block_stamps, seen, Fresh, ts_of, seen-insert, seen-report_txs, Fresh-report_txs,
  report_txs-old, report_txs-new,
}

Distinct-append :
    (xs ys : List ℤ)
    → Distinct xs
    → Distinct ys
    → ((k : ℤ) → contains k xs ≡ true → contains k ys ≡ false)
    → Distinct (xs ++ ys)
unfolding contains
Distinct-append [] ys dx dy apart = dy
Distinct-append (x ∷ xs) ys dx dy apart = (
  ground (arith, contains-append x xs ys, apart x, eq_ℤ_iff x x),
  Distinct-append xs ys dx.1 dy (λ k h. apart k (ground (arith, h))),
)

not_contained : (a b : Bool) → (b ≡ true → a ≡ false) → a ≡ true → b ≡ false
not_contained a b h k = ground (arith, h)

Fresh-append :
    (m n : IntBoolMap) (xs ys : List ℤ)
    → Fresh m xs
    → ((k : ℤ) → seen n k ≡ (seen m k || contains k xs))
    → Fresh n ys
    → Fresh m (xs ++ ys)
Fresh-append m n xs ys hx both hy = record {
  distinct =
      Distinct-append xs ys hx.distinct hy.distinct
        (λ k h. not_contained (seen n k) (contains k ys) (hy.unseen k) (ground (arith, both k, h)));
  unseen = λ k h. ground (arith, contains-append k xs ys, hx.unseen k, hy.unseen k, both k);
}

module _ (e : Env) where
  Fresh-report_height :
      (found : Slice × Bool) (m : IntBoolMap) (rest : IntBoolMap → List Block)
      → ((n : IntBoolMap) → Fresh n (block_stamps (rest n)))
      → Fresh m (block_stamps (report_height e found m rest))
  unfolding report_height report_block
  Fresh-report_height (bser, false) m rest h = h m
  Fresh-report_height (bser, true) m rest h =
      let txs = (e.unmarshal_block (bytes_to_string bser)).txs in
      Fresh-append m (report_txs e m txs).0 (stamps (report_txs e m txs).1)
        (block_stamps (rest (report_txs e m txs).0)) (Fresh-report_txs e m txs)
        (seen-report_txs e m txs) (h (report_txs e m txs).0)

  Fresh-report_heights :
      (blocks : IntByteMap) (rounds i : ℕ) (m : IntBoolMap)
      → Fresh m (block_stamps (report_heights e blocks rounds i m))
  unfolding report_heights
  Fresh-report_heights blocks zero i m =
      unfold contains in record { distinct = tt; unseen = λ k h. cc }
  Fresh-report_heights blocks (suc rounds) i m =
      Fresh-report_height (IntByteMap.get blocks (pos i)) m (report_heights e blocks rounds (suc i))
        (Fresh-report_heights blocks rounds (suc i))

  covers-head :
      (m : IntBoolMap) (x : MessageWithSignature) (txs : List MessageWithSignature)
      → seen (report_txs e m (x ∷ txs)).0 (ts_of e x) ≡ true
  covers-head m x txs = elim (Bool-cases (seen m (ts_of e x))) [
    | inl old ↦
        rw (report_txs-old e m x txs old) (ground (arith, seen-report_txs e m txs (ts_of e x), old))
    | inr new ↦ rw (report_txs-new e m x txs new).1 (
        ground (
          arith,
          seen-report_txs e (IntBoolMap.insert m (ts_of e x) true) txs (ts_of e x),
          seen-insert m (ts_of e x) (ts_of e x),
          eq_ℤ_iff (ts_of e x) (ts_of e x),
        ))
  ]

  -- A transaction of the block is reported, or its timestamp was seen before.
  covers-report_txs :
      (m : IntBoolMap) (txs : List MessageWithSignature) (j : ℕ) (x : MessageWithSignature)
      → get_elem? txs j ≡ some x
      → seen (report_txs e m txs).0 (ts_of e x) ≡ true
  covers-report_txs m [] j x at = cc
  covers-report_txs m (y ∷ txs) zero x at =
      let same : y ≡ x = cc in rw (← same) (covers-head m y txs)
  covers-report_txs m (y ∷ txs) (suc j) x at = elim (Bool-cases (seen m (ts_of e y))) [
    | inl old ↦ rw (report_txs-old e m y txs old) (covers-report_txs m txs j x at)
    | inr new ↦
        rw (report_txs-new e m y txs new).1
          (covers-report_txs (IntBoolMap.insert m (ts_of e y) true) txs j x at)
  ]

  -- So is one of a block further up.
  covers-report_height :
      (found : Slice × Bool) (m : IntBoolMap) (rest : IntBoolMap → List Block) (k : ℤ)
      → ((n : IntBoolMap) → (seen n k || contains k (block_stamps (rest n))) ≡ true)
      → (seen m k || contains k (block_stamps (report_height e found m rest))) ≡ true
  unfolding report_height report_block
  covers-report_height (bser, false) m rest k h = h m
  covers-report_height (bser, true) m rest k h =
      let txs = (e.unmarshal_block (bytes_to_string bser)).txs in
      ground (
        arith,
        h (report_txs e m txs).0,
        seen-report_txs e m txs k,
        contains-append k (stamps (report_txs e m txs).1)
            (block_stamps (rest (report_txs e m txs).0)),
      )

  covers-found :
      (bser : Slice) (m : IntBoolMap) (rest : IntBoolMap → List Block) (j : ℕ)
      (x : MessageWithSignature)
      → get_elem? (e.unmarshal_block (bytes_to_string bser)).txs j ≡ some x
      → (seen m (ts_of e x)
          || contains (ts_of e x) (block_stamps (report_height e (bser, true) m rest)))
        ≡ true
  unfolding report_height report_block
  covers-found bser m rest j x at =
      let txs = (e.unmarshal_block (bytes_to_string bser)).txs in
      ground (
        arith,
        covers-report_txs m txs j x at,
        seen-report_txs e m txs (ts_of e x),
        contains-append (ts_of e x) (stamps (report_txs e m txs).1)
            (block_stamps (rest (report_txs e m txs).0)),
      )

  covers-report_heights :
      (blocks : IntByteMap) (rounds i h : ℕ) (m : IntBoolMap) (bser : Slice) (j : ℕ)
      (x : MessageWithSignature)
      → h < rounds
      → IntByteMap.get blocks (pos (h + i)) ≡ (bser, true)
      → get_elem? (e.unmarshal_block (bytes_to_string bser)).txs j ≡ some x
      → (seen m (ts_of e x)
          || contains (ts_of e x) (block_stamps (report_heights e blocks rounds i m)))
        ≡ true
  unfolding report_heights
  covers-report_heights blocks zero i h m bser j x below there at = absurd (omega arith)
  covers-report_heights blocks (suc rounds) i zero m bser j x below there at =
      let here : IntByteMap.get blocks (pos i) ≡ (bser, true) =
        ap (λ k. IntByteMap.get blocks (pos k)) (omega arith) ∙ there in
      rw here (covers-found bser m (report_heights e blocks rounds (suc i)) j x at)
  covers-report_heights blocks (suc rounds) i (suc h) m bser j x below there at =
      covers-report_height (IntByteMap.get blocks (pos i)) m
        (report_heights e blocks rounds (suc i)) (ts_of e x)
        (λ n.
          covers-report_heights blocks rounds (suc i) h n bser j x (omega arith)
            (ap (λ k. IntByteMap.get blocks (pos k)) (omega arith) ∙ there) at)

-- The file of committed blocks, behind its genesis block, holds no timestamp twice.
pub save_committed_blocks_to_file-Distinct :
    (e : Env) (r : Replica)
    → (blocks : List Block) × (save_committed_blocks_to_file e r ≡ genesis_block ∷ blocks)
      × Distinct (block_stamps blocks)
unfolding save_committed_blocks_to_file
save_committed_blocks_to_file-Distinct e r =
    let n = IntByteMap.get_len r.committed_blocks in
    (
      report_heights e r.committed_blocks n 1 IntBoolMap.init,
      refl,
      (Fresh-report_heights e r.committed_blocks n 1 IntBoolMap.init).distinct,
    )

seen-init : (k : ℤ) → seen IntBoolMap.init k ≡ false
unfolding seen IntBoolMap.init IntBoolMap.get Map.get
seen-init k = refl

-- The timestamp of every transaction of a committed block at a height from 1 up to the number of the
-- committed blocks is in the file. Of several transactions of one timestamp only one is there.
pub save_committed_blocks_to_file-covers :
    (e : Env) (r : Replica) (h : ℕ) (bser : Slice) (j : ℕ) (x : MessageWithSignature)
    → h < IntByteMap.get_len r.committed_blocks
    → IntByteMap.get r.committed_blocks (pos (h + 1)) ≡ (bser, true)
    → get_elem? (e.unmarshal_block (bytes_to_string bser)).txs j ≡ some x
    → contains (ts_of e x) (block_stamps (save_committed_blocks_to_file e r)) ≡ true
unfolding save_committed_blocks_to_file contains
save_committed_blocks_to_file-covers e r h bser j x below there at = ground (
  arith,
  covers-report_heights e r.committed_blocks (IntByteMap.get_len r.committed_blocks) 1 h
      IntBoolMap.init bser j x below there at,
  seen-init (ts_of e x),
)
