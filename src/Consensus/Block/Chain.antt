-- ===== src/Consensus/Block/Chain.antt =====
-- What a certified parent does to the current, the locked and the committed blocks.
use sleepy_hot_stuff.Base.{
  ◌≡◌, Bool, not, ◌&&◌, some, arith, if◌then◌else◌, ℤ, pos, ◌≤ℤ◌, leb_ℤ, ltb_ℤ, add_int,
}
use sleepy_hot_stuff.Utils.IntByteMap
use sleepy_hot_stuff.Message.{QcBlock}
use sleepy_hot_stuff.Env.{Env}
use sleepy_hot_stuff.Consensus.State.{Replica, emit, persist, or_empty}
use sleepy_hot_stuff.Consensus.Sequence.{update_seq}
use sleepy_hot_stuff.Consensus.Block.{
  commit_locked, lock_current, adopt_higher, forget_decisions, finish_block, process_qc_info,
}

-- The block replaces the current one at a replica that does not lead.
abbrev pub adopted : QcBlock → Replica → QcBlock
adopted b r = if not r.leader && ltb_ℤ r.cur_block.height b.height then b else r.cur_block

-- The current block is locked by a block above it, from height 2 on.
abbrev pub locks : QcBlock → Replica → Bool
locks b r = leb_ℤ (pos 2) b.height && ltb_ℤ r.cur_block.height b.height

-- The locked block is committed too, if the new block is at least two above it, from height 3 on.
abbrev pub commits : QcBlock → Replica → Bool
commits b r =
    leb_ℤ (pos 3) b.height
    && ltb_ℤ r.cur_block.height b.height
    && leb_ℤ (add_int r.locked_block.height (pos 2)) b.height

abbrev pub after_commit : Env → QcBlock → Replica → IntByteMap.IntByteMap
after_commit e b r =
    if commits b r
    then IntByteMap.insert r.committed_blocks r.locked_block.height
        (some (or_empty (e.marshal_block r.locked_block)))
    else r.committed_blocks

-- The blocks of the chain that a replica holds, without the rest of its state.
pub record Chain (r' : Replica) (b c : QcBlock) (m : IntByteMap.IntByteMap) : Type 0 where
  pub cur : r'.cur_block ≡ b
  pub locked : r'.locked_block ≡ c
  pub committed : r'.committed_blocks ≡ m

module _ (e : Env) where
  update_seq-Chain :
      (seq : ℤ) (r : Replica)
      → Chain (update_seq e seq r) r.cur_block r.locked_block r.committed_blocks
  unfolding update_seq persist
  update_seq-Chain seq r = ground arith

  forget_decisions-Chain :
      (seq : ℤ) (r : Replica)
      → Chain (forget_decisions e seq r) r.cur_block r.locked_block r.committed_blocks
  unfolding forget_decisions persist
  forget_decisions-Chain seq r = ground arith

  adopt_higher-Chain :
      (b : QcBlock) (r : Replica)
      → (Chain (adopt_higher e b r) (adopted b r) r.locked_block r.committed_blocks)
  unfolding adopt_higher persist
  adopt_higher-Chain b r = ground arith

  finish_block-Chain :
      (b : QcBlock) (seq : ℤ) (r : Replica)
      → Chain (finish_block e b seq r) (adopted b r) r.locked_block r.committed_blocks
  unfolding finish_block
  finish_block-Chain b seq r = ground (
    arith,
    adopt_higher-Chain b r,
    forget_decisions-Chain seq (adopt_higher e b r),
    update_seq-Chain seq (forget_decisions e seq (adopt_higher e b r)),
  )

  lock_current-Chain :
      (r : Replica)
      → (Chain (lock_current e r) r.cur_block r.cur_block r.committed_blocks)
        × ((lock_current e r).leader ≡ r.leader)
  unfolding lock_current persist
  lock_current-Chain r = ground arith

  commit_locked-Chain :
      (b : QcBlock) (r : Replica)
      → Chain (commit_locked e b r) r.cur_block r.locked_block (
          if leb_ℤ (add_int r.locked_block.height (pos 2)) b.height
          then IntByteMap.insert r.committed_blocks r.locked_block.height
              (some (or_empty (e.marshal_block r.locked_block)))
          else r.committed_blocks)
        × ((commit_locked e b r).leader ≡ r.leader)
  unfolding commit_locked persist emit
  commit_locked-Chain b r = ground arith

  -- Processing the certificate of a parent block commits the locked block, locks the current one and
  -- adopts the new one, each exactly under its condition, and touches no other committed block.
  pub process_qc_info-Chain :
      (b : QcBlock) (seq : ℤ) (r : Replica)
      → Chain
          (process_qc_info e b seq r)
          (adopted b r)
          (if locks b r then r.cur_block else r.locked_block)
          (after_commit e b r)
  unfolding process_qc_info
  process_qc_info-Chain b seq r =
      let after = if leb_ℤ (pos 3) b.height then commit_locked e b r else r in
      ground (
        arith,
        commit_locked-Chain b r,
        lock_current-Chain after,
        finish_block-Chain b seq (lock_current e after),
        finish_block-Chain b seq r,
      )

  -- Where the locked block is not above the current one, processing the certificate of a parent block
  -- keeps it so, and lowers the height of neither.
  pub process_qc_info-ordered :
      (b : QcBlock) (seq : ℤ) (r : Replica)
      → r.locked_block.height ≤ℤ r.cur_block.height
      → (r.cur_block.height ≤ℤ (process_qc_info e b seq r).cur_block.height)
        × (r.locked_block.height ≤ℤ (process_qc_info e b seq r).locked_block.height)
        × ((process_qc_info e b seq r).locked_block.height
            ≤ℤ (process_qc_info e b seq r).cur_block.height)
  process_qc_info-ordered b seq r h =
      let c = process_qc_info-Chain b seq r in rw (c.cur, c.locked) (ground arith)
