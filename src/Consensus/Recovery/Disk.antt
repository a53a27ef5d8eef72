-- ===== src/Consensus/Recovery/Disk.antt =====
-- Recovery from the disk: what the three stored values give back, and what waking up does to them.
use sleepy_hot_stuff.Base.{
  ◌≡◌, refl, ap, ◌∙◌, [], ◌∷◌, if◌then◌else◌, int_eq, true, false, some, arith, if_rule, inl, inr,
  Bytes, string_eq, bytes_eq, ℤ, pos, ◌≤ℤ◌, ltb_ℤ, eq_ℤ, add_int, max_int, min_int,
}
use sleepy_hot_stuff.Utils.Values.{
  bytes_to_int, int_to_bytes, bytes_to_string, bytes_to_int-int_to_bytes,
}
use sleepy_hot_stuff.Utils.Map
use sleepy_hot_stuff.Utils.Map.{contains, Distinct, keys}
use sleepy_hot_stuff.Utils.IntByteMap
use sleepy_hot_stuff.Utils.IntByteMap.{IntByteMap}
use sleepy_hot_stuff.Message.{QcBlock}
use sleepy_hot_stuff.Env.{Env}
use sleepy_hot_stuff.Db.{
  codes, read, recover_value, is_critical, recover_value-persist_value, persist_critical,
}
use sleepy_hot_stuff.Consensus.State.{Replica, Effect, ready, view_change, persist, emit}
use sleepy_hot_stuff.Consensus.View.{leader_id, set_view, hotstuff_start_vc, start_view_change}
use sleepy_hot_stuff.Consensus.Recovery.{recover_from_disk, restore, decode_into}
use sleepy_hot_stuff.Consensus.Start.{init_hotstuff, wake_up}

-- What the disk holds of a replica: the bytes of its view, of its locked block and of its committed
-- blocks, as the codec decodes them; a decoded map has each key once.
pub record Stores (e : Env) (r : Replica) (v : ℤ) (b : QcBlock) (m : IntByteMap) : Type 0 where
  pub block_bytes : Bytes
  pub map_bytes : Bytes
  pub view_stored :
      recover_value e.persist_level (codes "view") r.disk ≡ read (bytes_to_string (int_to_bytes v))
  pub block_stored : recover_value e.persist_level (codes "lockedBlock") r.disk ≡ read block_bytes
  pub map_stored : recover_value e.persist_level (codes "committedBlocks") r.disk ≡ read map_bytes
  pub block_read : e.unmarshal_block block_bytes ≡ b
  pub block_ok : e.is_block block_bytes ≡ true
  pub map_read : e.unmarshal_blocks map_bytes ≡ m
  pub map_ok : e.is_blocks map_bytes ≡ true
  pub map_keys : Distinct (keys m)

-- The view, the two blocks and the committed blocks after a recovery.
pub record Restored (r' : Replica) (v : ℤ) (b : QcBlock) (m : IntByteMap) : Type 0 where
  pub view : r'.view ≡ v
  pub locked : r'.locked_block ≡ b
  pub cur : r'.cur_block ≡ b
  pub committed : r'.committed_blocks ≡ m

hotstuff_start_vc-Restored :
    (e : Env) (r : Replica) (v : ℤ) (b : QcBlock) (m : IntByteMap)
    → Restored r v b m
    → Restored (hotstuff_start_vc e r) v b m
unfolding hotstuff_start_vc persist emit
hotstuff_start_vc-Restored e r v b m h = ground (arith, h.view, h.locked, h.cur, h.committed)

armed-Restored :
    (x : Effect) (r : Replica) (v : ℤ) (b : QcBlock) (m : IntByteMap)
    → Restored r v b m
    → Restored (emit x (record r { cur_status = ready })) v b m
unfolding emit
armed-Restored x r v b m h = ground (arith, h.view, h.locked, h.cur, h.committed)

enter_view-Restored :
    (e : Env) (v : ℤ) (r : Replica)
    → r.cur_block ≡ r.locked_block
    → Restored
        (persist e
          (codes "view")
          (int_to_bytes v)
          persist_critical
          (set_view e v (record r { cur_status = view_change })))
        v
        r.locked_block
        r.committed_blocks
unfolding set_view persist
enter_view-Restored e v r h = ground (arith, h)

start_view_change-Restored :
    (e : Env) (v : ℤ) (r : Replica)
    → r.view ≤ℤ v
    → r.cur_block ≡ r.locked_block
    → Restored (start_view_change e v r) (add_int v (pos 1)) r.locked_block r.committed_blocks
unfolding start_view_change
start_view_change-Restored e v r lt h =
    let next = add_int v (pos 1) in
    let vc =
      hotstuff_start_vc-Restored e _ next r.locked_block r.committed_blocks
        (enter_view-Restored e next r h) in
    if_rule (λ x. Restored x next r.locked_block r.committed_blocks) (ltb_ℤ v r.view)
      (λ p. ground (arith, p, lt))
      (λ _.
        if_rule (λ x. Restored x next r.locked_block r.committed_blocks)
          (eq_ℤ (leader_id e next) r.id) (λ _. vc) (λ _. armed-Restored _ _ _ _ _ vc))

-- What `recoverFromDisk` hands to the view change.
abbrev pub read_back : QcBlock → IntByteMap → Replica → Replica
read_back b m r = record r {
  locked_block = b;
  cur_block = b;
  committed_blocks = decode_into m r.committed_blocks;
}

restore-ok :
    (e : Env) (r : Replica) (v c d : Bytes)
    → e.is_block c ≡ true
    → e.is_blocks d ≡ true
    → restore e (read v) (read c) (read d) r
      ≡ start_view_change e
          (bytes_to_int (some v))
          (read_back (e.unmarshal_block c) (e.unmarshal_blocks d) r)
unfolding restore
restore-ok e r v c d h k = rw (h, k) refl

recover_from_disk-critical :
    (e : Env) (r : Replica)
    → e.persist_level ≡ persist_critical
    → recover_from_disk e r
      ≡ restore e
          (recover_value e.persist_level (codes "view") r.disk)
          (recover_value e.persist_level (codes "lockedBlock") r.disk)
          (recover_value e.persist_level (codes "committedBlocks") r.disk)
          r
unfolding recover_from_disk
recover_from_disk-critical e r h = ground (arith, h)

view_bytes :
    (v : ℤ)
    → min_int ≤ℤ v
    → v ≤ℤ max_int
    → bytes_to_int (some (bytes_to_string (int_to_bytes v))) ≡ v
unfolding bytes_to_string int_to_bytes
view_bytes v lo hi = bytes_to_int-int_to_bytes v lo hi

recovered :
    (e : Env) (r : Replica) (v : ℤ) (b : QcBlock) (m : IntByteMap)
    → e.persist_level ≡ persist_critical
    → Stores e r v b m
    → min_int ≤ℤ v
    → v ≤ℤ max_int
    → r.view ≤ℤ v
    → Restored (recover_from_disk e r) (add_int v (pos 1)) b (decode_into m r.committed_blocks)
recovered e r v b m level s lo hi le =
    let back = read_back b m r in
    rw
      (
        recover_from_disk-critical e r level,
        s.view_stored,
        s.block_stored,
        s.map_stored,
        restore-ok e r (bytes_to_string (int_to_bytes v)) s.block_bytes s.map_bytes s.block_ok
            s.map_ok,
        s.block_read,
        s.map_read,
        view_bytes v lo hi,
      )
      (start_view_change-Restored e v back le refl)

get-decode_into :
    (m blocks : IntByteMap) (k : ℤ)
    → Distinct (keys m)
    → IntByteMap.get (decode_into m blocks) k
      ≡ (if contains k (keys m) then IntByteMap.get m k else IntByteMap.get blocks k)
unfolding decode_into contains IntByteMap.get Map.get
get-decode_into [] blocks k d = refl
get-decode_into ((key, b) ∷ m) blocks k d = ground (
  arith,
  get-decode_into m (IntByteMap.insert blocks key b) k d.1,
  IntByteMap.get-insert blocks key k b,
  int_eq.beq_iff key k,
  d.0,
)

-- Where the critical values are persisted, the disk holds a view, a locked block and committed blocks
-- that decode, and the replica is not ahead of that view, `recoverFromDisk` enters the view after it
-- with that block as the locked and the current one. A committed block is the stored one at each height
-- that is stored, and at the others the one that was still in memory, if there was one.
pub recover_from_disk-restores :
    (e : Env) (r : Replica) (v : ℤ) (b : QcBlock) (m : IntByteMap)
    → e.persist_level ≡ persist_critical
    → Stores e r v b m
    → min_int ≤ℤ v
    → v ≤ℤ max_int
    → r.view ≤ℤ v
    → Restored (recover_from_disk e r) (add_int v (pos 1)) b (decode_into m r.committed_blocks)
      × ((k : ℤ)
          → IntByteMap.get (recover_from_disk e r).committed_blocks k ≡ (
              if contains k (keys m)
              then IntByteMap.get m k
              else IntByteMap.get r.committed_blocks k))
recover_from_disk-restores e r v b m level s lo hi le =
    let z = recovered e r v b m level s lo hi le in
    (
      z,
      λ k.
          ap (λ t. IntByteMap.get t k) z.committed
          ∙ get-decode_into m r.committed_blocks k s.map_keys,
    )

set_view-running :
    (e : Env) (v : ℤ) (r : Replica) → (set_view e v r).halted ≡ false → r.halted ≡ false
unfolding set_view persist
set_view-running e v r h = ground (arith, h)

set_view-disk :
    (e : Env) (v : ℤ) (r : Replica)
    → e.persist_level ≡ persist_critical
    → (set_view e v r).halted ≡ false
    → recover_value e.persist_level (codes "view") (set_view e v r).disk
      ≡ read (bytes_to_string (int_to_bytes v))
unfolding set_view persist int_to_bytes bytes_to_string is_critical bytes_eq
set_view-disk e v r level h =
    let stored =
      recover_value-persist_value e.persist_level persist_critical (codes "view")
        (bytes_to_string (int_to_bytes v)) r.disk (rw level (ground arith))
        (inr (level, inr (inl refl))) in
    rw (set_view-running e v r h) stored

-- Where the critical values are persisted, a replica whose process survives the initialisation that
-- follows its sleep has view 0 on its disk, whatever view was there when it fell asleep.
pub wake_up-forgets_view :
    (e : Env) (r : Replica)
    → e.persist_level ≡ persist_critical
    → (wake_up e r).halted ≡ false
    → recover_value e.persist_level (codes "view") (wake_up e r).disk
      ≡ read (bytes_to_string (int_to_bytes (pos 0)))
unfolding wake_up init_hotstuff
wake_up-forgets_view e r level h = set_view-disk e (pos 0) _ level h
