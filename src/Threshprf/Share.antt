-- ===== src/Threshprf/Share.antt =====
-- prf_p256.go: the share of a party, with a proof that it is made with the party's key, and its
-- verification. A share is a point of 64 bytes, a challenge and a response. `none` is a panic.
pub mod Parts
pub mod Group
pub mod Complete
use mathlib.Core.Option.{Option, none, some}
use sleepy_hot_stuff.Base.{
  ℕ, ◌+◌, ◌*◌, ◌%◌, Bool, true, false, ◌≡◌, arith, ◌||◌, ◌&&◌, [], ◌∷◌, ◌++◌, ltb, ◌==◌,
  if◌then◌else◌, length, take, drop, Bytes,
}
use sleepy_hot_stuff.Threshprf.Words.{
  ◌>>=◌, Words, byte_to_u64_256, number_of, bytes_of, bytetostring_256,
}
use sleepy_hot_stuff.Threshprf.Curve.{Curve, Point, negate}

-- A slice expression `b[from:from+len]` reaches up to the capacity of the slice: `behind` is what lies
-- behind the slice in its array. Behind that it panics.
unfoldable pub slice : Bytes → ℕ → ℕ → Bytes → Option Bytes
slice behind from len b =
    if ltb (length (b ++ behind)) (from + len)
    then none
    else some (take len (drop from (b ++ behind)))

-- A slice with what lies behind it.
abbrev pub Buf : Type 0
Buf = Bytes × Bytes

unfoldable pub is_empty : Bytes → Bool
is_empty [] = true
is_empty (x ∷ b) = false

-- A point as 64 bytes, and back.
unfoldable pub point_bytes : Point → Bytes
point_bytes (x, y) = bytes_of x ++ bytes_of y

unfoldable pub point_of : Bytes → Bytes → Option Point
point_of x y = number_of x >>= λ a. number_of y >>= λ b. some (a, b)

unfoldable pub same_words : Words → Words → Bool
same_words a b = (a.w0 == b.w0) && (a.w1 == b.w1) && (a.w2 == b.w2) && (a.w3 == b.w3)

module _ (c : Curve) where
  -- The hash is read into words and written again.
  unfoldable pub hash : Bytes → Option Bytes
  hash b = bytetostring_256 (c.sha256 b)

  -- The multiple of the base point by the hash; (0, 0) for no input.
  unfoldable pub hashmap_point : Bytes → Option Point
  hashmap_point [] = some (0, 0)
  hashmap_point (x ∷ input) = hash (x ∷ input) >>= λ h. some (c.scalar_base_mult h)

  -- What the challenge is the hash of.
  unfoldable pub transcript : Bytes → Bytes → Point → Point → Bytes → Point → Bytes
  transcript vkx vky h g share h_cap =
      point_bytes c.g
      ++ (vkx ++ (vky ++ (point_bytes h ++ (point_bytes g ++ (share ++ point_bytes h_cap)))))

  -- With the random bytes `s`.
  unfoldable pub compute_share : Bytes → Bytes → Bytes → Bytes → Bytes → Option Bytes
  compute_share s [] sk vkx vky = some []
  compute_share s (x ∷ input) sk vkx vky = do
    g ← hashmap_point (x ∷ input)
    let share = point_bytes (c.scalar_mult g sk)
    cin ← hash (transcript vkx vky (c.scalar_base_mult s) g share (c.scalar_mult g s))
    s_num ← number_of s
    sk_num ← number_of sk
    c_num ← number_of cin
    some (share ++ (cin ++ bytes_of ((c_num * sk_num + s_num) % c.n)))

  -- `behind` belongs to the share.
  unfoldable pub verify_share : Bytes → Bytes → Bytes → Bytes → Bytes → Option Bool
  unfolding is_empty same_words
  verify_share behind input vkx vky share =
      if is_empty input || is_empty vkx || is_empty vky || is_empty share then some false else do
        cb ← slice behind 64 32 share
        zb ← slice behind 96 32 share
        vk ← point_of vkx vky
        let h = c.add (c.scalar_base_mult zb) (negate c (c.scalar_mult vk cb))
        g ← hashmap_point input
        front ← slice behind 0 64 share
        share_x ← slice behind 0 32 share
        share_y ← slice behind 32 32 share
        sigma ← point_of share_x share_y
        let h_cap = c.add (c.scalar_mult g zb) (negate c (c.scalar_mult sigma cb))
        cin ← hash (transcript vkx vky h g front h_cap)
        cb64 ← byte_to_u64_256 cb
        cin64 ← byte_to_u64_256 cin
        some (same_words cb64 cin64)

-- Equal words are the same words.
pub same_words_refl : (a : Words) → same_words a a ≡ true
unfolding same_words
same_words_refl a = ground arith
