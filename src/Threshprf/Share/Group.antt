-- ===== src/Threshprf/Share/Group.antt =====
-- The points of a share: the response of the party against the challenge.
use mathlib.Core.Option.{some}
use mathlib.Core.Path.{subst}
use mathlib.Core.List.{append-nil}
use sleepy_hot_stuff.Base.{
  ℕ, ◌+◌, ◌*◌, ◌%◌, ◌≡◌, ◌≢◌, refl, sym, ap, ◌∙◌, [], ◌++◌, arith, length, Bytes,
}
use sleepy_hot_stuff.Threshprf.Words.{
  words_at, u64_to_byte_256, number_of, bytes_of, bytetostring_256, number_of-bytes_of,
  length-u64_to_byte_256,
}
use sleepy_hot_stuff.Threshprf.Curve.{Curve, IsGroup, Point, negate, infinity}
use sleepy_hot_stuff.Threshprf.Share.{point_of, hash}
use sleepy_hot_stuff.Threshprf.Share.Parts.{length-bytes_of, num, read_number, read_words}

module _ (c : Curve) (group : IsGroup c) where
  -- The response of a party, less the challenge times its multiple of a point, is the commitment.
  pub response :
      (a : Point) (c_num sk_num s_num : ℕ)
      → group.On a
      → group.times (group.times a sk_num) c_num ≢ infinity
      → c.add
          (group.times a ((c_num * sk_num + s_num) % c.n))
          (negate c (group.times (group.times a sk_num) c_num))
        ≡ group.times a s_num
  response a c_num sk_num s_num on ne =
      rw
        (
          group.cyclic a (c_num * sk_num + s_num) on,
          group.times-add a (c_num * sk_num) s_num on,
          group.times-times a sk_num c_num on,
        )
        (group.cancel (group.times a s_num) (group.times a (c_num * sk_num))
          (group.times-On a s_num on) (group.times-On a (c_num * sk_num) on)
          (λ h. ne (group.times-times a sk_num c_num on ∙ h)))

  -- The 64 bytes of a point of the curve are read as the point.
  pub point_of-point :
      (a : Point) (rest : Bytes)
      → group.On a
      → point_of (bytes_of a.0) (bytes_of a.1 ++ rest) ≡ some a
  unfolding point_of
  point_of-point a rest on =
      let small = group.small a on in
      let x : number_of (bytes_of a.0) ≡ some a.0 =
        ap number_of (sym (append-nil (bytes_of a.0))) ∙ number_of-bytes_of a.0 [] small.0 in
      rw (x, number_of-bytes_of a.1 rest small.1) refl

  pub length-hash : (b h : Bytes) → hash c b ≡ some h → length h ≡ 32
  unfolding hash bytetostring_256
  length-hash b h e =
      let s : some (u64_to_byte_256 (words_at (c.sha256 b))) ≡ some h =
        (rw (read_words (c.sha256 b) (group.digest b)) refl) ∙ e in
      cc (s, length-u64_to_byte_256 (words_at (c.sha256 b)))

  pub hash_total : (b : Bytes) → (h : Bytes) × (hash c b ≡ some h)
  unfolding hash bytetostring_256
  hash_total b =
      (u64_to_byte_256 (words_at (c.sha256 b)), rw (read_words (c.sha256 b) (group.digest b)) refl)

  abbrev pub z_of : Bytes → Bytes → Bytes → Bytes
  z_of cin sk s = bytes_of ((num cin * num sk + num s) % c.n)

  pub base_times : (k : Bytes) → length k ≡ 32 → c.scalar_base_mult k ≡ group.times c.g (num k)
  base_times k l = group.base_mult k (num k) (read_number k l)

  pub base-On : (k : Bytes) → length k ≡ 32 → group.On (c.scalar_base_mult k)
  base-On k l = subst group.On (sym (base_times k l)) (group.times-On c.g (num k) group.base)

  pub mult_times :
      (a : Point) (k : Bytes)
      → group.On a
      → length k ≡ 32
      → c.scalar_mult a k ≡ group.times a (num k)
  mult_times a k on l = group.mult a k (num k) on (read_number k l)

  pub z_number :
      (cin sk s : Bytes) → number_of (z_of cin sk s) ≡ some ((num cin * num sk + num s) % c.n)
  z_number cin sk s =
      let z = (num cin * num sk + num s) % c.n in
      ap number_of (sym (append-nil (bytes_of z)))
      ∙ number_of-bytes_of z [] (grind (arith, group.order))

  -- What the verifier computes of a point, its multiple by the key and the response is the commitment.
  pub opens :
      (a : Point) (cin sk s : Bytes)
      → group.On a
      → length cin ≡ 32
      → length sk ≡ 32
      → length s ≡ 32
      → c.scalar_mult (c.scalar_mult a sk) cin ≢ infinity
      → c.add (c.scalar_mult a (z_of cin sk s)) (negate c (c.scalar_mult (c.scalar_mult a sk) cin))
        ≡ c.scalar_mult a s
  opens a cin sk s on lc lk ls ne =
      let key = mult_times a sk on lk in
      let both = mult_times (group.times a (num sk)) cin (group.times-On a (num sk) on) lc in
      let double : c.scalar_mult (c.scalar_mult a sk) cin
          ≡ group.times (group.times a (num sk)) (num cin) =
        ap (λ (t : Point). c.scalar_mult t cin) key ∙ both in
      rw (group.mult a (z_of cin sk s) _ on (z_number cin sk s), double, mult_times a s on ls)
        (response a (num cin) (num sk) (num s) on (λ h. ne (double ∙ h)))

  pub base_is : (k : Bytes) → length k ≡ 32 → c.scalar_base_mult k ≡ c.scalar_mult c.g k
  base_is k l = base_times k l ∙ sym (mult_times c.g k group.base l)

  pub base_opens :
      (cin sk s : Bytes)
      → length cin ≡ 32
      → length sk ≡ 32
      → length s ≡ 32
      → c.scalar_mult (c.scalar_base_mult sk) cin ≢ infinity
      → c.add
          (c.scalar_base_mult (z_of cin sk s))
          (negate c (c.scalar_mult (c.scalar_base_mult sk) cin))
        ≡ c.scalar_base_mult s
  base_opens cin sk s lc lk ls ne =
      rw (base_is (z_of cin sk s) (length-bytes_of _), base_is sk lk, base_is s ls)
        (opens c.g cin sk s group.base lc lk ls
          (λ h. ne (ap (λ (t : Point). c.scalar_mult t cin) (base_is sk lk) ∙ h)))
