-- ===== src/Threshprf/Share/Parts.antt =====
-- The parts of a share, and what is read out of 32 bytes.
use mathlib.Core.Option.{some}
use mathlib.Core.List.{append-nil, append_assoc}
use sleepy_hot_stuff.Base.{
  ℕ, zero, suc, take, drop, ◌+◌, ◌≤◌, ◌≡◌, refl, sym, ap, ◌∙◌, false, [], ◌∷◌, ◌++◌, arith, ltb,
  length, length-append, Bytes,
}
use sleepy_hot_stuff.Threshprf.Words.{
  words_at, byte_to_u64_256, u64_to_bigint_256, number_of, bytes_of, length-u64_to_byte_256,
  take-front, drop-front,
}
use sleepy_hot_stuff.Threshprf.Share.{slice, is_empty}

pub length-bytes_of : (x : ℕ) → length (bytes_of x) ≡ 32
unfolding bytes_of
length-bytes_of x = length-u64_to_byte_256 _

-- 32 bytes are read.
pub read_words : (b : Bytes) → length b ≡ 32 → byte_to_u64_256 b ≡ some (words_at b)
unfolding byte_to_u64_256
read_words b h = rw h refl

pub read_number : (b : Bytes) → length b ≡ 32 → number_of b ≡ some (u64_to_bigint_256 (words_at b))
unfolding number_of
read_number b h = rw (read_words b h) refl

-- A part of an append.
pub short :
    (xs ys zs : Bytes) (from len : ℕ)
    → length xs ≡ from
    → length ys ≡ len
    → ltb (length (xs ++ (ys ++ zs))) (from + len) ≡ false
short xs ys zs from len h k = ground (arith, length-append xs (ys ++ zs), length-append ys zs)

pub slice-middle :
    (behind xs ys zs : Bytes) (from len : ℕ)
    → length xs ≡ from
    → length ys ≡ len
    → slice behind from len (xs ++ (ys ++ zs)) ≡ some ys
unfolding slice
slice-middle behind xs ys zs from len h k =
    rw
      (
        append_assoc xs (ys ++ zs) behind,
        append_assoc ys zs behind,
        drop-front xs (ys ++ (zs ++ behind)) from h,
        take-front ys (zs ++ behind) len k,
        short xs ys (zs ++ behind) from len h k,
      )
      refl

-- What lies behind a slice does not matter for a part within it.
take-front_part : (xs ys : Bytes) (n : ℕ) → n ≤ length xs → take n (xs ++ ys) ≡ take n xs
take-front_part xs ys zero h = refl
take-front_part [] ys (suc n) h = absurd (omega (arith, h))
take-front_part (x ∷ xs) ys (suc n) h =
    ap (λ (zs : Bytes). x ∷ zs) (take-front_part xs ys n (omega (arith, h)))

part_within :
    (xs ys : Bytes) (from len : ℕ)
    → from + len ≤ length xs
    → take len (drop from (xs ++ ys)) ≡ take len (drop from xs)
part_within xs ys zero len h = take-front_part xs ys len (omega (arith, h))
part_within [] ys (suc from) len h = absurd (omega (arith, h))
part_within (x ∷ xs) ys (suc from) len h = part_within xs ys from len (omega (arith, h))

pub slice-within :
    (behind b : Bytes) (from len : ℕ)
    → from + len ≤ length b
    → slice behind from len b ≡ some (take len (drop from b))
unfolding slice
slice-within behind b from len h =
    let long : ltb (length (b ++ behind)) (from + len) ≡ false =
      ground (arith, length-append b behind, h) in
    rw (long, part_within b behind from len h) refl

-- The parts of a share: two coordinates, the challenge and the response.
module _ (behind a b k z : Bytes) (la : length a ≡ 32) (lb : length b ≡ 32) (lk : length k ≡ 32)
    (lz : length z ≡ 32) where
  abbrev pub share : Bytes
  share = (a ++ b) ++ (k ++ z)

  pub front-length : length (a ++ b) ≡ 64
  front-length = omega (arith, length-append a b, la, lb)

  pub challenge_part : slice behind 64 32 share ≡ some k
  challenge_part = slice-middle behind (a ++ b) k z 64 32 front-length lk

  pub response_part : slice behind 96 32 share ≡ some z
  response_part =
      ap (slice behind 96 32) (
        sym (append_assoc (a ++ b) k z)
        ∙ ap (λ (t : Bytes). ((a ++ b) ++ k) ++ t) (sym (append-nil z)))
      ∙ slice-middle behind ((a ++ b) ++ k) z [] 96 32
          (omega (arith, length-append (a ++ b) k, front-length, lk)) lz

  pub front_part : slice behind 0 64 share ≡ some (a ++ b)
  front_part = slice-middle behind [] (a ++ b) (k ++ z) 0 64 refl front-length

  pub x_part : slice behind 0 32 share ≡ some a
  x_part =
      ap (slice behind 0 32) (append_assoc a b (k ++ z))
      ∙ slice-middle behind [] a (b ++ (k ++ z)) 0 32 refl la

  pub y_part : slice behind 32 32 share ≡ some b
  y_part =
      ap (slice behind 32 32) (append_assoc a b (k ++ z))
      ∙ slice-middle behind a b (k ++ z) 32 32 la lb

pub not_empty : (b : Bytes) → 1 ≤ length b → is_empty b ≡ false
unfolding is_empty
not_empty [] h = absurd (omega (arith, h))
not_empty (x ∷ b) h = refl

-- The number that 32 bytes are read as.
abbrev pub num : Bytes → ℕ
num b = u64_to_bigint_256 (words_at b)
