-- ===== src/Threshprf/Words.antt =====
-- threshprf/word/ and the conversions of prf_p256.go: 256-bit numbers as four 64-bit words, the lowest
-- first, and as 32 bytes, the highest first. A big integer here is never negative.
use mathlib.Core.Option.{Option, none, some}
use sleepy_hot_stuff.Base.{
  ℕ, zero, suc, ◌+◌, ◌*◌, ◌/◌, ◌%◌, ◌^◌, ◌<◌, ◌≡◌, refl, ap, false, [], ◌∷◌, ◌++◌, arith, ltb,
  if◌then◌else◌, length, length-append, take, drop, Bytes,
}

-- A computation that may panic, or read past the end of a slice.
infixl 5 ◌>>=◌
abbrev pub ◌>>=◌ {ℓ κ} : {A : Type ℓ} {B : Type κ} → Option A → (A → Option B) → Option B
none >>= f = none
some a >>= f = f a

abbrev pub word : ℕ
word = 2 ^ 64

-- `[4]uint64`
pub record Words : Type 0 where
  pub w0 : ℕ
  pub w1 : ℕ
  pub w2 : ℕ
  pub w3 : ℕ

-- The words of `Bits`, filled up with zeros and cut at four.
unfoldable pub bigint_to_u64_256 : ℕ → Words
bigint_to_u64_256 x = record {
  w0 = x % word;
  w1 = x / word % word;
  w2 = x / word / word % word;
  w3 = x / word / word / word % word;
}

unfoldable pub u64_to_bigint_256 : Words → ℕ
u64_to_bigint_256 w = ((w.w3 * word + w.w2) * word + w.w1) * word + w.w0

-- `MOVQ` after `BSWAPQ`: the eight bytes of a word, the highest first.
to_bytes : ℕ → ℕ → Bytes
to_bytes zero a = []
to_bytes (suc k) a = to_bytes k (a / 256) ++ (a % 256) ∷ []

from_bytes : ℕ → Bytes → ℕ
from_bytes acc [] = acc
from_bytes acc (b ∷ bs) = from_bytes (acc * 256 + b) bs

unfoldable pub u64_to_byte_256 : Words → Bytes
unfolding to_bytes
u64_to_byte_256 w = to_bytes 8 w.w3 ++ (to_bytes 8 w.w2 ++ (to_bytes 8 w.w1 ++ to_bytes 8 w.w0))

unfoldable pub words_at : Bytes → Words
unfolding from_bytes
words_at x = record {
  w3 = from_bytes 0 (take 8 x);
  w2 = from_bytes 0 (take 8 (drop 8 x));
  w1 = from_bytes 0 (take 8 (drop 16 x));
  w0 = from_bytes 0 (take 8 (drop 24 x));
}

-- The assembly reads 32 bytes without a test of the length: from fewer, `none`.
unfoldable pub byte_to_u64_256 : Bytes → Option Words
byte_to_u64_256 x = if ltb (length x) 32 then none else some (words_at x)

-- The number that 32 bytes are read as, and the 32 bytes of a number.
unfoldable pub number_of : Bytes → Option ℕ
number_of x = byte_to_u64_256 x >>= λ w. some (u64_to_bigint_256 w)

unfoldable pub bytes_of : ℕ → Bytes
bytes_of x = u64_to_byte_256 (bigint_to_u64_256 x)

length-to_bytes : (k a : ℕ) → length (to_bytes k a) ≡ k
unfolding to_bytes
length-to_bytes zero a = refl
length-to_bytes (suc k) a =
    omega
      (arith, length-append (to_bytes k (a / 256)) ((a % 256) ∷ []), length-to_bytes k (a / 256))

from_bytes-append :
    (acc : ℕ) (xs ys : Bytes) → from_bytes acc (xs ++ ys) ≡ from_bytes (from_bytes acc xs) ys
unfolding from_bytes
from_bytes-append acc [] ys = refl
from_bytes-append acc (x ∷ xs) ys = from_bytes-append (acc * 256 + x) xs ys

-- Eight bytes are read as the word that they are of.
from_bytes-to_bytes : (a : ℕ) → a < word → from_bytes 0 (to_bytes 8 a) ≡ a
unfolding from_bytes to_bytes
from_bytes-to_bytes a h = omega arith

words-bigint : (x : ℕ) → x < 2 ^ 256 → u64_to_bigint_256 (bigint_to_u64_256 x) ≡ x
unfolding u64_to_bigint_256 bigint_to_u64_256
words-bigint x h = omega arith

pub take-front : (xs ys : Bytes) (n : ℕ) → length xs ≡ n → take n (xs ++ ys) ≡ xs
take-front [] ys n h = rw (← h) refl
take-front (x ∷ xs) ys n h =
    rw (← h) (ap (λ (zs : Bytes). x ∷ zs) (take-front xs ys (length xs) refl))

pub drop-front : (xs ys : Bytes) (n : ℕ) → length xs ≡ n → drop n (xs ++ ys) ≡ ys
drop-front [] ys n h = rw (← h) refl
drop-front (x ∷ xs) ys n h = rw (← h) (drop-front xs ys (length xs) refl)

pub length-u64_to_byte_256 : (w : Words) → length (u64_to_byte_256 w) ≡ 32
unfolding u64_to_byte_256 to_bytes
length-u64_to_byte_256 w = refl

abbrev pub IsWords : Words → Type 0
IsWords w = (w.w0 < word) × (w.w1 < word) × (w.w2 < word) × (w.w3 < word)

long_enough : (w : Words) (rest : Bytes) → ltb (length (u64_to_byte_256 w ++ rest)) 32 ≡ false
unfolding u64_to_byte_256 to_bytes
long_enough w rest = ground arith

-- The words come back from their 32 bytes, whatever follows these.
pub byte_to_u64_256-u64_to_byte_256 :
    (w : Words) (rest : Bytes) → IsWords w → byte_to_u64_256 (u64_to_byte_256 w ++ rest) ≡ some w
unfolding byte_to_u64_256 words_at u64_to_byte_256 to_bytes
byte_to_u64_256-u64_to_byte_256 w rest h = rw (long_enough w rest) (λ i. some (record {
  w3 = from_bytes-to_bytes w.w3 h.3 i;
  w2 = from_bytes-to_bytes w.w2 h.2 i;
  w1 = from_bytes-to_bytes w.w1 h.1 i;
  w0 = from_bytes-to_bytes w.w0 h.0 i;
}))

bigint_to_u64_256-IsWords : (x : ℕ) → IsWords (bigint_to_u64_256 x)
unfolding bigint_to_u64_256
bigint_to_u64_256-IsWords x = omega arith

-- A number below 2^256 comes back from its 32 bytes, whatever follows these.
pub number_of-bytes_of :
    (x : ℕ) (rest : Bytes) → x < 2 ^ 256 → number_of (bytes_of x ++ rest) ≡ some x
unfolding number_of bytes_of
number_of-bytes_of x rest h =
    rw (byte_to_u64_256-u64_to_byte_256 (bigint_to_u64_256 x) rest (bigint_to_u64_256-IsWords x))
      (ap some (words-bigint x h))

-- `Bytetostring_256`: the 32 bytes of a hash through words.
unfoldable pub bytetostring_256 : Bytes → Option Bytes
bytetostring_256 a = byte_to_u64_256 a >>= λ w. some (u64_to_byte_256 w)
