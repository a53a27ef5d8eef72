-- ===== src/Utils/Values.antt =====
-- utils/utils.go: the guarded values and the conversions. A mutex guards each single call, so a call
-- is one step here. `[]byte` is `Slice`: `none` is nil, which the code tells from an empty slice.
use sleepy_hot_stuff.Base.{
  ℕ, ◌+◌, ◌-◌, ◌*◌, ◌/◌, ◌%◌, ◌^◌, ◌<◌, ◌≡◌, Option, none, some, [], ◌∷◌, arith, ltb, if◌then◌else◌,
  Bytes, ℤ, pos, negsuc, ◌≤ℤ◌, max_int, min_int, add_int, sub_int,
}

abbrev pub Slice : Type 0
Slice = Option Bytes

pub data_of : Slice → Bytes
data_of none = []
data_of (some bs) = bs

-- `BytesToString`, which also is what an `append` or a `Join` reads of a slice.
unfoldable pub bytes_to_string : Slice → Bytes
unfolding data_of
bytes_to_string input = data_of input

unfoldable pub string_to_bytes : Bytes → Slice
string_to_bytes input = some input

pub record IntValue : Type 0 where
  pub m : ℤ

unfoldable pub increment : IntValue → IntValue
increment s = record s { m = add_int s.m (pos 1) }

unfoldable pub decrement : IntValue → IntValue
decrement s = record s { m = sub_int s.m (pos 1) }

-- The 64-bit pattern of an `int`.
abbrev pattern64 : ℤ → ℕ
pattern64 (pos n) = n
pattern64 (negsuc n) = 2 ^ 64 - n - 1

-- The `int64` that a pattern stands for.
abbrev value64 : ℕ → ℤ
value64 w = if ltb w (2 ^ 63) then pos w else negsuc (2 ^ 64 - w - 1)

-- `binary.Write` of an int64, big endian.
abbrev big_endian : ℕ → Bytes
big_endian w =
    (w / 2 ^ 56 % 256)
    ∷ (w / 2 ^ 48 % 256)
    ∷ (w / 2 ^ 40 % 256)
    ∷ (w / 2 ^ 32 % 256)
    ∷ (w / 2 ^ 24 % 256)
    ∷ (w / 2 ^ 16 % 256)
    ∷ (w / 2 ^ 8 % 256)
    ∷ (w % 256)
    ∷ []

unfoldable pub int_to_bytes : ℤ → Slice
int_to_bytes n = some (big_endian (pattern64 n))

-- `binary.Read` wants eight bytes; from fewer it reads nothing, its error is dropped, and `data`
-- stays 0.
read_int : Bytes → ℤ
read_int (a ∷ b ∷ c ∷ d ∷ e ∷ f ∷ g ∷ h ∷ rest) =
    value64
      (a * 2 ^ 56 + b * 2 ^ 48 + c * 2 ^ 40 + d * 2 ^ 32 + e * 2 ^ 24 + f * 2 ^ 16 + g * 2 ^ 8 + h)
read_int short = pos 0

unfoldable pub bytes_to_int : Slice → ℤ
unfolding read_int data_of
bytes_to_int bys = read_int (data_of bys)

pattern64-read : (w : ℕ) → w < 2 ^ 64 → read_int (big_endian w) ≡ value64 w
unfolding read_int
pattern64-read w h = ground arith

-- Every `int` comes back from its eight bytes.
pub bytes_to_int-int_to_bytes :
    (n : ℤ) → min_int ≤ℤ n → n ≤ℤ max_int → bytes_to_int (int_to_bytes n) ≡ n
unfolding bytes_to_int int_to_bytes
bytes_to_int-int_to_bytes (pos n) lo hi = ground (arith, pattern64-read n)
bytes_to_int-int_to_bytes (negsuc n) lo hi = ground (arith, pattern64-read (2 ^ 64 - n - 1))
