-- ===== src/Utils/Text.antt =====
-- utils/utils.go: integers as decimal text, `Int64ToString` and `IntToString`, and back, `StringToInt64`
-- and `StringToInt` (`strconv.ParseInt` in base 10).
use sleepy_hot_stuff.Base.{
  ℕ, zero, suc, ◌+◌, ◌-◌, ◌*◌, ◌/◌, ◌%◌, ◌^◌, ◌≤◌, ◌<◌, ◌≡◌, refl, false, ◌&&◌, Option, none, some,
  List, [], ◌∷◌, ◌++◌, arith, ltb, leb, ◌==◌, if◌then◌else◌, Bytes, ℤ, pos, negsuc, ◌≤ℤ◌, max_int,
  min_int, Bool-cases, inl, inr, lt→ltb, ltb→lt, ap, if_rule,
}
use native.Mathlib.Nat.{pow-succ'}

-- The decimal text of a number below 10 ^ fuel.
decimal : ℕ → ℕ → Bytes
decimal zero n = []
decimal (suc fuel) n =
    let front = decimal fuel (n / 10) in
    if ltb n 10 then (b'0' + n) ∷ [] else front ++ (b'0' + n % 10) ∷ []

-- An int64 has at most nineteen digits.
unfoldable pub itoa : ℤ → Bytes
unfolding decimal
itoa (pos n) = decimal 20 n
itoa (negsuc n) = b'-' ∷ decimal 20 (n + 1)

-- One more digit, if it is one.
digit : Option ℕ → ℕ → Option ℕ
digit none x = none
digit (some acc) x = if leb b'0' x && leb x b'9' then some (acc * 10 + (x - b'0')) else none

digits : Option ℕ → Bytes → Option ℕ
unfolding digit
digits acc [] = acc
digits acc (x ∷ xs) = digits (digit acc x) xs

-- A text without digits is an error, and so is a number that does not fit.
number : Bytes → Option ℕ
unfolding digits
number [] = none
number (x ∷ xs) = digits (some 0) (x ∷ xs)

positive : Option ℕ → Option ℤ
positive none = none
positive (some n) = if ltb n (2 ^ 63) then some (pos n) else none

negative : Option ℕ → Option ℤ
negative none = none
negative (some zero) = some (pos 0)
negative (some (suc n)) = if ltb n (2 ^ 63) then some (negsuc n) else none

unfoldable pub atoi : Bytes → Option ℤ
unfolding number positive negative
atoi [] = none
atoi (x ∷ xs) =
    if x == b'-'
    then negative (number xs)
    else (if x == b'+' then positive (number xs) else positive (number (x ∷ xs)))

-- What `ParseInt` returns beside an error: 0 where the text is no number, and the nearest int64 where
-- the number does not fit.
positive_value : Option ℕ → ℤ
positive_value none = pos 0
positive_value (some n) = if ltb n (2 ^ 63) then pos n else max_int

negative_value : Option ℕ → ℤ
negative_value none = pos 0
negative_value (some zero) = pos 0
negative_value (some (suc n)) = if ltb n (2 ^ 63) then negsuc n else min_int

unfoldable pub atoi_value : Bytes → ℤ
unfolding number positive_value negative_value
atoi_value [] = pos 0
atoi_value (x ∷ xs) =
    if x == b'-'
    then negative_value (number xs)
    else (if x == b'+' then positive_value (number xs) else positive_value (number (x ∷ xs)))

-- `strings.Split` by one byte: the text `word` with what comes up to the next such byte, and the rest.
unfoldable pub split : ℕ → Bytes → Bytes → List Bytes
split sep word [] = word ∷ []
split sep word (x ∷ s) = if x == sep then word ∷ split sep [] s else split sep (word ++ x ∷ []) s

digits-snoc :
    (acc : Option ℕ) (xs : Bytes) (x : ℕ) → digits acc (xs ++ x ∷ []) ≡ digit (digits acc xs) x
unfolding digits
digits-snoc acc [] x = refl
digits-snoc acc (y ∷ xs) x = digits-snoc (digit acc y) xs x

digit-digit : (acc d : ℕ) → d < 10 → digit (some acc) (b'0' + d) ≡ some (acc * 10 + d)
unfolding digit
digit-digit acc d h = ground arith

short-decimal : (fuel n : ℕ) → n < 10 → digits (some 0) (decimal (suc fuel) n) ≡ some n
unfolding decimal digits
short-decimal fuel n h = rw (lt→ltb n 10 h, digit-digit 0 n h) (ap some (omega arith))

long-decimal :
    (fuel n : ℕ)
    → ltb n 10 ≡ false
    → digits (some 0) (decimal fuel (n / 10)) ≡ some (n / 10)
    → digits (some 0) (decimal (suc fuel) n) ≡ some n
unfolding decimal
long-decimal fuel n h ih =
    rw
      (
        h,
        digits-snoc (some 0) (decimal fuel (n / 10)) (b'0' + n % 10),
        ih,
        digit-digit (n / 10) (n % 10) (omega arith),
      )
      (ap some (omega arith))

digits-decimal : (fuel n : ℕ) → n < 10 ^ suc fuel → digits (some 0) (decimal (suc fuel) n) ≡ some n
digits-decimal zero n h = short-decimal zero n h
digits-decimal (suc fuel) n h = elim (Bool-cases (ltb n 10)) [
  | inl short ↦ short-decimal (suc fuel) n (ltb→lt n 10 short)
  | inr long ↦
      long-decimal (suc fuel) n long
        (digits-decimal fuel (n / 10) (omega (arith, pow-succ' 10 (suc fuel))))
]

-- A text that starts with a digit, so with no sign.
data Unsigned (bs : Bytes) : Type 0 where
  starts : (d : ℕ) (rest : Bytes) → bs ≡ d ∷ rest → b'0' ≤ d → Unsigned bs

Unsigned-append : (xs ys : Bytes) → Unsigned xs → Unsigned (xs ++ ys)
Unsigned-append xs ys (starts d rest e h) = starts d (rest ++ ys) (rw e refl) h

decimal-Unsigned : (fuel n : ℕ) → Unsigned (decimal (suc fuel) n)
unfolding decimal
decimal-Unsigned zero n =
    if_rule Unsigned (ltb n 10) (λ _. starts (b'0' + n) [] refl (omega arith))
      (λ _. starts (b'0' + n % 10) [] refl (omega arith))
decimal-Unsigned (suc fuel) n =
    if_rule Unsigned (ltb n 10) (λ _. starts (b'0' + n) [] refl (omega arith))
      (λ _. Unsigned-append _ _ (decimal-Unsigned fuel (n / 10)))

atoi-Unsigned : (bs : Bytes) → Unsigned bs → atoi bs ≡ positive (digits (some 0) bs)
unfolding atoi number
atoi-Unsigned bs (starts d rest e h) = rw e (ground (arith, h))

number-Unsigned : (bs : Bytes) → Unsigned bs → number bs ≡ digits (some 0) bs
unfolding number
number-Unsigned bs (starts d rest e h) = rw e refl

positive-fits : (n : ℕ) → n < 2 ^ 63 → positive (some n) ≡ some (pos n)
unfolding positive
positive-fits n h = ground (arith, h)

negative-fits : (n : ℕ) → n < 2 ^ 63 → negative (some (suc n)) ≡ some (negsuc n)
unfolding negative
negative-fits n h = ground (arith, h)

atoi-minus : (bs : Bytes) → atoi (b'-' ∷ bs) ≡ negative (number bs)
unfolding atoi
atoi-minus bs = refl

suc_form : (n : ℕ) → n + 1 ≡ suc n
suc_form n = omega arith

-- Every int64 comes back from its decimal text.
pub atoi-itoa : (n : ℤ) → min_int ≤ℤ n → n ≤ℤ max_int → atoi (itoa n) ≡ some n
unfolding itoa
atoi-itoa (pos n) lo hi =
    rw (atoi-Unsigned (decimal 20 n) (decimal-Unsigned 19 n), digits-decimal 19 n (omega arith))
      (positive-fits n (omega arith))
atoi-itoa (negsuc n) lo hi =
    rw
      (
        atoi-minus (decimal 20 (n + 1)),
        number-Unsigned (decimal 20 (n + 1)) (decimal-Unsigned 19 (n + 1)),
        digits-decimal 19 (n + 1) (omega arith),
      )
      (rw (suc_form n) (negative-fits n (omega arith)))
