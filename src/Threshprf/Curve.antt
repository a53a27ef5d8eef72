-- ===== src/Threshprf/Curve.antt =====
-- crypto/elliptic's P-256 and crypto/sha256, which are not of the repository: the operations that
-- prf_p256.go calls, and the documented behaviour of them that theorems assume. The coordinates that the
-- curve returns are reduced, so that `P - y` does not fall below zero.
use sleepy_hot_stuff.Base.{ℕ, ◌+◌, ◌-◌, ◌*◌, ◌%◌, ◌^◌, ◌≤◌, ◌<◌, ◌≡◌, ◌≢◌, some, length, Bytes}
use sleepy_hot_stuff.Threshprf.Words.{number_of}

abbrev pub Point : Type 0
Point = ℕ × ℕ

pub record Curve : Type 0 where
  -- `Params().P`, `N`, `Gx` and `Gy`
  pub p : ℕ
  pub n : ℕ
  pub g : Point
  -- A scalar is 32 bytes, the highest first.
  pub scalar_base_mult : Bytes → Point
  pub scalar_mult : Point → Bytes → Point
  pub add : Point → Point → Point
  pub sha256 : Bytes → Bytes

-- The other point of the same abscissa.
abbrev pub negate : Curve → Point → Point
negate c (x, y) = (x, c.p - y)

-- The point at infinity is returned as (0, 0), of which `negate` is no point.
abbrev pub infinity : Point
infinity = (0, 0)

-- The points of the curve form a group of order `n`, in which scalars act by the numbers that they are
-- read as.
pub record IsGroup (c : Curve) : Type 1 where
  pub On : Point → Type 0
  -- The multiple of a point.
  pub times : Point → ℕ → Point
  pub base : On c.g
  pub times-On : (a : Point) (k : ℕ) → On a → On (times a k)
  pub small : (a : Point) → On a → (a.0 < 2 ^ 256) × (a.1 < 2 ^ 256)
  pub order : (0 < c.n) × (c.n ≤ 2 ^ 256)
  pub mult :
      (a : Point) (k : Bytes) (m : ℕ) → On a → number_of k ≡ some m → c.scalar_mult a k ≡ times a m
  pub base_mult : (k : Bytes) (m : ℕ) → number_of k ≡ some m → c.scalar_base_mult k ≡ times c.g m
  pub cyclic : (a : Point) (m : ℕ) → On a → times a (m % c.n) ≡ times a m
  pub times-times : (a : Point) (m k : ℕ) → On a → times (times a m) k ≡ times a (k * m)
  pub times-add : (a : Point) (m k : ℕ) → On a → times a (m + k) ≡ c.add (times a k) (times a m)
  pub cancel : (a b : Point) → On a → On b → b ≢ infinity → c.add (c.add a b) (negate c b) ≡ a
  pub digest : (b : Bytes) → length (c.sha256 b) ≡ 32
