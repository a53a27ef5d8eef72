-- ===== src/Threshprf/Prf.antt =====
-- prf_p256.go: Lagrange interpolation in the exponent, and the value of the function from the shares.
use mathlib.Core.Option.{Option, none, some}
use sleepy_hot_stuff.Base.{
  false, All, int_eq, eq_ℤ, ◌∙◌, Option-cases, inl, inr, ℕ, zero, suc, ◌-◌, ◌*◌, ◌%◌, ◌≡◌, refl, ap,
  List, [], ◌∷◌, arith, ltb, ◌==◌, if◌then◌else◌, length, take, Bytes, ℤ, pos, negsuc, ◌-ℤ◌,
}
use sleepy_hot_stuff.Utils.Map
use sleepy_hot_stuff.Utils.Map.{contains, Distinct}
use sleepy_hot_stuff.Utils.Values.{Slice}
use sleepy_hot_stuff.Threshprf.Words.{◌>>=◌, Words, bigint_to_u64_256, u64_to_byte_256}
use sleepy_hot_stuff.Threshprf.Curve.{Curve, Point}
use sleepy_hot_stuff.Threshprf.Share.{slice, Buf, point_bytes, point_of, hash}
use sleepy_hot_stuff.Threshprf.Share.Parts.{slice-within}
use sleepy_hot_stuff.Threshprf.Keys.{store_share, Files, load_share_from_files}

-- What is read from a file, with what lies behind it in the buffer; nil has nothing behind it.
unfoldable pub with_buffer : (Bytes → Bytes) → Slice → Buf
with_buffer read_buffer none = ([], [])
with_buffer read_buffer (some b) = (b, read_buffer b)

stored_shares : (Bytes → Bytes) → Files → List ℤ → List Buf
stored_shares read_buffer f [] = []
stored_shares read_buffer f (id ∷ ids) =
    with_buffer read_buffer (load_share_from_files id f) ∷ stored_shares read_buffer f ids

module _ (c : Curve) (mod_inverse : ℕ → ℕ) where
  -- A product modulo the order; the result of `Mod` is not negative.
  mul_mod : ℕ → ℤ → ℕ
  mul_mod a (pos d) = a * d % c.n
  mul_mod a (negsuc d) = (c.n - a * suc d % c.n) % c.n

  -- The product of the differences of `id` and all entries but that at `i`.
  differences : ℤ → ℕ → ℕ → List ℤ → ℕ → ℕ
  differences id i j [] acc = acc
  differences id i j (x ∷ xs) acc =
      differences id i (suc j) xs (if i == j then acc else mul_mod acc (id -ℤ x))

  coefficients : ℤ → List ℤ → ℕ → List ℤ → List Words
  coefficients id all i [] = []
  coefficients id all i (x ∷ xs) =
      let top = differences id i 0 all 1 in
      let bottom = differences x i 0 all 1 in
      bigint_to_u64_256 (top * mod_inverse bottom % c.n) ∷ coefficients id all (suc i) xs

  -- The weights of the first `k` parties of the list at the point `id`; nil, if they are fewer.
  unfoldable pub compute_lagrangeinter : List ℤ → ℕ → ℤ → List Words
  unfolding mul_mod differences coefficients
  compute_lagrangeinter idarr k id =
      if ltb (length idarr) k then [] else coefficients id (take k idarr) 0 (take k idarr)

  -- The point of a share, times its weight.
  weighted : Buf → Words → Option Point
  weighted (share_all, behind) w = do
    share_x ← slice behind 0 32 share_all
    share_y ← slice behind 32 32 share_all
    g ← point_of share_x share_y
    some (c.scalar_mult g (u64_to_byte_256 w))

  -- The first point is taken as it is, and each later one added to the sum.
  plus : Option Point → Point → Point
  plus none g = g
  plus (some sum) g = c.add g sum

  -- The loop over `k` indices; an index behind the end of a list panics.
  sum_shares : ℕ → List Words → List Buf → Option Point → Option (Option Point)
  sum_shares zero ws shares sum = some sum
  sum_shares (suc k) (w ∷ ws) (s ∷ shares) sum =
      weighted s w >>= λ g. sum_shares k ws shares (some (plus sum g))
  sum_shares (suc k) ws shares sum = none

  or_zero : Option Point → Point
  or_zero none = (0, 0)
  or_zero (some g) = g

  unfoldable pub compute_prf_from_shares : List ℤ → ℕ → List Buf → Option Bytes
  unfolding weighted plus sum_shares or_zero
  compute_prf_from_shares idarr k shares =
      sum_shares k (compute_lagrangeinter idarr k (pos 0)) shares none >>= λ sum.
      hash c (point_bytes (or_zero sum))

  -- The same with the shares that are stored.
  sum_stored :
      (Bytes → Bytes) → Files → ℕ → List Words → List ℤ → Option Point → Option (Option Point)
  sum_stored read_buffer f zero ws ids sum = some sum
  sum_stored read_buffer f (suc k) (w ∷ ws) (id ∷ ids) sum =
      weighted (with_buffer read_buffer (load_share_from_files id f)) w >>= λ g.
      sum_stored read_buffer f k ws ids (some (plus sum g))
  sum_stored read_buffer f (suc k) ws ids sum = none

  unfoldable pub compute_prf : (Bytes → Bytes) → Files → List ℤ → ℕ → Option Bytes
  unfolding weighted plus sum_stored or_zero
  compute_prf read_buffer f idarr k =
      sum_stored read_buffer f k (compute_lagrangeinter idarr k (pos 0)) idarr none >>= λ sum.
      hash c (point_bytes (or_zero sum))

  sum_stored-eq :
      (read_buffer : Bytes → Bytes) (f : Files) (k : ℕ) (ws : List Words) (ids : List ℤ)
      (sum : Option Point)
      → sum_stored read_buffer f k ws ids sum
        ≡ sum_shares k ws (stored_shares read_buffer f ids) sum
  unfolding sum_stored sum_shares stored_shares
  sum_stored-eq read_buffer f zero ws ids sum = refl
  sum_stored-eq read_buffer f (suc k) [] ids sum = refl
  sum_stored-eq read_buffer f (suc k) (w ∷ ws) [] sum = refl
  sum_stored-eq read_buffer f (suc k) (w ∷ ws) (id ∷ ids) sum =
      elim (Option-cases (weighted (with_buffer read_buffer (load_share_from_files id f)) w)) [
        | inl e ↦ rw e refl
        | inr e ↦ rw (e.1) (sum_stored-eq read_buffer f k ws ids _)
      ]

  -- The function read from the stored shares is the function of these shares.
  compute_prf-eq :
      (read_buffer : Bytes → Bytes) (f : Files) (idarr : List ℤ) (k : ℕ)
      → compute_prf read_buffer f idarr k
        ≡ compute_prf_from_shares idarr k (stored_shares read_buffer f idarr)
  unfolding compute_prf compute_prf_from_shares
  compute_prf-eq read_buffer f idarr k =
      rw (sum_stored-eq read_buffer f k (compute_lagrangeinter idarr k (pos 0)) idarr none) refl

-- The parties' shares, stored one after the other.
unfoldable pub store_all : List (ℤ × Buf) → Files → Files
store_all [] f = f
store_all ((id, share) ∷ rest) f = store_all rest (store_share share.0 id f)

abbrev pub ids : List (ℤ × Buf) → List ℤ
ids [] = []
ids ((id, share) ∷ rest) = id ∷ ids rest

abbrev pub shares_of : List (ℤ × Buf) → List Buf
shares_of [] = []
shares_of ((id, share) ∷ rest) = share ∷ shares_of rest

store_share-other :
    (share : Bytes) (id j : ℤ) (f : Files)
    → eq_ℤ id j ≡ false
    → load_share_from_files j (store_share share id f) ≡ load_share_from_files j f
unfolding load_share_from_files store_share
store_share-other share id j f ne = ground (arith, Map.get-insert id j share f.shares)

store_share-same :
    (share : Bytes) (id : ℤ) (f : Files)
    → length share ≡ 128
    → load_share_from_files id (store_share share id f) ≡ some share
unfolding load_share_from_files store_share
store_share-same share id f l = ground (arith, Map.get-insert_self id share f.shares)

store_all-other :
    (entries : List (ℤ × Buf)) (j : ℤ) (f : Files)
    → contains j (ids entries) ≡ false
    → load_share_from_files j (store_all entries f) ≡ load_share_from_files j f
unfolding store_all contains
store_all-other [] j f out = refl
store_all-other ((id, share) ∷ rest) j f out =
    store_all-other rest j (store_share share.0 id f) (ground arith)
    ∙ store_share-other share.0 id j f (ground arith)

-- The contents of the shares, each with what lies behind it in a file's buffer.
from_files : (Bytes → Bytes) → List (ℤ × Buf) → List Buf
from_files read_buffer [] = []
from_files read_buffer ((id, share) ∷ rest) =
    (share.0, read_buffer share.0) ∷ from_files read_buffer rest

stored_shares-store_all :
    (read_buffer : Bytes → Bytes) (entries : List (ℤ × Buf)) (f : Files)
    → Distinct (ids entries)
    → All (λ (x : ℤ × Buf). length x.1.0 ≡ 128) entries
    → stored_shares read_buffer (store_all entries f) (ids entries) ≡ from_files read_buffer entries
unfolding store_all stored_shares with_buffer from_files
stored_shares-store_all read_buffer [] f d l = refl
stored_shares-store_all read_buffer ((id, share) ∷ rest) f d l =
    rw (store_all-other rest id (store_share share.0 id f) d.0, store_share-same share.0 id f l.0)
      (ap (λ (t : List Buf). (share.0, read_buffer share.0) ∷ t)
        (stored_shares-store_all read_buffer rest (store_share share.0 id f) d.1 l.1))

module _ (c : Curve) (mod_inverse : ℕ → ℕ) (read_buffer : Bytes → Bytes) where
  weighted-behind :
      (share : Buf) (w : Words) (behind : Bytes)
      → length share.0 ≡ 128
      → weighted c mod_inverse (share.0, behind) w ≡ weighted c mod_inverse share w
  unfolding weighted
  weighted-behind share w behind l =
      rw
        (
          slice-within behind share.0 0 32 (omega (arith, l)),
          slice-within behind share.0 32 32 (omega (arith, l)),
          slice-within share.1 share.0 0 32 (omega (arith, l)),
          slice-within share.1 share.0 32 32 (omega (arith, l)),
        )
        refl

  sum_shares-behind :
      (entries : List (ℤ × Buf)) (k : ℕ) (ws : List Words) (sum : Option Point)
      → All (λ (x : ℤ × Buf). length x.1.0 ≡ 128) entries
      → sum_shares c mod_inverse k ws (from_files read_buffer entries) sum
        ≡ sum_shares c mod_inverse k ws (shares_of entries) sum
  unfolding sum_shares from_files
  sum_shares-behind entries zero ws sum l = refl
  sum_shares-behind [] (suc k) ws sum l = refl
  sum_shares-behind ((id, share) ∷ rest) (suc k) [] sum l = refl
  sum_shares-behind ((id, share) ∷ rest) (suc k) (w ∷ ws) sum l =
      let e = weighted-behind share w (read_buffer share.0) l.0 in
      elim (Option-cases (weighted c mod_inverse share w)) [
        | inl n ↦ rw (e, n) refl
        | inr s ↦ rw (e, s.1) (sum_shares-behind rest k ws _ l.1)
      ]

  from_shares :
      (entries : List (ℤ × Buf)) (k : ℕ)
      → All (λ (x : ℤ × Buf). length x.1.0 ≡ 128) entries
      → compute_prf_from_shares c mod_inverse (ids entries) k (from_files read_buffer entries)
        ≡ compute_prf_from_shares c mod_inverse (ids entries) k (shares_of entries)
  unfolding compute_prf_from_shares
  from_shares entries k l =
      rw
        (sum_shares-behind entries k (compute_lagrangeinter c mod_inverse (ids entries) k (pos 0))
          none l)
        refl

-- Where shares of 128 bytes are stored for distinct parties, the function that is computed from the
-- files is the one that is computed from the shares, whatever lies behind the shares and the files in
-- their arrays.
pub compute_prf-store_all :
    (c : Curve) (mod_inverse : ℕ → ℕ) (read_buffer : Bytes → Bytes) (f : Files)
    (entries : List (ℤ × Buf)) (k : ℕ)
    → Distinct (ids entries)
    → All (λ (x : ℤ × Buf). length x.1.0 ≡ 128) entries
    → compute_prf c mod_inverse read_buffer (store_all entries f) (ids entries) k
      ≡ compute_prf_from_shares c mod_inverse (ids entries) k (shares_of entries)
compute_prf-store_all c mod_inverse read_buffer f entries k d l =
    compute_prf-eq c mod_inverse read_buffer (store_all entries f) (ids entries) k
    ∙ (ap (compute_prf_from_shares c mod_inverse (ids entries) k)
          (stored_shares-store_all read_buffer entries f d l)
        ∙ from_shares c mod_inverse read_buffer entries k l)
