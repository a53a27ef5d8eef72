-- ===== src/Quorum/Voters.antt =====
-- What two certificates of a quorum have in common: a voter outside the faulty replicas.
use mathlib.Core.Path.{subst}
use sleepy_hot_stuff.Base.{
  ℕ, ◌≤◌, ◌≡◌, true, false, List, [], ◌∷◌, arith, Bool-cases, inl, inr, length, All, ℤ, eq_ℤ,
  eq_ℤ_iff, int_eq,
}
use sleepy_hot_stuff.Utils.Map.{contains, Distinct}
use sleepy_hot_stuff.Utils.Values.{Slice}
use sleepy_hot_stuff.Quorum.Sizes.{faults, quorum_of}
use sleepy_hot_stuff.Quorum.Intersection.{
  IsReplica, common, common-Distinct, outside, quorums_intersect,
}
use sleepy_hot_stuff.Quorum.Buffer.Certified.{Vouched, Vouched-length}

-- The replica stands in the certificate, with a signature of which `R` holds.
abbrev pub Stands : (ℤ → Slice → Type 0) → ℤ → Type 0
Stands R id = (sig : Slice) × R id sig

All-Stands :
    (R : ℤ → Slice → Type 0) (ids : List ℤ) (sigs : List Slice)
    → Vouched R ids sigs
    → All (Stands R) ids
All-Stands R [] sigs v = tt
All-Stands R (id ∷ ids) [] v = absurd v
All-Stands R (id ∷ ids) (sig ∷ sigs) v = ((sig, v.0), All-Stands R ids sigs v.1)

All-contains : (P : ℤ → Type 0) (k : ℤ) (xs : List ℤ) → contains k xs ≡ true → All P xs → P k
unfolding contains
All-contains P k [] c h = absurd (ground arith)
All-contains P k (x ∷ xs) c h = elim (Bool-cases (eq_ℤ x k)) [
  | inl e ↦ subst P ((eq_ℤ_iff x k).0 e) h.0
  | inr e ↦ All-contains P k xs (ground arith) h.1
]

common-All-left : (P : ℤ → Type 0) (xs ys : List ℤ) → All P xs → All P (common xs ys)
unfolding common
common-All-left P [] ys h = tt
common-All-left P (x ∷ xs) ys h = elim (Bool-cases (contains x ys)) [
  | inl e ↦ rw e (h.0, common-All-left P xs ys h.1)
  | inr e ↦ rw e (common-All-left P xs ys h.1)
]

common-All-right : (P : ℤ → Type 0) (xs ys : List ℤ) → All P ys → All P (common xs ys)
unfolding common
common-All-right P [] ys h = tt
common-All-right P (x ∷ xs) ys h = elim (Bool-cases (contains x ys)) [
  | inl e ↦ rw e (All-contains P x ys e h, common-All-right P xs ys h)
  | inr e ↦ rw e (common-All-right P xs ys h)
]

All-map : (P Q : ℤ → Type 0) (xs : List ℤ) → ((k : ℤ) → P k → Q k) → All P xs → All Q xs
All-map P Q [] f h = tt
All-map P Q (x ∷ xs) f h = (f x h.0, All-map P Q xs f h.1)

-- A certificate: a quorum of distinct replicas, with a signature each of which `R` holds.
pub record Quorum (R : ℤ → Slice → Type 0) (num : ℕ) (ids : List ℤ) (sigs : List Slice)
    : Type 0 where
  pub enough : quorum_of num ≤ length sigs
  pub distinct : Distinct ids
  pub vouched : Vouched R ids sigs
  pub members : (id : ℤ) (sig : Slice) → R id sig → IsReplica num id

-- A voter of two certificates that is not faulty.
pub record Common (R S : ℤ → Slice → Type 0) (faulty : List ℤ) : Type 0 where
  pub id : ℤ
  pub correct : contains id faulty ≡ false
  pub first : Stands R id
  pub second : Stands S id

module _ (R S : ℤ → Slice → Type 0) (num : ℕ) (faulty ids ids' : List ℤ) (sigs sigs' : List Slice)
    (x : Quorum R num ids sigs) (y : Quorum S num ids' sigs') where
  every_member :
      (T : ℤ → Slice → Type 0) (xs : List ℤ) (ss : List Slice)
      → Quorum T num xs ss
      → All (IsReplica num) xs
  every_member T xs ss z =
      All-map (Stands T) (IsReplica num) xs (λ id s. z.members id s.0 s.1)
        (All-Stands T xs ss z.vouched)

  length-ids :
      (T : ℤ → Slice → Type 0) (xs : List ℤ) (ss : List Slice)
      → Quorum T num xs ss
      → quorum_of num ≤ length xs
  length-ids T xs ss z = omega (arith, z.enough, Vouched-length T xs ss z.vouched)

  -- Two certificates have a voter in common that is not among the faulty ones, if these are at
  -- most as many as are tolerated.
  pub Quorum-Common : 1 ≤ num → length faulty ≤ faults num → Common R S faulty
  Quorum-Common n few =
      let many =
        quorums_intersect num ids ids' n x.distinct y.distinct (every_member R ids sigs x)
          (every_member S ids' sigs' y) (length-ids R ids sigs x) (length-ids S ids' sigs' y) in
      let (id, there, out) =
        outside (common ids ids') faulty (common-Distinct ids ids' x.distinct)
          (omega (arith, few, many)) in
      record {
        id = id;
        correct = out;
        first =
            All-contains (Stands R) id (common ids ids') there
              (common-All-left (Stands R) ids ids' (All-Stands R ids sigs x.vouched));
        second =
            All-contains (Stands S) id (common ids ids') there
              (common-All-right (Stands S) ids ids' (All-Stands S ids' sigs' y.vouched));
      }
