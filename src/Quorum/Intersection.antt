-- ===== src/Quorum/Intersection.antt =====
-- What the quorum sizes are for: two sets of replicas of that size have a correct one in common.
use sleepy_hot_stuff.Base.{
  ℕ, zero, suc, ◌+◌, ◌≤◌, ◌<◌, ◌≡◌, refl, true, false, List, [], ◌∷◌, ◌++◌, arith, if◌then◌else◌,
  Bool-cases, inl, inr, length, length-append, All, All-append, ℤ, pos, eq_ℤ, eq_ℤ_iff, int_eq,
  ◌≤ℤ◌, ◌<ℤ◌,
}
use mathlib.Core.Path.{subst}
use sleepy_hot_stuff.Utils.Map.{contains, Distinct, contains-append}
use sleepy_hot_stuff.Quorum.Sizes.{faults, quorum_of, quorum_of_tight}

-- The ids of `n` replicas are 0 to n - 1.
abbrev pub IsReplica : ℕ → ℤ → Type 0
IsReplica n id = (pos 0 ≤ℤ id) × (id <ℤ pos n)

without : ℤ → List ℤ → List ℤ
without k [] = []
without k (x ∷ xs) = if eq_ℤ x k then xs else x ∷ without k xs

contains-without :
    (k j : ℤ) (xs : List ℤ) → contains j xs ≡ false → contains j (without k xs) ≡ false
unfolding without contains
contains-without k j [] h = refl
contains-without k j (x ∷ xs) h = ground (arith, contains-without k j xs)

without-Distinct : (k : ℤ) (xs : List ℤ) → Distinct xs → Distinct (without k xs)
unfolding without
without-Distinct k [] d = tt
without-Distinct k (x ∷ xs) d = ground (arith, without-Distinct k xs, contains-without k x xs)

length-without : (k : ℤ) (xs : List ℤ) → length xs ≤ suc (length (without k xs))
unfolding without
length-without k [] = omega arith
length-without k (x ∷ xs) = ground (arith, length-without k xs)

lower-IsReplica : (n : ℕ) (x : ℤ) → eq_ℤ x (pos n) ≡ false → IsReplica (suc n) x → IsReplica n x
lower-IsReplica n x ne h = ground arith

lower-All :
    (n : ℕ) (xs : List ℤ)
    → contains (pos n) xs ≡ false
    → All (IsReplica (suc n)) xs
    → All (IsReplica n) xs
unfolding contains
lower-All n [] c h = tt
lower-All n (x ∷ xs) c h =
    (lower-IsReplica n x (ground arith) h.0, lower-All n xs (ground arith) h.1)

without-IsReplica :
    (n : ℕ) (xs : List ℤ)
    → Distinct xs
    → All (IsReplica (suc n)) xs
    → All (IsReplica n) (without (pos n) xs)
unfolding without
without-IsReplica n [] d h = tt
without-IsReplica n (x ∷ xs) d h = elim (Bool-cases (eq_ℤ x (pos n))) [
  | inl e ↦
      rw e (lower-All n xs (subst (λ k. contains k xs ≡ false) ((eq_ℤ_iff x (pos n)).0 e) d.0) h.1)
  | inr e ↦ rw e (lower-IsReplica n x e h.0, without-IsReplica n xs d.1 h.1)
]

-- Distinct replicas are at most as many as there are.
pub length-le-replicas : (n : ℕ) (xs : List ℤ) → Distinct xs → All (IsReplica n) xs → length xs ≤ n
length-le-replicas zero [] d h = omega arith
length-le-replicas zero (x ∷ xs) d h = absurd (omega arith)
length-le-replicas (suc n) xs d h = omega (
  arith,
  length-le-replicas n (without (pos n) xs) (without-Distinct (pos n) xs d)
      (without-IsReplica n xs d h),
  length-without (pos n) xs,
)

-- Taking `x` out shortens a list that holds it, and takes out nothing else.
length-without_member :
    (x : ℤ) (ys : List ℤ) → contains x ys ≡ true → length (without x ys) < length ys
unfolding without contains
length-without_member x [] h = absurd (ground arith)
length-without_member x (y ∷ ys) h = ground (arith, length-without_member x ys)

contains-without_other :
    (x k : ℤ) (ys : List ℤ)
    → eq_ℤ x k ≡ false
    → contains k (without x ys) ≡ false
    → contains k ys ≡ false
unfolding without contains
contains-without_other x k [] ne h = refl
contains-without_other x k (y ∷ ys) ne h =
    ground (arith, contains-without_other x k ys, eq_ℤ_iff y x, eq_ℤ_iff y k, eq_ℤ_iff x k)

differs : (x k : ℤ) (xs : List ℤ) → contains x xs ≡ false → contains k xs ≡ true → eq_ℤ x k ≡ false
differs x k xs h g = ground (arith, eq_ℤ_iff x k)

-- A list of distinct ids has one outside every shorter list.
pub outside :
    (xs ys : List ℤ)
    → Distinct xs
    → length ys < length xs
    → (k : ℤ) × (contains k xs ≡ true) × (contains k ys ≡ false)
unfolding contains
outside [] ys d h = absurd (omega arith)
outside (x ∷ xs) ys d h = elim (Bool-cases (contains x ys)) [
  | inr e ↦ (x, ground (arith, eq_ℤ_iff x x), e)
  | inl e ↦
      let (k, there, out) =
        outside xs (without x ys) d.1 (omega (arith, h, length-without_member x ys e)) in
      (k, ground (arith, there), contains-without_other x k ys (differs x k xs d.0 there) out)
]

-- Those of `xs` that are in `ys`, and those that are not.
unfoldable pub common : List ℤ → List ℤ → List ℤ
common [] ys = []
common (x ∷ xs) ys = let rest = common xs ys in if contains x ys then x ∷ rest else rest

rest_of : List ℤ → List ℤ → List ℤ
rest_of [] ys = []
rest_of (x ∷ xs) ys = let rest = rest_of xs ys in if contains x ys then rest else x ∷ rest

length-common : (xs ys : List ℤ) → length xs ≡ length (common xs ys) + length (rest_of xs ys)
unfolding common rest_of
length-common [] ys = refl
length-common (x ∷ xs) ys = ground (arith, length-common xs ys)

contains-rest_of :
    (k : ℤ) (xs ys : List ℤ) → contains k xs ≡ false → contains k (rest_of xs ys) ≡ false
unfolding rest_of contains
contains-rest_of k [] ys h = refl
contains-rest_of k (x ∷ xs) ys h = ground (arith, contains-rest_of k xs ys)

union-Distinct : (xs ys : List ℤ) → Distinct xs → Distinct ys → Distinct (rest_of xs ys ++ ys)
unfolding rest_of
union-Distinct [] ys dx dy = dy
union-Distinct (x ∷ xs) ys dx dy =
    ground
      (arith, union-Distinct xs ys, contains-rest_of x xs ys, contains-append x (rest_of xs ys) ys)

rest_of-All : (P : ℤ → Type 0) (xs ys : List ℤ) → All P xs → All P (rest_of xs ys)
unfolding rest_of
rest_of-All P [] ys h = tt
rest_of-All P (x ∷ xs) ys h = elim (Bool-cases (contains x ys)) [
  | inl e ↦ rw e (rest_of-All P xs ys h.1)
  | inr e ↦ rw e (h.0, rest_of-All P xs ys h.1)
]

contains-common :
    (k : ℤ) (xs ys : List ℤ) → contains k xs ≡ false → contains k (common xs ys) ≡ false
unfolding common contains
contains-common k [] ys h = refl
contains-common k (x ∷ xs) ys h = ground (arith, contains-common k xs ys)

pub common-Distinct : (xs ys : List ℤ) → Distinct xs → Distinct (common xs ys)
unfolding common
common-Distinct [] ys d = tt
common-Distinct (x ∷ xs) ys d = ground (arith, common-Distinct xs ys, contains-common x xs ys)

pub length-common-le :
    (n : ℕ) (xs ys : List ℤ)
    → Distinct xs
    → Distinct ys
    → All (IsReplica n) xs
    → All (IsReplica n) ys
    → length xs + length ys ≤ n + length (common xs ys)
length-common-le n xs ys dx dy hx hy = omega (
  arith,
  length-common xs ys,
  length-append (rest_of xs ys) ys,
  length-le-replicas n (rest_of xs ys ++ ys) (union-Distinct xs ys dx dy)
      (All-append (IsReplica n) (rest_of xs ys) ys (rest_of-All (IsReplica n) xs ys hx) hy),
)

-- Among one replica or more, two quorums of `StartQuorum`, as lists of distinct replicas, have more
-- replicas in common than may be faulty.
pub quorums_intersect :
    (num : ℕ) (xs ys : List ℤ)
    → 1 ≤ num
    → Distinct xs
    → Distinct ys
    → All (IsReplica num) xs
    → All (IsReplica num) ys
    → quorum_of num ≤ length xs
    → quorum_of num ≤ length ys
    → faults num < length (common xs ys)
quorums_intersect num xs ys h dx dy hx hy qx qy =
    omega (arith, length-common-le num xs ys dx dy hx hy, (quorum_of_tight num h).0)
