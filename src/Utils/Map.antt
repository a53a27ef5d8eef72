-- ===== src/Utils/Map.antt =====
-- Go's built-in `map[K]V`, which the containers of utils/map.go and utils/set.go wrap, as an
-- association list. The order of the list stands for no order of Go's: nothing reads it.
use sleepy_hot_stuff.Base.{
  ◌≡◌, refl, inl, inr, Bool, true, false, ◌||◌, Option, none, some, List, [], ◌∷◌, ◌++◌, arith,
  if◌then◌else◌, Bool-cases, Eq, length, suc, ap,
}

abbrev pub Map {ℓ κ} : Type ℓ → Type κ → Type (ℓ ⊔ κ)
Map K V = List (K × V)

module _ {ℓ κ} {K : Type ℓ} {V : Type κ} where
  abbrev pub keys : Map K V → List K
  keys [] = []
  keys ((j, v) ∷ m) = j ∷ keys m

module _ {ℓ} {K : Type ℓ} ⦃e : Eq K⦄ where
  -- `k` is in the list.
  unfoldable pub contains : K → List K → Bool
  contains k [] = false
  contains k (x ∷ xs) = e.beq x k || contains k xs

  abbrev pub Distinct : List K → Type 0
  Distinct [] = Unit
  Distinct (x ∷ xs) = (contains x xs ≡ false) × Distinct xs

  -- The list without `k`.
  unfoldable pub without : K → List K → List K
  without k [] = []
  without k (x ∷ xs) = let rest = without k xs in if e.beq x k then rest else x ∷ rest

  pub contains-append :
      (k : K) (xs ys : List K) → contains k (xs ++ ys) ≡ (contains k xs || contains k ys)
  unfolding contains
  contains-append k [] ys = refl
  contains-append k (x ∷ xs) ys = ground (arith, contains-append k xs ys)

  -- A new entry at the end keeps the entries distinct.
  pub Distinct-snoc :
      (k : K) (xs : List K) → contains k xs ≡ false → Distinct xs → Distinct (xs ++ k ∷ [])
  unfolding contains
  Distinct-snoc k [] h d = ground arith
  Distinct-snoc k (x ∷ xs) h d =
      ground
        (arith, Distinct-snoc k xs, contains-append x xs (k ∷ []), e.beq_iff x k, e.beq_iff k x)

module _ {ℓ κ} {K : Type ℓ} {V : Type κ} ⦃e : Eq K⦄ where
  -- `v, exist := m[k]`
  unfoldable pub get : K → Map K V → Option V
  get k [] = none
  get k ((j, v) ∷ m) = if e.beq j k then some v else get k m

  -- `m[k] = v`
  unfoldable pub insert : K → V → Map K V → Map K V
  insert k v [] = (k, v) ∷ []
  insert k v ((j, w) ∷ m) = if e.beq j k then (j, v) ∷ m else (j, w) ∷ insert k v m

  -- `delete(m, k)`
  unfoldable pub delete : K → Map K V → Map K V
  delete k [] = []
  delete k ((j, w) ∷ m) = if e.beq j k then delete k m else (j, w) ∷ delete k m

  pub get-insert :
      (k j : K) (v : V) (m : Map K V)
      → get j (insert k v m) ≡ (if e.beq k j then some v else get j m)
  unfolding get insert
  get-insert k j v [] = refl
  get-insert k j v ((i, w) ∷ m) =
      ground (arith, get-insert k j v m, e.beq_iff i k, e.beq_iff i j, e.beq_iff k j)

  -- A second insertion at a key replaces the first.
  pub insert-insert : (k : K) (v w : V) (m : Map K V) → insert k v (insert k w m) ≡ insert k v m
  unfolding insert
  insert-insert k v w [] = ground (arith, e.beq_iff k k)
  insert-insert k v w ((i, u) ∷ m) = ground (arith, insert-insert k v w m)

  pub get-insert_self : (k : K) (v : V) (m : Map K V) → get k (insert k v m) ≡ some v
  get-insert_self k v m = ground (arith, get-insert k k v m, e.beq_iff k k)

  pub get-delete :
      (k j : K) (m : Map K V) → get j (delete k m) ≡ (if e.beq k j then none else get j m)
  unfolding get delete
  get-delete k j [] = ground arith
  get-delete k j ((i, w) ∷ m) =
      ground (arith, get-delete k j m, e.beq_iff i k, e.beq_iff i j, e.beq_iff k j)

  -- A key that was there keeps its place, and a new one goes to the end.
  pub keys-insert :
      (k : K) (v : V) (m : Map K V)
      → keys (insert k v m) ≡ (if contains k (keys m) then keys m else keys m ++ k ∷ [])
  unfolding insert contains
  keys-insert k v [] = refl
  keys-insert k v ((i, w) ∷ m) = ground (arith, keys-insert k v m)

  pub insert-Distinct :
      (k : K) (v : V) (m : Map K V) → Distinct (keys m) → Distinct (keys (insert k v m))
  insert-Distinct k v m d = elim (Bool-cases (contains k (keys m))) [
    | inl old ↦ rw (keys-insert k v m, old) d
    | inr new ↦ rw (keys-insert k v m, new) (Distinct-snoc k (keys m) new d)
  ]

  -- A key is among the keys exactly when a lookup finds it.
  pub contains-keys :
      (k : K) (m : Map K V) → contains k (keys m) ≡ elim (get k m) [ none ↦ false | some v ↦ true ]
  unfolding get contains
  contains-keys k [] = refl
  contains-keys k ((i, w) ∷ m) = ground (arith, contains-keys k m)

  pub keys-delete : (k : K) (m : Map K V) → keys (delete k m) ≡ without k (keys m)
  unfolding delete without
  keys-delete k [] = refl
  keys-delete k ((i, w) ∷ m) = ground (arith, keys-delete k m)

  pub length-keys : (m : Map K V) → length (keys m) ≡ length m
  length-keys [] = refl
  length-keys ((i, w) ∷ m) = ap suc (length-keys m)
