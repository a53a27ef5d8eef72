-- ===== src/Quorum/Buffer/Certified.antt =====
-- The certificate of a hash lists exactly the replicas that voted for it, once each, beside the
-- signatures that they sent.
use mathlib.Core.Path.{subst}
use sleepy_hot_stuff.Base.{
  ◌≤◌, ◌≡◌, refl, sym, ap, ◌∙◌, Bool, true, Option, none, some, List, [], ◌∷◌, ◌++◌, arith, ◌==◌,
  if◌then◌else◌, Bool-cases, inl, inr, length, Bytes, string_eq, bytes_eq, bytes_eq_iff, ℤ, int_eq,
}
use sleepy_hot_stuff.Utils.Map
use sleepy_hot_stuff.Utils.Map.{Map, contains, Distinct, keys, Distinct-snoc}
use sleepy_hot_stuff.Utils.Values.{Slice}
use sleepy_hot_stuff.Utils.Sets.{
  Set, new_set, add_item, has_item, set_list, len, len-add_item, set_list-add_item,
  add_item-Distinct,
}
use sleepy_hot_stuff.Quorum.Buffer.{
  Buffer, Certificate, or_nil, sigs_of, ids_of, cer_insert, insert_value, target, old_len, votes_in,
  votes, get_len, fetch_signatures, signatures,
}

-- Identities and signatures pair up, and each pair satisfies `P`.
abbrev pub Vouched : (ℤ → Slice → Type 0) → List ℤ → List Slice → Type 0
Vouched P [] [] = Unit
Vouched P [] (sig ∷ sigs) = ⊥
Vouched P (id ∷ ids) [] = ⊥
Vouched P (id ∷ ids) (sig ∷ sigs) = P id sig × Vouched P ids sigs

Vouched-snoc :
    (P : ℤ → Slice → Type 0) (id : ℤ) (sig : Slice) (ids : List ℤ) (sigs : List Slice)
    → P id sig
    → Vouched P ids sigs
    → Vouched P (ids ++ id ∷ []) (sigs ++ sig ∷ [])
Vouched-snoc P id sig [] [] h v = (h, tt)
Vouched-snoc P id sig [] (s ∷ sigs) h v = absurd v
Vouched-snoc P id sig (i ∷ ids) [] h v = absurd v
Vouched-snoc P id sig (i ∷ ids) (s ∷ sigs) h v = (v.0, Vouched-snoc P id sig ids sigs h v.1)

pub Vouched-length :
    (P : ℤ → Slice → Type 0) (ids : List ℤ) (sigs : List Slice)
    → Vouched P ids sigs
    → length sigs ≡ length ids
Vouched-length P [] [] v = refl
Vouched-length P [] (s ∷ sigs) v = absurd v
Vouched-length P (i ∷ ids) [] v = absurd v
Vouched-length P (i ∷ ids) (s ∷ sigs) v = omega (arith, Vouched-length P ids sigs v.1)

no_keys : (m : Map ℤ Bool) → (length (keys m) == 0) ≡ true → ◌≡◌ {A = Map ℤ Bool} [] m
no_keys [] h = refl
no_keys (x ∷ m) h = ground arith

no_items : (s : Set) → (len s == 0) ≡ true → new_set ≡ s
unfolding len set_list new_set
no_items s h = λ i. record { m = no_keys s.m h i }

target-votes_in : (o : Option Set) → target o ≡ votes_in o
unfolding target votes_in
target-votes_in none = refl
target-votes_in (some s) = elim (Bool-cases (len s == 0)) [
  | inl e ↦ rw e (no_items s e)
  | inr e ↦ rw e
]

old_len-votes_in : (o : Option Set) → old_len o ≡ len (votes_in o)
unfolding old_len votes_in len set_list new_set
old_len-votes_in none = refl
old_len-votes_in (some s) = refl

-- `GetLen` counts the votes.
pub get_len-votes : (b : Buffer) (key : Bytes) → get_len b key ≡ len (votes b key)
unfolding get_len votes
get_len-votes b key = old_len-votes_in (Map.get key b)

pub votes-insert_value :
    (b : Buffer) (c : Certificate) (key other : Bytes) (nid : ℤ) (msg : Slice)
    → votes (insert_value b c key nid msg).0 other
      ≡ (if bytes_eq key other then add_item (votes b key) nid else votes b other)
unfolding votes insert_value
votes-insert_value b c key other nid msg = ground (
  arith,
  Map.get-insert key other (add_item (target (Map.get key b)) nid) b,
  target-votes_in (Map.get key b),
)

ids_of-cer_insert :
    (c : Certificate) (key other : Bytes) (nid : ℤ) (msg : Slice)
    → ids_of (cer_insert c key nid msg) other
      ≡ (if bytes_eq key other then ids_of c key ++ nid ∷ [] else ids_of c other)
unfolding ids_of cer_insert
ids_of-cer_insert c key other nid msg =
    ground (arith, Map.get-insert key other (ids_of c key ++ nid ∷ []) c.identities)

sigs_of-cer_insert :
    (c : Certificate) (key other : Bytes) (nid : ℤ) (msg : Slice)
    → sigs_of (cer_insert c key nid msg) other
      ≡ (if bytes_eq key other then sigs_of c key ++ msg ∷ [] else sigs_of c other)
unfolding sigs_of cer_insert
sigs_of-cer_insert c key other nid msg =
    ground (arith, Map.get-insert key other (sigs_of c key ++ msg ∷ []) c.certificate)

-- The certificate grows exactly when the vote is new.
cer-insert_value :
    (b : Buffer) (c : Certificate) (key : Bytes) (nid : ℤ) (sig : Bytes)
    → (insert_value b c key nid (some sig)).1
      ≡ (if has_item (votes b key) nid then c else cer_insert c key nid (some sig))
unfolding insert_value votes
cer-insert_value b c key nid sig = ground (
  arith,
  target-votes_in (Map.get key b),
  old_len-votes_in (Map.get key b),
  len-add_item (votes_in (Map.get key b)) nid,
)

pub record Certified (P : Bytes → ℤ → Slice → Type 0) (b : Buffer) (c : Certificate) : Type 0 where
  -- The identities of a certificate are the votes.
  pub agree : (h : Bytes) → ids_of c h ≡ set_list (votes b h)
  pub distinct : (h : Bytes) → Distinct (ids_of c h)
  -- Each signature satisfies `P` for the hash and the replica.
  pub vouched : (h : Bytes) → Vouched (P h) (ids_of c h) (sigs_of c h)

-- A vote, new or repeated, in buffers that are in step.
module _ (P : Bytes → ℤ → Slice → Type 0) (b : Buffer) (c : Certificate) (key : Bytes) (nid : ℤ)
    (sig : Bytes) (p : P key nid (some sig)) (v : Certified P b c) where
  new_votes : Buffer
  new_votes = (insert_value b c key nid (some sig)).0

  new_cer : Certificate
  new_cer = (insert_value b c key nid (some sig)).1

  kept_agree : (h : Bytes) → ids_of new_cer h ≡ set_list (votes new_votes h)
  unfolding new_cer new_votes
  kept_agree h = ground (
    arith,
    cer-insert_value b c key nid sig,
    ids_of-cer_insert c key h nid (some sig),
    votes-insert_value b c key h nid (some sig),
    set_list-add_item (votes b key) nid,
    v.agree h,
    v.agree key,
    bytes_eq_iff key h,
  )

  kept-Distinct : (h : Bytes) → Distinct (set_list (votes new_votes h))
  unfolding new_votes
  kept-Distinct h = elim (Bool-cases (bytes_eq key h)) [
    | inl e ↦
        rw (votes-insert_value b c key h nid (some sig), e)
          (add_item-Distinct (votes b key) nid (rw (← v.agree key) (v.distinct key)))
    | inr e ↦ rw (votes-insert_value b c key h nid (some sig), e) (rw (← v.agree h) (v.distinct h))
  ]

  inserted :
      (h : Bytes)
      → Vouched
          (P h)
          (ids_of (cer_insert c key nid (some sig)) h)
          (sigs_of (cer_insert c key nid (some sig)) h)
  inserted h = elim (Bool-cases (bytes_eq key h)) [
    | inl e ↦
        rw (ids_of-cer_insert c key h nid (some sig), sigs_of-cer_insert c key h nid (some sig), e)
          (subst (λ k. Vouched (P k) (ids_of c key ++ nid ∷ []) (sigs_of c key ++ some sig ∷ []))
            ((bytes_eq_iff key h).0 e)
            (Vouched-snoc (P key) nid (some sig) (ids_of c key) (sigs_of c key) p (v.vouched key)))
    | inr e ↦
        rw (ids_of-cer_insert c key h nid (some sig), sigs_of-cer_insert c key h nid (some sig), e)
          (v.vouched h)
  ]

  kept-Vouched : (h : Bytes) → Vouched (P h) (ids_of new_cer h) (sigs_of new_cer h)
  unfolding new_cer
  kept-Vouched h = elim (Bool-cases (has_item (votes b key) nid)) [
    | inl old ↦ rw (cer-insert_value b c key nid sig, old) (v.vouched h)
    | inr new ↦ rw (cer-insert_value b c key nid sig, new) (inserted h)
  ]

  -- A vote with a signature that is not nil and satisfies `P` keeps every certificate in step with the
  -- votes: the same replicas, once each, beside signatures that satisfy `P`.
  pub insert_value-Certified :
      Certified P (insert_value b c key nid (some sig)).0 (insert_value b c key nid (some sig)).1
  unfolding new_cer new_votes
  insert_value-Certified = record {
    agree = kept_agree;
    distinct = λ h. rw (kept_agree h) (kept-Distinct h);
    vouched = kept-Vouched;
  }

both_present :
    (h : Bytes) (sigs : Option (List Slice)) (ids : Option (List ℤ))
    → 1 ≤ length (or_nil sigs)
    → 1 ≤ length (or_nil ids)
    → signatures h sigs ids ≡ some (record { hash = some h; sigs = or_nil sigs; ids = or_nil ids })
unfolding signatures
both_present h none ids a b = absurd (omega arith)
both_present h (some sigs) none a b = absurd (omega arith)
both_present h (some sigs) (some ids) a b = refl

pub length-ids_of :
    (P : Bytes → ℤ → Slice → Type 0) (b : Buffer) (c : Certificate) (h : Bytes)
    → Certified P b c
    → length (ids_of c h) ≡ get_len b h
length-ids_of P b c h v =
    let e : length (ids_of c h) ≡ len (votes b h) = unfold len in ap length (v.agree h) in
    e ∙ sym (get_len-votes b h)

-- Where the certificates are in step with the votes, one is found for every hash with a vote, and
-- it holds the signatures and the identities of the hash.
pub fetch_signatures-Certified :
    (P : Bytes → ℤ → Slice → Type 0) (b : Buffer) (c : Certificate) (h : Bytes)
    → Certified P b c
    → 1 ≤ get_len b h
    → fetch_signatures c h ≡ some (record { hash = some h; sigs = sigs_of c h; ids = ids_of c h })
unfolding fetch_signatures ids_of sigs_of
fetch_signatures-Certified P b c h v n =
    both_present h (Map.get h c.certificate) (Map.get h c.identities)
      (omega (
        arith,
        length-ids_of P b c h v,
        Vouched-length (P h) (ids_of c h) (sigs_of c h) (v.vouched h),
      ))
      (omega (arith, length-ids_of P b c h v))
