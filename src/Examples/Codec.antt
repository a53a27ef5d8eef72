-- ===== src/Examples/Codec.antt =====
-- A codec for certificates that reads back what it wrote: one operation and one argument per step.
use sleepy_hot_stuff.Base.{
  ℕ, zero, suc, ◌≡◌, refl, none, some, List, [], ◌∷◌, Bytes, ℤ, pos, negsuc,
}
use sleepy_hot_stuff.Utils.Values.{Slice}
use sleepy_hot_stuff.Message.{Signatures}

abbrev no_signatures : Signatures
no_signatures = record { hash = none; sigs = []; ids = [] }

abbrev onto : ℕ → Slice → Slice
onto x none = none
onto x (some b) = some (x ∷ b)

abbrev onto_first : ℕ → List Slice → List Slice
onto_first x [] = []
onto_first x (sig ∷ sigs) = onto x sig ∷ sigs

abbrev push : ℕ → ℕ → Signatures → Signatures
push zero x s = record s { sigs = none ∷ s.sigs }
push (suc zero) x s = record s { sigs = some [] ∷ s.sigs }
push (suc (suc zero)) x s = record s { sigs = onto_first x s.sigs }
push (suc (suc (suc zero))) x s = record s { ids = pos x ∷ s.ids }
push (suc (suc (suc (suc zero)))) x s = record s { ids = negsuc x ∷ s.ids }
push (suc (suc (suc (suc (suc zero))))) x s = record s { hash = some [] }
push _ x s = record s { hash = onto x s.hash }

abbrev pub decode : Bytes → Signatures
decode [] = no_signatures
decode (op ∷ []) = no_signatures
decode (op ∷ x ∷ bs) = push op x (decode bs)

abbrev of_ids : List ℤ → Bytes
of_ids [] = []
of_ids (pos n ∷ ids) = 3 ∷ n ∷ of_ids ids
of_ids (negsuc n ∷ ids) = 4 ∷ n ∷ of_ids ids

abbrev of_sig : Bytes → Bytes → Bytes
of_sig [] rest = 1 ∷ 0 ∷ rest
of_sig (x ∷ sig) rest = 2 ∷ x ∷ of_sig sig rest

abbrev of_sigs : List Slice → Bytes → Bytes
of_sigs [] rest = rest
of_sigs (none ∷ sigs) rest = 0 ∷ 0 ∷ of_sigs sigs rest
of_sigs (some sig ∷ sigs) rest = of_sig sig (of_sigs sigs rest)

abbrev of_hash : Bytes → Bytes → Bytes
of_hash [] rest = 5 ∷ 0 ∷ rest
of_hash (x ∷ hash) rest = 6 ∷ x ∷ of_hash hash rest

abbrev of_slice : Slice → Bytes → Bytes
of_slice none rest = rest
of_slice (some hash) rest = of_hash hash rest

abbrev pub encode : Signatures → Bytes
encode s = of_slice s.hash (of_sigs s.sigs (of_ids s.ids))

decode-of_ids : (ids : List ℤ) → decode (of_ids ids) ≡ record no_signatures { ids = ids }
decode-of_ids [] = refl
decode-of_ids (pos n ∷ ids) = rw (decode-of_ids ids) refl
decode-of_ids (negsuc n ∷ ids) = rw (decode-of_ids ids) refl

decode-of_sig :
    (sig rest : Bytes) (s : Signatures)
    → decode rest ≡ s
    → decode (of_sig sig rest) ≡ record s { sigs = some sig ∷ s.sigs }
decode-of_sig [] rest s h = rw h refl
decode-of_sig (x ∷ sig) rest s h = rw (decode-of_sig sig rest s h) refl

decode-of_sigs :
    (sigs : List Slice) (ids : List ℤ)
    → decode (of_sigs sigs (of_ids ids)) ≡ record no_signatures { sigs = sigs; ids = ids }
decode-of_sigs [] ids = decode-of_ids ids
decode-of_sigs (none ∷ sigs) ids = rw (decode-of_sigs sigs ids) refl
decode-of_sigs (some sig ∷ sigs) ids = decode-of_sig sig _ _ (decode-of_sigs sigs ids)

decode-of_hash :
    (hash rest : Bytes) (s : Signatures)
    → decode rest ≡ s
    → decode (of_hash hash rest) ≡ record s { hash = some hash }
decode-of_hash [] rest s h = rw h refl
decode-of_hash (x ∷ hash) rest s h = rw (decode-of_hash hash rest s h) refl

decode-of_slice :
    (hash : Slice) (sigs : List Slice) (ids : List ℤ)
    → decode (of_slice hash (of_sigs sigs (of_ids ids)))
      ≡ record { hash = hash; sigs = sigs; ids = ids }
decode-of_slice none sigs ids = decode-of_sigs sigs ids
decode-of_slice (some hash) sigs ids = decode-of_hash hash _ _ (decode-of_sigs sigs ids)

pub decode-encode : (s : Signatures) → decode (encode s) ≡ s
decode-encode s = decode-of_slice s.hash s.sigs s.ids
