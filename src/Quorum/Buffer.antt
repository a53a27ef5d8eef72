-- ===== src/Quorum/Buffer.antt =====
-- quorum/def.go: `BUFFER`, from hashes to the replicas that sent it, and `CERTIFICATE`, from hashes to
-- the signatures and their senders.
pub mod Certified
use sleepy_hot_stuff.Base.{
  ℕ, suc, ◌+◌, ◌≤◌, ◌≡◌, refl, Bool, true, false, Option, none, some, List, [], ◌∷◌, ◌++◌, arith,
  ltb, ◌==◌, if◌then◌else◌, Bool-cases, length, Bytes, string_eq, ℤ,
}
use sleepy_hot_stuff.Utils.Map
use sleepy_hot_stuff.Utils.Map.{Map, Distinct}
use sleepy_hot_stuff.Utils.Values.{Slice}
use sleepy_hot_stuff.Utils.Sets.{Set, new_set, add_item, has_item, set_list, len}
use sleepy_hot_stuff.Message.{Signatures}
use sleepy_hot_stuff.Env.{Env}

abbrev pub Buffer : Type 0
Buffer = Map Bytes Set

pub record Certificate : Type 0 where
  pub certificate : Map Bytes (List Slice)
  pub identities : Map Bytes (List ℤ)

abbrev pub empty_certificate : Certificate
empty_certificate = record { certificate = []; identities = [] }

-- A missing key reads as nil, to which `append` adds.
abbrev pub or_nil {ℓ} : {A : Type ℓ} → Option (List A) → List A
or_nil none = []
or_nil (some xs) = xs

unfoldable pub sigs_of : Certificate → Bytes → List Slice
sigs_of p key = or_nil (Map.get key p.certificate)

unfoldable pub ids_of : Certificate → Bytes → List ℤ
ids_of p key = or_nil (Map.get key p.identities)

-- `CERTIFICATE.Insert`
unfoldable pub cer_insert : Certificate → Bytes → ℤ → Slice → Certificate
cer_insert p key nid msg = record {
  certificate = Map.insert key (sigs_of p key ++ msg ∷ []) p.certificate;
  identities = Map.insert key (ids_of p key ++ nid ∷ []) p.identities;
}

-- `CERTIFICATE.Clear`
unfoldable pub cer_clear : Certificate → Bytes → Certificate
cer_clear p key = record {
  certificate = Map.delete key p.certificate;
  identities = Map.delete key p.identities;
}

-- `FetchCer`, up to the serialization: nil if either list is missing.
signatures : Bytes → Option (List Slice) → Option (List ℤ) → Option Signatures
signatures key none ids = none
signatures key (some sigs) none = none
signatures key (some sigs) (some ids) = some (record { hash = some key; sigs = sigs; ids = ids })

unfoldable pub fetch_signatures : Certificate → Bytes → Option Signatures
unfolding signatures
fetch_signatures p key = signatures key (Map.get key p.certificate) (Map.get key p.identities)

unfoldable pub marshal : Env → Option Signatures → Option Bytes
marshal e none = none
marshal e (some msg) = e.marshal_signatures msg

unfoldable pub fetch_cer : Env → Certificate → Bytes → Slice
unfolding marshal
fetch_cer e p key = marshal e (fetch_signatures p key)

-- The set that an insertion adds to.
target : Option Set → Set
target none = new_set
target (some s) = if len s == 0 then new_set else s

old_len : Option Set → ℕ
old_len none = 0
old_len (some s) = len s

-- `BUFFER.InsertValue`, with the certificates that it feeds. A new set has one item, so its length has
-- grown too.
unfoldable pub insert_value : Buffer → Certificate → Bytes → ℤ → Slice → Buffer × Certificate
unfolding target old_len
insert_value b cer input nid msg =
    let old = Map.get input b in
    let s = add_item (target old) nid in
    (
      Map.insert input s b,
      elim msg [
        | none ↦ cer
        | some sig ↦ if ltb (old_len old) (len s) then cer_insert cer input nid (some sig) else cer
      ],
    )

votes_in : Option Set → Set
votes_in none = new_set
votes_in (some s) = s

-- The set under a key.
unfoldable pub votes : Buffer → Bytes → Set
unfolding votes_in
votes b input = votes_in (Map.get input b)

-- `BUFFER.GetLen`
unfoldable pub get_len : Buffer → Bytes → ℕ
unfolding old_len
get_len b input = old_len (Map.get input b)

-- `BUFFER.Clear`
unfoldable pub clear : Buffer → Bytes → Buffer
clear b input = Map.delete input b
