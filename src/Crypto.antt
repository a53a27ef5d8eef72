-- ===== src/Crypto.antt =====
-- cryptolib/hash.go and cryptolib/ecdsa.go around the primitives: hashing of batches, and the layout of
-- a signature, 28 bytes of `r` and then `s`.
pub mod Auth
use sleepy_hot_stuff.Base.{
  ℕ, suc, zero, ◌-◌, ◌≤◌, ◌<◌, ◌≡◌, refl, Bool, true, ◌&&◌, not, Option, none, some, List, [], ◌∷◌,
  ◌++◌, arith, ltb, if◌then◌else◌, length, length-append, take, drop, Bytes, ℤ,
}
use sleepy_hot_stuff.Utils.Values.{Slice, bytes_to_string}
use sleepy_hot_stuff.Message.{RawMessage}
use sleepy_hot_stuff.Env.{Env}

module _ (e : Env) where
  unfoldable pub gen_hash : Bytes → Slice
  gen_hash [] = some []
  gen_hash (x ∷ xs) = some (e.sha256 (x ∷ xs))

  -- `bytes.Join` of the messages, with nothing between them.
  unfoldable pub join_batch : List RawMessage → Bytes
  join_batch [] = []
  join_batch (m ∷ batch) = bytes_to_string m.msg ++ join_batch batch

  unfoldable pub gen_batch_hash : List RawMessage → Slice
  gen_batch_hash batch = gen_hash (join_batch batch)

abbrev pub sig_size : ℕ
sig_size = 28

zeros : ℕ → Bytes
zeros zero = []
zeros (suc n) = 0 ∷ zeros n

-- Left padding with zeros up to the size of a half.
unfoldable pub complement : Bytes → Bytes
unfolding zeros
complement bs = if ltb (length bs) sig_size then zeros (sig_size - length bs) ++ bs else bs

module _ (e : Env) where
  unfoldable pub gen_sig : Bytes → Slice
  gen_sig msg = let (r, s) = e.ecdsa_sign msg in some (complement r ++ complement s)

  -- `none` is a panic: a slice out of range, or a missing key.
  unfoldable pub verify_sig : ℤ → Slice → Slice → Option Bool
  verify_sig id msg sig =
      if not (ltb (length (bytes_to_string sig)) sig_size) && e.has_key id
      then some (
          e.ecdsa_verify id (bytes_to_string msg) (take sig_size (bytes_to_string sig))
            (drop sig_size (bytes_to_string sig)))
      else none

length-zeros : (n : ℕ) → length (zeros n) ≡ n
unfolding zeros
length-zeros zero = refl
length-zeros (suc n) = omega (arith, length-zeros n)

length-complement : (bs : Bytes) → length bs ≤ sig_size → length (complement bs) ≡ sig_size
unfolding complement
length-complement bs h =
    ground
      (arith, length-zeros (sig_size - length bs), length-append (zeros (sig_size - length bs)) bs)

pub take-length-append : (xs ys : Bytes) → take (length xs) (xs ++ ys) ≡ xs
take-length-append [] ys = refl
take-length-append (x ∷ xs) ys = rw (take-length-append xs ys)

pub drop-length-append : (xs ys : Bytes) → drop (length xs) (xs ++ ys) ≡ ys
drop-length-append [] ys = refl
drop-length-append (x ∷ xs) ys = drop-length-append xs ys

take-half : (r s : Bytes) → length r ≡ sig_size → take sig_size (r ++ s) ≡ r
take-half r s h = rw (← h) (take-length-append r s)

drop-half : (r s : Bytes) → length r ≡ sig_size → drop sig_size (r ++ s) ≡ s
drop-half r s h = rw (← h) (drop-length-append r s)

-- Where both numbers of a signature fit in 28 bytes and the key of the replica is there,
-- `VerifySig` takes apart what `GenSig` lays out, and hands the padded halves to the library.
pub verify_sig-gen_sig :
    (e : Env) (id : ℤ) (msg : Bytes)
    → length (e.ecdsa_sign msg).0 ≤ sig_size
    → length (e.ecdsa_sign msg).1 ≤ sig_size
    → e.has_key id ≡ true
    → verify_sig e id (some msg) (gen_sig e msg)
      ≡ some (
          e.ecdsa_verify id msg (complement (e.ecdsa_sign msg).0) (complement (e.ecdsa_sign msg).1))
unfolding verify_sig gen_sig bytes_to_string
verify_sig-gen_sig e id msg hr hs key =
    let r = complement (e.ecdsa_sign msg).0 in
    let s = complement (e.ecdsa_sign msg).1 in
    ground (
      arith,
      length-complement (e.ecdsa_sign msg).0 hr,
      length-append r s,
      take-half r s (length-complement (e.ecdsa_sign msg).0 hr),
      drop-half r s (length-complement (e.ecdsa_sign msg).0 hr),
    )

pub verify_sig-short :
    (e : Env) (id : ℤ) (msg sig : Slice)
    → length (bytes_to_string sig) < sig_size
    → verify_sig e id msg sig ≡ none
unfolding verify_sig
verify_sig-short e id msg sig h = ground arith
