-- ===== src/Crypto/Auth.antt =====
-- cryptolib/auth.go: message authentication codes, and encryption by AES in CBC mode, with the first
-- block of the ciphertext as initialisation vector. HMAC, AES and the padding are parameters; the keys
-- are constants of the source and stand inside them.
use sleepy_hot_stuff.Base.{
  ℕ, ◌%◌, ◌≡◌, Bool, true, Option, none, some, ◌++◌, arith, ltb, ◌==◌, if◌then◌else◌, length,
  length-append, take, drop, Bytes, bytes_eq, bytes_eq_refl, ℤ,
}
use sleepy_hot_stuff.Crypto.{take-length-append, drop-length-append}
use sleepy_hot_stuff.Env.{Env}

abbrev pub block_size : ℕ
block_size = 16

pub record Cipher : Type 0 where
  -- HMAC with SHA-256 under the constant key.
  pub hmac : Bytes → Bytes
  -- `pkcs7pad`
  pub pad : Bytes → Bytes
  pub unpad : Bytes → Bytes
  -- CBC over whole blocks, from an initialisation vector.
  pub encrypt : Bytes → Bytes → Bytes
  pub decrypt : Bytes → Bytes → Bytes

-- The documented behaviour: padding fills the last block and can be taken off; both directions of CBC
-- keep the length and are inverse on whole blocks.
pub record IsCipher (c : Cipher) : Type 0 where
  pub pads : (m : Bytes) → length (c.pad m) % block_size ≡ 0
  pub unpads : (m : Bytes) → c.unpad (c.pad m) ≡ m
  pub keeps_length : (iv m : Bytes) → length (c.encrypt iv m) ≡ length m
  pub inverts : (iv m : Bytes) → length m % block_size ≡ 0 → c.decrypt iv (c.encrypt iv m) ≡ m

module _ (c : Cipher) where
  unfoldable pub gen_mac : ℤ → Bytes → Bytes
  gen_mac id msg = c.hmac msg

  unfoldable pub verify_mac : ℤ → Bytes → Bytes → Bool
  verify_mac id msg sig = bytes_eq (c.hmac msg) sig

  -- With the random block `iv`; `none` is a panic.
  unfoldable pub cbc_encrypter_aes : Bytes → Bytes → Option Bytes
  cbc_encrypter_aes iv plaintext =
      if length (c.pad plaintext) % block_size == 0
      then some (iv ++ c.encrypt iv (c.pad plaintext))
      else none

  unfoldable pub cbc_decrypter_aes : Bytes → Option Bytes
  cbc_decrypter_aes ciphertext =
      if ltb (length ciphertext) block_size
      then none
      else (let rest = drop block_size ciphertext in
          if length rest % block_size == 0
          then some (c.unpad (c.decrypt (take block_size ciphertext) rest))
          else none)

  sign_mac : Env → ℤ → Option Bytes → Option Bytes
  sign_mac e id none = none
  sign_mac e id (some encrypted) =
      e.marshal_signed (record { msg = some encrypted; sig = some (gen_mac id encrypted) })

  -- message.SerializeWithMAC
  unfoldable pub serialize_with_mac : Env → Bytes → ℤ → ℤ → Bytes → Option Bytes
  unfolding sign_mac
  serialize_with_mac e iv id dest msg = sign_mac e id (cbc_encrypter_aes iv msg)

drop-block : (iv rest : Bytes) → length iv ≡ block_size → drop block_size (iv ++ rest) ≡ rest
drop-block iv rest h = rw (← h) (drop-length-append iv rest)

take-block : (iv rest : Bytes) → length iv ≡ block_size → take block_size (iv ++ rest) ≡ iv
take-block iv rest h = rw (← h) (take-length-append iv rest)

-- What is encrypted under any random block comes back by decryption, where AES and the padding behave
-- as documented.
pub cbc_decrypter_aes-cbc_encrypter_aes :
    (c : Cipher) (iv m : Bytes)
    → IsCipher c
    → length iv ≡ block_size
    → (ciphertext : Bytes) × (cbc_encrypter_aes c iv m ≡ some ciphertext)
      × (cbc_decrypter_aes c ciphertext ≡ some m)
unfolding cbc_encrypter_aes cbc_decrypter_aes
cbc_decrypter_aes-cbc_encrypter_aes c iv m h block =
    let body = c.encrypt iv (c.pad m) in
    (
      iv ++ body,
      ground (arith, h.pads m),
      ground (
        arith,
        length-append iv body,
        take-block iv body block,
        drop-block iv body block,
        h.keeps_length iv (c.pad m),
        h.pads m,
        h.inverts iv (c.pad m) (h.pads m),
        h.unpads m,
      ),
    )

-- A code that any replica makes of a message verifies as that of any other replica: neither the maker
-- nor the one that is claimed enters the code.
pub verify_mac-gen_mac :
    (c : Cipher) (maker claimed : ℤ) (m : Bytes) → verify_mac c claimed m (gen_mac c maker m) ≡ true
unfolding verify_mac gen_mac
verify_mac-gen_mac c maker claimed m = bytes_eq_refl (c.hmac m)
