-- ===== src/Examples/Stores.antt =====
-- The theorem on the encrypted envelope, at a cipher that encrypts nothing.
use sleepy_hot_stuff.Base.{
  ◌%◌, Bytes, ap, string_eq, ◌≡◌, refl, some, [], ◌∷◌, arith, length, int_eq,
}
use sleepy_hot_stuff.Crypto.Auth.{
  Cipher, IsCipher, block_size, cbc_encrypter_aes, cbc_decrypter_aes,
  cbc_decrypter_aes-cbc_encrypter_aes,
}

-- A cipher that encrypts nothing and pads each byte to a block of its own.
abbrev pad_bytes : Bytes → Bytes
pad_bytes [] = []
pad_bytes (x ∷ xs) = x ∷ 0 ∷ 0 ∷ 0 ∷ 0 ∷ 0 ∷ 0 ∷ 0 ∷ 0 ∷ 0 ∷ 0 ∷ 0 ∷ 0 ∷ 0 ∷ 0 ∷ 0 ∷ pad_bytes xs

abbrev unpad_bytes : Bytes → Bytes
unpad_bytes (x ∷ a ∷ b ∷ c ∷ d ∷ e ∷ f ∷ g ∷ h ∷ i ∷ j ∷ k ∷ l ∷ m ∷ n ∷ o ∷ xs) =
    x ∷ unpad_bytes xs
unpad_bytes short = []

abbrev plain_cipher : Cipher
plain_cipher = record {
  hmac = λ m. m;
  pad = pad_bytes;
  unpad = unpad_bytes;
  encrypt = λ iv m. m;
  decrypt = λ iv m. m;
}

pad_bytes-whole : (m : Bytes) → length (pad_bytes m) % block_size ≡ 0
pad_bytes-whole [] = refl
pad_bytes-whole (x ∷ m) = omega (arith, pad_bytes-whole m)

unpad_bytes-pad_bytes : (m : Bytes) → unpad_bytes (pad_bytes m) ≡ m
unpad_bytes-pad_bytes [] = refl
unpad_bytes-pad_bytes (x ∷ m) = ap (λ xs. x ∷ xs) (unpad_bytes-pad_bytes m)

plain_cipher-IsCipher : IsCipher plain_cipher
plain_cipher-IsCipher = record {
  pads = pad_bytes-whole;
  unpads = unpad_bytes-pad_bytes;
  keeps_length = λ iv m. refl;
  inverts = λ iv m h. refl;
}

abbrev iv : Bytes
iv = 1 ∷ 2 ∷ 3 ∷ 4 ∷ 5 ∷ 6 ∷ 7 ∷ 8 ∷ 9 ∷ 10 ∷ 11 ∷ 12 ∷ 13 ∷ 14 ∷ 15 ∷ 16 ∷ []

cbc_decrypter_aes-cbc_encrypter_aes_example :
    (ciphertext : Bytes) × (cbc_encrypter_aes plain_cipher iv (7 ∷ 8 ∷ []) ≡ some ciphertext)
    × (cbc_decrypter_aes plain_cipher ciphertext ≡ some (7 ∷ 8 ∷ []))
cbc_decrypter_aes-cbc_encrypter_aes_example =
    cbc_decrypter_aes-cbc_encrypter_aes plain_cipher iv (7 ∷ 8 ∷ []) plain_cipher-IsCipher refl
