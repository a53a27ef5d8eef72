-- ===== src/Threshprf/Keys.antt =====
-- threshprf/: the dealer's keys, and the files that hold keys and shares. Where the source has a flat list
-- of words, here is a list of entries of four words each. A file is an entry under the id of its folder;
-- a write that fails ends the process and is not modelled.
use mathlib.Core.Path.{subst}
use mathlib.Core.Option.{Option, none, some}
use native.Mathlib.Numerals.{unary_clauses}
use native.Mathlib.Nat.{mod-mod, zero-mod, mul-zero, add-zero}
use sleepy_hot_stuff.Base.{
  ap, Option-cases, inl, inr, ◌∙◌, ℕ, zero, suc, ◌+◌, ◌*◌, ◌%◌, ◌^◌, ◌<◌, ◌≡◌, refl, Bool, true,
  false, not, ◌||◌, List, [], ◌∷◌, ◌++◌, arith, ◌==◌, if◌then◌else◌, length, Bytes, ℤ, pos, int_eq,
}
use sleepy_hot_stuff.Utils.Map
use sleepy_hot_stuff.Utils.Map.{Map}
use sleepy_hot_stuff.Utils.Values.{Slice}
use sleepy_hot_stuff.Threshprf.Words.{
  ◌>>=◌, Words, bigint_to_u64_256, u64_to_bigint_256, u64_to_byte_256,
}
use sleepy_hot_stuff.Threshprf.Curve.{Curve}
use sleepy_hot_stuff.Threshprf.Share.{slice}

-- The files `share`, `ver.key` and `sec.key`.
pub record Files : Type 0 where
  pub shares : Map ℤ Bytes
  pub ver_keys : Map ℤ Bytes
  pub sec_keys : Map ℤ Bytes

abbrev pub VerKey : Type 0
VerKey = Words × Words

module _ (c : Curve) where
  -- The polynomial at `i`, from its coefficient `j` on.
  add_terms : ℕ → ℕ → List Words → ℕ → ℕ
  add_terms i j [] acc = acc
  add_terms i j (a ∷ rest) acc =
      add_terms i (suc j) rest ((acc + u64_to_bigint_256 a * (i ^ j % c.n) % c.n) % c.n)

  -- The secret key of party `i` under the coefficients, of which there is at least one.
  unfoldable pub secret_key : ℕ → Words → List Words → ℕ
  unfolding add_terms
  secret_key i a rest = add_terms i 1 rest (u64_to_bigint_256 a) % c.n

  unfoldable pub ver_key : Words → VerKey
  ver_key sk =
      let v = c.scalar_base_mult (u64_to_byte_256 sk) in
      (bigint_to_u64_256 v.0, bigint_to_u64_256 v.1)

  unfoldable pub keys_from : ℕ → ℕ → Words → List Words → List VerKey × List Words
  keys_from i zero a rest = ([], [])
  keys_from i (suc left) a rest =
      let sk = bigint_to_u64_256 (secret_key i a rest) in
      let (vks, sks) = keys_from (suc i) left a rest in (ver_key sk ∷ vks, sk ∷ sks)

  -- For `n` parties, with random coefficients; without any of these, the first index panics.
  unfoldable pub gen_key_dealer : ℕ → List Words → Option (List VerKey × List Words)
  unfolding ver_key keys_from
  gen_key_dealer zero ra = some ([], [])
  gen_key_dealer (suc n) [] = none
  gen_key_dealer (suc n) (a ∷ rest) = some (keys_from 0 (suc n) a rest)

unfoldable pub store_share : Bytes → ℤ → Files → Files
store_share share id f =
    if not (length share == 128) then f else record f { shares = Map.insert id share f.shares }

-- nil, if the file cannot be read.
unfoldable pub load_share_from_files : ℤ → Files → Slice
load_share_from_files id f = Map.get id f.shares

unfoldable pub store_keys : ℕ → List VerKey → List Words → Files → Files
store_keys id ((x, y) ∷ vks) (sk ∷ sks) f = store_keys (suc id) vks sks (record f {
  ver_keys = Map.insert (pos id) (u64_to_byte_256 x ++ u64_to_byte_256 y) f.ver_keys;
  sec_keys = Map.insert (pos id) (u64_to_byte_256 sk) f.sec_keys;
})
store_keys id vks sks f = f

unfoldable pub store_key_dealer : List VerKey → List Words → ℕ → Files → Files
unfolding store_keys
store_key_dealer vks sks n f =
    if not (length vks == n) || not (length sks == n) then f else store_keys 0 vks sks f

-- The key of user `id` is cut out from `id * n` on, perhaps out of what lies behind the list.
store_users : Bytes → Bytes → ℕ → ℕ → ℕ → Files → Option Files
store_users behind vk n id zero f = some f
store_users behind vk n id (suc left) f = slice behind (id * n) 64 vk >>= λ vkb.
    store_users behind vk n (suc id) left
      (record f { ver_keys = Map.insert (pos id) vkb f.ver_keys })

unfoldable pub store_vk_user : Bytes → Bytes → ℕ → Files → Option Files
unfolding store_users
store_vk_user behind vk n f =
    if not (length vk == n * 64) then some f else store_users behind vk n 0 n f

-- The contents of a file are followed in their array by what `read_buffer` says: a part of a file that
-- is too short is cut out of that, and panics where the buffer ends.
unfoldable pub cut_key : (Bytes → Bytes) → Slice → Option (Slice × Slice)
cut_key read_buffer none = some (none, none)
cut_key read_buffer (some vkb) = slice (read_buffer vkb) 0 32 vkb >>= λ x.
    slice (read_buffer vkb) 32 32 vkb >>= λ y. some (some x, some y)

unfoldable pub load_vk_from_files : (Bytes → Bytes) → ℤ → Files → Option (Slice × Slice)
unfolding cut_key
load_vk_from_files read_buffer id f = cut_key read_buffer (Map.get id f.ver_keys)

-- `nsk`, `nvkx` and `nvky`, the keys of this node.
pub record Node : Type 0 where
  pub nsk : Slice
  pub nvkx : Slice
  pub nvky : Slice

unfoldable pub load_both : (Bytes → Bytes) → Slice → Slice → Node → Option (Node × Bool)
unfolding cut_key
load_both read_buffer (some sk) (some vkb) node = cut_key read_buffer (some vkb) >>= λ v.
    some (record { nsk = some sk; nvkx = v.0; nvky = v.1 }, true)
load_both read_buffer sk vkb node = some (node, false)

-- The keys that are loaded are kept; the flag says that both files were there.
unfoldable pub load_key_from_files : (Bytes → Bytes) → ℤ → Files → Node → Option (Node × Bool)
unfolding load_both
load_key_from_files read_buffer id f node =
    load_both read_buffer (Map.get id f.sec_keys) (Map.get id f.ver_keys) node

zero_power : (j : ℕ) → 0 ^ suc j ≡ 0
zero_power j = simp unary_clauses refl

no_term : (n a acc j : ℕ) → (acc + a * (0 ^ suc j % n) % n) % n ≡ acc % n
no_term n a acc j =
    rw (zero_power j) (rw (zero-mod n) (rw (mul-zero a) (rw (zero-mod n) (rw (add-zero acc) refl))))

add_terms-zero :
    (c : Curve) (j : ℕ) (rest : List Words) (acc : ℕ)
    → add_terms c 0 (suc j) rest acc % c.n ≡ acc % c.n
unfolding add_terms
add_terms-zero c j [] acc = refl
add_terms-zero c j (a ∷ rest) acc =
    add_terms-zero c (suc j) rest _
    ∙ (ap (λ (t : ℕ). t % c.n) (no_term c.n (u64_to_bigint_256 a) acc j) ∙ mod-mod acc c.n)

-- The key of party 0 is the constant coefficient, the secret that all shares together stand for.
pub secret_key-zero :
    (c : Curve) (a : Words) (rest : List Words) → secret_key c 0 a rest ≡ u64_to_bigint_256 a % c.n
unfolding secret_key
secret_key-zero c a rest = add_terms-zero c 0 rest (u64_to_bigint_256 a)

slice-short :
    (behind : Bytes) (from len : ℕ) (b : Bytes)
    → length (b ++ behind) < from + len
    → slice behind from len b ≡ none
unfolding slice
slice-short behind from len b h = ground arith

-- The last key is cut out behind the end of the array.
store_users-panics :
    (behind vk : Bytes) (n left id : ℕ) (f : Files)
    → length (vk ++ behind) < (id + left) * n + 64
    → store_users behind vk n id (suc left) f ≡ none
unfolding store_users
store_users-panics behind vk n zero id f h =
    rw
      (slice-short behind (id * n) 64 vk
        (subst (λ (t : ℕ). length (vk ++ behind) < t * n + 64) (add-zero id) h))
      refl
store_users-panics behind vk n (suc left) id f h =
    elim (Option-cases (slice behind (id * n) 64 vk)) [
      | inl none_left ↦ rw none_left refl
      | inr cut ↦ rw cut.1 (
          store_users-panics behind vk n left (suc id) _
            (subst (λ (t : ℕ). length (vk ++ behind) < t * n + 64) (omega arith) h))
    ]

-- Where the array of the public keys of `n + 1` users ends before `n * (n + 1) + 64`, storing them
-- panics: their keys take `(n + 1) * 64` bytes, so that this is any list of more than 64 keys without
-- that much room behind it.
pub store_vk_user-panics :
    (behind vk : Bytes) (n : ℕ) (f : Files)
    → length vk ≡ suc n * 64
    → length (vk ++ behind) < n * suc n + 64
    → store_vk_user behind vk (suc n) f ≡ none
unfolding store_vk_user
store_vk_user-panics behind vk n f h few =
    let whole : (length vk == suc n * 64) ≡ true = ground (arith, h) in
    rw whole (store_users-panics behind vk (suc n) n 0 f (omega (arith, few)))
