-- ===== src/Examples/Shares.antt =====
-- The theorem on shares, at a group of two points and a hash that is always 1.
use mathlib.Core.Option.{Option, none, some}
use native.Mathlib.Nat.{suc-mul}
use sleepy_hot_stuff.Base.{
  true, ◌++◌, pos, int_eq, ℕ, zero, suc, ◌+◌, ◌*◌, ◌%◌, ◌<◌, ◌≡◌, ◌≢◌, refl, ◌⊎◌, inl, inr, [], ◌∷◌,
  arith, Bytes, ◌^◌, if◌then◌else◌, ◌==◌, if_rule,
}
use sleepy_hot_stuff.Threshprf.Words.{
  Words, bytetostring_256, u64_to_byte_256, bigint_to_u64_256, number_of, bytes_of, byte_to_u64_256,
  words_at, u64_to_bigint_256,
}
use sleepy_hot_stuff.Threshprf.Curve.{Curve, IsGroup, Point, infinity, negate}
use sleepy_hot_stuff.Threshprf.Share.{
  compute_share, hashmap_point, hash, point_bytes, transcript, slice,
}
use sleepy_hot_stuff.Utils.Map
use sleepy_hot_stuff.Utils.Values.{bytes_to_string}
use sleepy_hot_stuff.Threshprf.Keys.{
  store_vk_user, store_vk_user-panics, Files, Node, secret_key, ver_key, keys_from, gen_key_dealer,
  store_keys, store_key_dealer, cut_key, load_both, load_key_from_files,
}
use sleepy_hot_stuff.Threshprf.Prf.{
  compute_prf, compute_prf_from_shares, store_all, compute_prf-store_all,
}
use sleepy_hot_stuff.Threshprf.Node.{
  init_key_dealer, init_key_dealer-zero, compute_share_own, verify_share_node,
  verify_share_node-compute_share_own,
}

-- 32 bytes that are read as 1.
abbrev one : Bytes
one =
    0 ∷ 0 ∷ 0 ∷ 0 ∷ 0 ∷ 0 ∷ 0 ∷ 0 ∷ 0 ∷ 0 ∷ 0 ∷ 0 ∷ 0 ∷ 0 ∷ 0 ∷ 0 ∷ 0 ∷ 0 ∷ 0 ∷ 0 ∷ 0 ∷ 0 ∷ 0 ∷ 0
    ∷ 0 ∷ 0 ∷ 0 ∷ 0 ∷ 0 ∷ 0 ∷ 0 ∷ 1 ∷ []

abbrev point : Point
point = (1, 1)

abbrev times : Point → ℕ → Point
times a k = if k % 2 == 0 then infinity else a

abbrev times_if : Point → Option ℕ → Point
times_if a none = a
times_if a (some k) = times a k

abbrev curve : Curve
curve = record {
  p = 2;
  n = 2;
  g = point;
  scalar_base_mult = λ k. times_if point (number_of k);
  scalar_mult = λ a k. times_if a (number_of k);
  add = λ a b. if a.0 == 0 then b else (if b.0 == 0 then a else infinity);
  sha256 = λ b. one;
}

abbrev On : Point → Type 0
On a = (a ≡ infinity) ⊎ (a ≡ point)

-- A product is even if a factor is.
even : (m k : ℕ) → (if k % 2 == 0 then 0 else m % 2) ≡ (k * m) % 2
even m zero = omega arith
even m (suc zero) = omega arith
even m (suc (suc k)) = ground (arith, even m k, suc-mul (suc k) m, suc-mul k m)

module _ (a b : Point) (m k : ℕ) where
  times-On : On a → On (times a k)
  times-On on = if_rule On (k % 2 == 0) (λ _. inl refl) (λ _. on)

  small : On a → (a.0 < 2 ^ 256) × (a.1 < 2 ^ 256)
  small (inl e) = rw e (omega arith)
  small (inr e) = rw e (omega arith)

  cyclic : times a (m % 2) ≡ times a m
  cyclic = ground arith

  times-times : times (times a m) k ≡ times a (k * m)
  times-times = ground (arith, even m k)

  times-add : On a → times a (m + k) ≡ curve.add (times a k) (times a m)
  times-add (inl e) = rw e (ground arith)
  times-add (inr e) = rw e (ground arith)

  cancel : On a → On b → b ≢ infinity → curve.add (curve.add a b) (negate curve b) ≡ a
  cancel on (inl e) ne = absurd (ne e)
  cancel (inl e) (inr f) ne = rw (e, f) refl
  cancel (inr e) (inr f) ne = rw (e, f) refl

group : IsGroup curve
group = record {
  On = On;
  times = times;
  base = inr refl;
  times-On = λ a k on. times-On a a k k on;
  small = λ a on. small a a 0 0 on;
  order = omega arith;
  mult = λ a k m on e. rw e refl;
  base_mult = λ k m e. rw e refl;
  cyclic = λ a m on. cyclic a a m m;
  times-times = λ a m k on. times-times a a m k;
  times-add = λ a m k on. times-add a a m k on;
  cancel = λ a b on on' ne. cancel a b 0 0 on on' ne;
  digest = λ b. refl;
}

-- The point, its multiple by the key 1, the challenge 1, and the response 1 * 1 + 1 mod 2.
abbrev share : Bytes
share = point_bytes point ++ (one ++ bytes_of 0)

-- The dealer's polynomial is the constant 1, so that both parties have the key 1.
abbrev constant : Words
constant = record { w0 = 1; w1 = 0; w2 = 0; w3 = 0 }

abbrev no_files : Files
no_files = record { shares = []; ver_keys = []; sec_keys = [] }

abbrev ver_file : Bytes
ver_file = bytes_of 1 ++ bytes_of 1

abbrev files : Files
files = record {
  shares = [];
  ver_keys = (pos 0, ver_file) ∷ (pos 1, ver_file) ∷ [];
  sec_keys = (pos 0, bytes_of 1) ∷ (pos 1, bytes_of 1) ∷ [];
}

abbrev no_keys : Node
no_keys = record { nsk = none; nvkx = none; nvky = none }

abbrev keys : Node
keys = record { nsk = some (bytes_of 1); nvkx = some (bytes_of 1); nvky = some (bytes_of 1) }

-- Files are read to a buffer with two more bytes.
abbrev read_buffer : Bytes → Bytes
read_buffer b = 0 ∷ 0 ∷ []

verify_share_node-compute_share_own_example :
    verify_share_node curve read_buffer [] (7 ∷ []) (pos 1) share files ≡ some true
unfolding number_of byte_to_u64_256 words_at u64_to_bigint_256 compute_share hashmap_point hash
    bytetostring_256 u64_to_byte_256 point_bytes transcript bytes_of slice bigint_to_u64_256
    init_key_dealer gen_key_dealer store_key_dealer load_key_from_files compute_share_own keys_from
    store_keys ver_key secret_key Map.insert Map.get load_both cut_key bytes_to_string
verify_share_node-compute_share_own_example =
    verify_share_node-compute_share_own curve group read_buffer 2 1 7 constant [] no_files files
      no_keys keys [] [] one share one point (omega arith) refl refl refl refl refl refl (λ h. cc)
      (λ h. cc)

compute_prf-store_all_example :
    compute_prf curve
      (λ n. n)
      read_buffer
      (store_all ((pos 1, (share, 5 ∷ [])) ∷ []) no_files)
      (pos 1 ∷ [])
      1
    ≡ compute_prf_from_shares curve (λ n. n) (pos 1 ∷ []) 1 ((share, 5 ∷ []) ∷ [])
unfolding bytes_of u64_to_byte_256 point_bytes Map.contains
compute_prf-store_all_example =
    compute_prf-store_all curve (λ n. n) read_buffer no_files ((pos 1, (share, 5 ∷ [])) ∷ []) 1
      (refl, tt) (refl, tt)

-- Party 0 has the constant 1 for its key.
init_key_dealer-zero_example :
    Map.get (pos 0) files.sec_keys ≡ some (bytes_of (u64_to_bigint_256 constant % 2))
unfolding init_key_dealer gen_key_dealer store_key_dealer keys_from store_keys ver_key secret_key
    number_of byte_to_u64_256 words_at u64_to_bigint_256 u64_to_byte_256 bytes_of bigint_to_u64_256
    Map.insert
init_key_dealer-zero_example =
    init_key_dealer-zero curve 2 constant [] no_files files (omega arith) refl

abbrev zeros : ℕ → Bytes
zeros zero = []
zeros (suc n) = 0 ∷ zeros n

-- The keys of 65 users, with room for 60 more bytes behind them.
store_vk_user-panics_example : store_vk_user (zeros 60) (zeros 4160) 65 no_files ≡ none
store_vk_user-panics_example =
    store_vk_user-panics (zeros 60) (zeros 4160) 64 no_files refl (omega arith)
