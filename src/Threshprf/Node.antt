-- ===== src/Threshprf/Node.antt =====
-- prf_p256.go: a node with the keys that the dealer has stored for it.
use mathlib.Core.Option.{Option, some}
use mathlib.Core.List.{append-nil}
use sleepy_hot_stuff.Base.{
  ℕ, zero, suc, ◌+◌, ◌%◌, ◌<◌, ◌≡◌, ◌≢◌, refl, sym, ap, ◌∙◌, Bool, true, ◌&&◌, List, [], ◌∷◌, ◌++◌,
  arith, ltb, leb, if◌then◌else◌, length, Bytes, ℤ, pos, int_eq,
}
use sleepy_hot_stuff.Utils.Map
use sleepy_hot_stuff.Utils.Values.{bytes_to_string}
use sleepy_hot_stuff.Threshprf.Words.{
  ◌>>=◌, Words, u64_to_bigint_256, bytes_of, bigint_to_u64_256, u64_to_byte_256,
}
use sleepy_hot_stuff.Threshprf.Curve.{Curve, IsGroup, Point, infinity}
use sleepy_hot_stuff.Threshprf.Share.{slice, hashmap_point, compute_share, verify_share}
use sleepy_hot_stuff.Threshprf.Share.Parts.{slice-middle, length-bytes_of}
use sleepy_hot_stuff.Threshprf.Share.Complete.{verify_share-compute_share}
use sleepy_hot_stuff.Threshprf.Keys.{
  Files, Node, VerKey, secret_key, secret_key-zero, ver_key, keys_from, gen_key_dealer, store_keys,
  store_key_dealer, cut_key, load_both, load_vk_from_files, load_key_from_files,
}

one_more :
    (entry : ℕ → Bytes) (i left j : ℕ) (m : Map.Map ℤ Bytes)
    → ◌≡◌ {A = Option Bytes}
        (if leb (suc i) j && ltb j (suc i + left)
          then some (entry j)
          else Map.get (pos j) (Map.insert (pos i) (entry i) m))
        (if leb i j && ltb j (i + suc left) then some (entry j) else Map.get (pos j) m)
one_more entry i left j m = ground (arith, Map.get-insert (pos i) (pos j) (entry i) m)

all_keys :
    (n : ℕ) (vks : List VerKey) (sks : List Words) (f : Files)
    → length vks ≡ n
    → length sks ≡ n
    → store_key_dealer vks sks n f ≡ store_keys 0 vks sks f
unfolding store_key_dealer
all_keys n vks sks f h k = ground arith

in_range : (i n : ℕ) (x y : Option Bytes) → i < n → (if leb 0 i && ltb i (0 + n) then x else y) ≡ x
in_range i n x y h = ground arith

module _ (c : Curve) where
  unfoldable pub init_key_dealer : ℕ → List Words → Files → Option Files
  init_key_dealer n ra f =
      gen_key_dealer c n ra >>= λ keys. some (store_key_dealer keys.0 keys.1 n f)

  unfoldable pub compute_share_own : Bytes → Bytes → Node → Option Bytes
  compute_share_own s input node =
      compute_share c s input (bytes_to_string node.nsk) (bytes_to_string node.nvkx)
        (bytes_to_string node.nvky)

  -- `read_buffer` is what lies behind the contents of a file in the buffer that it is read to.
  unfoldable pub verify_share_node :
      (Bytes → Bytes) → Bytes → Bytes → ℤ → Bytes → Files → Option Bool
  verify_share_node read_buffer behind input nodeid share f =
      load_vk_from_files read_buffer nodeid f >>= λ v.
      verify_share c behind input (bytes_to_string v.0) (bytes_to_string v.1) share

  -- The keys that the dealer makes for party `i`.
  abbrev sec_bytes : ℕ → Words → List Words → Bytes
  sec_bytes i a rest = bytes_of (secret_key c i a rest)

  abbrev key_point : ℕ → Words → List Words → Point
  key_point i a rest = c.scalar_base_mult (sec_bytes i a rest)

  abbrev ver_bytes : ℕ → Words → List Words → Bytes
  ver_bytes i a rest = bytes_of (key_point i a rest).0 ++ bytes_of (key_point i a rest).1

  length-keys_from :
      (i left : ℕ) (a : Words) (rest : List Words)
      → (length (keys_from c i left a rest).0 ≡ left)
        × (length (keys_from c i left a rest).1 ≡ left)
  unfolding keys_from
  length-keys_from i zero a rest = (refl, refl)
  length-keys_from i (suc left) a rest =
      let h = length-keys_from (suc i) left a rest in (ap suc h.0, ap suc h.1)

  -- The keys that are stored for the parties from `i` on, before which others may be there.
  stored :
      (i left j : ℕ) (a : Words) (rest : List Words) (f : Files)
      → (Map.get
            (pos j)
            (store_keys i (keys_from c i left a rest).0 (keys_from c i left a rest).1 f).ver_keys
          ≡ (if leb i j && ltb j (i + left)
              then some (ver_bytes j a rest)
              else Map.get (pos j) f.ver_keys))
        × (Map.get
              (pos j)
              (store_keys i (keys_from c i left a rest).0 (keys_from c i left a rest).1 f).sec_keys
            ≡ (if leb i j && ltb j (i + left)
                then some (sec_bytes j a rest)
                else Map.get (pos j) f.sec_keys))
  unfolding keys_from store_keys ver_key bytes_of
  stored i zero j a rest f = ground arith
  stored i (suc left) j a rest f =
      let sk = bigint_to_u64_256 (secret_key c i a rest) in
      let v = ver_key c sk in
      let f' : Files = record f {
        ver_keys = Map.insert (pos i) (u64_to_byte_256 v.0 ++ u64_to_byte_256 v.1) f.ver_keys;
        sec_keys = Map.insert (pos i) (u64_to_byte_256 sk) f.sec_keys;
      } in
      let h = stored (suc i) left j a rest f' in
      (
        h.0 ∙ one_more (λ k. ver_bytes k a rest) i left j f.ver_keys,
        h.1 ∙ one_more (λ k. sec_bytes k a rest) i left j f.sec_keys,
      )

  stored_all :
      (n : ℕ) (a : Words) (rest : List Words) (f : Files)
      → init_key_dealer (suc n) (a ∷ rest) f
        ≡ some (store_keys 0 (keys_from c 0 (suc n) a rest).0 (keys_from c 0 (suc n) a rest).1 f)
  unfolding init_key_dealer gen_key_dealer
  stored_all n a rest f =
      let l = length-keys_from 0 (suc n) a rest in ap some (all_keys (suc n) _ _ f l.0 l.1)

  -- The files of a party, after the dealer has stored the keys of `n` parties.
  dealt :
      (n i : ℕ) (a : Words) (rest : List Words) (f f' : Files)
      → i < n
      → init_key_dealer n (a ∷ rest) f ≡ some f'
      → (Map.get (pos i) f'.ver_keys ≡ some (ver_bytes i a rest))
        × (Map.get (pos i) f'.sec_keys ≡ some (sec_bytes i a rest))
  dealt zero i a rest f f' h e = absurd (omega (arith, h))
  dealt (suc n) i a rest f f' h e =
      let s = stored 0 (suc n) i a rest f in
      let all : store_keys 0 (keys_from c 0 (suc n) a rest).0 (keys_from c 0 (suc n) a rest).1 f
          ≡ f' =
        cc (e, stored_all n a rest f) in
      (
        ap (λ (t : Files). Map.get (pos i) t.ver_keys) (sym all) ∙ (s.0 ∙ in_range i (suc n) _ _ h),
        ap (λ (t : Files). Map.get (pos i) t.sec_keys) (sym all) ∙ (s.1 ∙ in_range i (suc n) _ _ h),
      )

  -- Of any number of parties, party 0 gets the constant coefficient of the dealer's polynomial, reduced,
  -- as its secret key: its value at 0, which is the secret that the keys of all parties share.
  pub init_key_dealer-zero :
      (n : ℕ) (a : Words) (rest : List Words) (f f' : Files)
      → 0 < n
      → init_key_dealer n (a ∷ rest) f ≡ some f'
      → Map.get (pos 0) f'.sec_keys ≡ some (bytes_of (u64_to_bigint_256 a % c.n))
  init_key_dealer-zero n a rest f f' h e =
      (dealt n 0 a rest f f' h e).1 ∙ ap (λ (k : ℕ). some (bytes_of k)) (secret_key-zero c a rest)

  loaded :
      (read_buffer : Bytes → Bytes) (f : Files) (id : ℤ) (node : Node) (sk x y : Bytes)
      → length x ≡ 32
      → length y ≡ 32
      → Map.get id f.sec_keys ≡ some sk
      → Map.get id f.ver_keys ≡ some (x ++ y)
      → (load_key_from_files read_buffer id f node
          ≡ some (record { nsk = some sk; nvkx = some x; nvky = some y }, true))
        × (load_vk_from_files read_buffer id f ≡ some (some x, some y))
  unfolding load_key_from_files load_vk_from_files load_both cut_key
  loaded read_buffer f id node sk x y lx ly hs hv =
      let first : slice (read_buffer (x ++ y)) 0 32 (x ++ y) ≡ some x =
        slice-middle (read_buffer (x ++ y)) [] x y 0 32 refl lx in
      let second : slice (read_buffer (x ++ y)) 32 32 (x ++ y) ≡ some y =
        ap (λ (t : Bytes). slice (read_buffer (x ++ y)) 32 32 (x ++ t)) (sym (append-nil y))
        ∙ slice-middle (read_buffer (x ++ y)) x y [] 32 32 lx ly in
      (rw (hs, hv, first, second) refl, rw (hv, first, second) refl)

  -- On a curve whose points form a group of order `n`: after the dealer has stored the keys of the
  -- parties, a party that loads its keys from the files, and computes a share for an input with them
  -- and 32 random bytes, has its share accepted by whoever verifies it with the files, unless the
  -- challenge takes the party's public key or its point to infinity.
  pub verify_share_node-compute_share_own :
      (group : IsGroup c) (read_buffer : Bytes → Bytes) (n i x : ℕ) (a : Words) (rest : List Words)
      (f f' : Files) (node own : Node) (behind input s share cb : Bytes) (g : Point)
      → i < n
      → length s ≡ 32
      → init_key_dealer n (a ∷ rest) f ≡ some f'
      → load_key_from_files read_buffer (pos i) f' node ≡ some (own, true)
      → compute_share_own s (x ∷ input) own ≡ some share
      → hashmap_point c (x ∷ input) ≡ some g
      → slice behind 64 32 share ≡ some cb
      → c.scalar_mult (key_point i a rest) cb ≢ infinity
      → c.scalar_mult (c.scalar_mult g (sec_bytes i a rest)) cb ≢ infinity
      → verify_share_node read_buffer behind (x ∷ input) (pos i) share f' ≡ some true
  unfolding compute_share_own verify_share_node bytes_to_string
  verify_share_node-compute_share_own group read_buffer n i x a rest f f' node own behind input s
        share cb g h ls e k made mapped cut ne ne' =
      let d = dealt n i a rest f f' h e in
      let l =
        loaded read_buffer f' (pos i) node (sec_bytes i a rest) (bytes_of (key_point i a rest).0)
          (bytes_of (key_point i a rest).1) (length-bytes_of _) (length-bytes_of _) d.1 d.0 in
      let same : record {
        nsk = some (sec_bytes i a rest);
        nvkx = some (bytes_of (key_point i a rest).0);
        nvky = some (bytes_of (key_point i a rest).1);
      }
          ≡ own =
        cc (l.0, k) in
      rw (l.1) (
        verify_share-compute_share c group x behind input s (sec_bytes i a rest) (length-bytes_of _)
          ls share cb g (ap (compute_share_own s (x ∷ input)) same ∙ made) mapped cut ne ne')
