-- ===== src/Threshprf/Share/Complete.antt =====
-- A share that a party computes with its key is accepted under the party's public key.
use mathlib.Core.Option.{some}
use mathlib.Core.Path.{subst}
use mathlib.Core.List.{append-nil}
use sleepy_hot_stuff.Base.{
  ℕ, ◌+◌, ◌*◌, ◌%◌, ◌≡◌, ◌≢◌, refl, sym, ap, ◌∙◌, true, false, [], ◌∷◌, ◌++◌, arith, length,
  length-append, Bytes,
}
use sleepy_hot_stuff.Threshprf.Words.{words_at, bytes_of}
use sleepy_hot_stuff.Threshprf.Curve.{Curve, IsGroup, Point, negate, infinity}
use sleepy_hot_stuff.Threshprf.Share.{
  slice, point_bytes, point_of, hash, hashmap_point, transcript, compute_share, verify_share,
  is_empty, same_words_refl,
}
use sleepy_hot_stuff.Threshprf.Share.Parts.{
  challenge_part, front-length, front_part, length-bytes_of, not_empty, num, read_number,
  read_words, response_part, share, x_part, y_part,
}
use sleepy_hot_stuff.Threshprf.Share.Group.{
  base-On, base_opens, hash_total, length-hash, mult_times, opens, point_of-point, z_of,
}

module _ (c : Curve) (group : IsGroup c) where
  -- A share put together from its parts.
  abbrev made : Point → Bytes → Bytes → Bytes
  made sigma cin zin = (bytes_of sigma.0 ++ bytes_of sigma.1) ++ (cin ++ zin)

  -- Verification, with all that it reads out of such a share.
  verify_made :
      (x : ℕ) (behind input cin zin : Bytes) (vk g sigma : Point)
      → group.On vk
      → group.On sigma
      → hashmap_point c (x ∷ input) ≡ some g
      → length cin ≡ 32
      → length zin ≡ 32
      → hash c (
          transcript c
            (bytes_of vk.0)
            (bytes_of vk.1)
            (c.add (c.scalar_base_mult zin) (negate c (c.scalar_mult vk cin)))
            g
            (bytes_of sigma.0 ++ bytes_of sigma.1)
            (c.add (c.scalar_mult g zin) (negate c (c.scalar_mult sigma cin))))
        ≡ some cin
      → verify_share c behind (x ∷ input) (bytes_of vk.0) (bytes_of vk.1) (made sigma cin zin)
        ≡ some true
  unfolding verify_share
  verify_made x behind input cin zin vk g sigma on on' mapped lc lz h =
      let a = bytes_of sigma.0 in
      let b = bytes_of sigma.1 in
      let lx = length-bytes_of sigma.0 in
      let ly = length-bytes_of sigma.1 in
      let vx : is_empty (bytes_of vk.0) ≡ false =
        not_empty _ (omega (arith, length-bytes_of vk.0)) in
      let vy : is_empty (bytes_of vk.1) ≡ false =
        not_empty _ (omega (arith, length-bytes_of vk.1)) in
      let full : is_empty (made sigma cin zin) ≡ false = not_empty _ (
        omega (
          arith,
          length-append (a ++ b) (cin ++ zin),
          front-length behind a b cin zin lx ly lc lz,
        )) in
      let vk_read : point_of (bytes_of vk.0) (bytes_of vk.1) ≡ some vk =
        ap (point_of (bytes_of vk.0)) (sym (append-nil (bytes_of vk.1)))
        ∙ point_of-point c group vk [] on in
      let sigma_read : point_of a b ≡ some sigma =
        ap (point_of a) (sym (append-nil b)) ∙ point_of-point c group sigma [] on' in
      simp
        (
          vx,
          vy,
          full,
          challenge_part behind a b cin zin lx ly lc lz,
          response_part behind a b cin zin lx ly lc lz,
          vk_read,
          mapped,
          front_part behind a b cin zin lx ly lc lz,
          x_part behind a b cin zin lx ly lc lz,
          y_part behind a b cin zin lx ly lc lz,
          sigma_read,
          h,
          read_words cin lc,
          same_words_refl (words_at cin),
        )
        refl

  -- The values of a computation.
  module _ (x : ℕ) (behind input s sk : Bytes) (lk : length sk ≡ 32) (ls : length s ≡ 32) where
    abbrev key : Point
    key = c.scalar_base_mult sk

    abbrev input_hash : Bytes
    input_hash = (hash_total c group (x ∷ input)).0

    abbrev mapped_point : Point
    mapped_point = c.scalar_base_mult input_hash

    abbrev sigma_of : Point
    sigma_of = c.scalar_mult mapped_point sk

    abbrev committed : Bytes
    committed =
        transcript c (bytes_of key.0) (bytes_of key.1) (c.scalar_base_mult s) mapped_point
          (bytes_of sigma_of.0 ++ bytes_of sigma_of.1) (c.scalar_mult mapped_point s)

    abbrev challenge : Bytes
    challenge = (hash_total c group committed).0

    mapped : hashmap_point c (x ∷ input) ≡ some mapped_point
    unfolding hashmap_point
    mapped = rw (hash_total c group (x ∷ input)).1 refl

    challenge_size : length challenge ≡ 32
    challenge_size = length-hash c group committed challenge (hash_total c group committed).1

    mapped-On : group.On mapped_point
    mapped-On =
        base-On c group input_hash
          (length-hash c group (x ∷ input) input_hash (hash_total c group (x ∷ input)).1)

    sigma-On : group.On sigma_of
    sigma-On =
        subst group.On (sym (mult_times c group mapped_point sk mapped-On lk))
          (group.times-On mapped_point (num sk) mapped-On)

    computed :
        compute_share c s (x ∷ input) sk (bytes_of key.0) (bytes_of key.1)
        ≡ some (made sigma_of challenge (z_of c group challenge sk s))
    unfolding compute_share point_bytes
    computed =
        simp
          (
            mapped,
            (hash_total c group committed).1,
            read_number s ls,
            read_number sk lk,
            read_number challenge challenge_size,
          )
          refl

    accepted :
        c.scalar_mult key challenge ≢ infinity
        → c.scalar_mult sigma_of challenge ≢ infinity
        → verify_share c behind
            (x ∷ input)
            (bytes_of key.0)
            (bytes_of key.1)
            (made sigma_of challenge (z_of c group challenge sk s))
          ≡ some true
    accepted ne ne' =
        verify_made x behind input challenge (z_of c group challenge sk s) key mapped_point sigma_of
          (base-On c group sk lk) sigma-On mapped challenge_size (length-bytes_of _)
          (rw
            (
              base_opens c group challenge sk s challenge_size lk ls ne,
              opens c group mapped_point challenge sk s mapped-On challenge_size lk ls ne',
            )
            (hash_total c group committed).1)

    -- From keys and random bytes of 32 bytes, a share is computed, of 128 bytes.
    pub compute_share-total :
        (share : Bytes) × (compute_share c s (x ∷ input) sk (bytes_of key.0) (bytes_of key.1)
          ≡ some share)
        × (length share ≡ 128)
    compute_share-total =
        let z = z_of c group challenge sk s in
        let front = bytes_of sigma_of.0 ++ bytes_of sigma_of.1 in
        (
          made sigma_of challenge z,
          computed,
          omega (
            arith,
            length-append front (challenge ++ z),
            length-append (bytes_of sigma_of.0) (bytes_of sigma_of.1),
            length-append challenge z,
            length-bytes_of sigma_of.0,
            length-bytes_of sigma_of.1,
            length-bytes_of ((num challenge * num sk + num s) % c.n),
            challenge_size,
          ),
        )

    -- On a curve whose points form a group of order `n`: the share that a party computes for an input
    -- with its secret key and random bytes of 32 bytes each is accepted for the input under the public
    -- key, unless the challenge takes the public key or the party's point to infinity.
    pub verify_share-compute_share :
        (share cb : Bytes) (g : Point)
        → compute_share c s
            (x ∷ input)
            sk
            (bytes_of (c.scalar_base_mult sk).0)
            (bytes_of (c.scalar_base_mult sk).1)
          ≡ some share
        → hashmap_point c (x ∷ input) ≡ some g
        → slice behind 64 32 share ≡ some cb
        → c.scalar_mult (c.scalar_base_mult sk) cb ≢ infinity
        → c.scalar_mult (c.scalar_mult g sk) cb ≢ infinity
        → verify_share c behind
            (x ∷ input)
            (bytes_of (c.scalar_base_mult sk).0)
            (bytes_of (c.scalar_base_mult sk).1)
            share
          ≡ some true
    verify_share-compute_share share cb g made_it map_it cut_it ne ne' =
        let z = z_of c group challenge sk s in
        let is_made : made sigma_of challenge z ≡ share = cc (computed, made_it) in
        let is_point : mapped_point ≡ g = cc (mapped, map_it) in
        let cut : slice behind 64 32 (made sigma_of challenge z) ≡ some challenge =
          challenge_part behind (bytes_of sigma_of.0) (bytes_of sigma_of.1) challenge z
            (length-bytes_of sigma_of.0) (length-bytes_of sigma_of.1) challenge_size
            (length-bytes_of _) in
        let is_challenge : challenge ≡ cb = cc (cut, cut_it, is_made) in
        subst
          (λ (t : Bytes).
            verify_share c behind (x ∷ input) (bytes_of key.0) (bytes_of key.1) t ≡ some true)
          is_made
          (accepted (λ h. ne (ap (λ (t : Bytes). c.scalar_mult key t) (sym is_challenge) ∙ h))
            (λ h. ne' (cc (is_point, is_challenge, h))))
