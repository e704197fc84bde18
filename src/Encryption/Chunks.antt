-- ===== src/Encryption/Chunks.antt =====
-- A chunk that was encrypted decrypts to itself, and other bytes do no harm.
use rdedup.Base.{
  Bool, true, drop, ◌⊎◌, inl, inr, Option-cases, false, ℕ, ◌≤◌, ◌≡◌, refl, ◌∙◌, ap, sym, Bytes,
  length, length-take, length-append, take, take-append, drop-append, some, ok, err, invalid_data,
  [], ◌∷◌, ◌++◌, append-nil, arith, ltb,
}
use rdedup.SgData.{ArcRefs, IsArcRef, SgData, bytes}
use rdedup.SgData
use rdedup.SgData.Laws.{deref-to_linear, bytes-from_many, bytes-from_single}
use rdedup.Encryption.{Sodium, from_slice, slice_to, encrypt, decrypt, decrypt_linear}

-- What the program relies on in the crate `sodiumoxide`.
pub record IsSodium (N : Sodium) : Type 0 where
  pub nonce-le : N.nonce_bytes ≤ 32
  pub length-pub : (s : N.Seed) → length (N.gen_keypair s).0 ≡ N.public_key_bytes
  pub length-sec : (s : N.Seed) → length (N.gen_keypair s).1 ≡ N.secret_key_bytes
  pub unseal-seal :
      (s e : N.Seed) (m n : Bytes)
      → N.unseal
          (N.seal m n (N.gen_keypair s).0 (N.gen_keypair e).1)
          n
          (N.gen_keypair e).0
          (N.gen_keypair s).1
        ≡ some m
  pub secret_unseal-seal : (m n k : Bytes) → N.secret_unseal (N.secret_seal m n k) n k ≡ some m

pub from_slice-eq : (n : ℕ) (x : Bytes) → length x ≡ n → from_slice n x ≡ some x
unfolding from_slice
from_slice-eq n x e = ground (arith, e)

pub slice_to-eq : (n : ℕ) (x : Bytes) → n ≤ length x → slice_to n x ≡ ok (take n x)
unfolding slice_to
slice_to-eq n x h = ground (arith, h)

at_least : (n m : ℕ) → ltb n m ≡ false → m ≤ n
at_least n m e = ground (arith, e)

long_enough : (n m : ℕ) → m ≤ n → ltb n m ≡ false
long_enough n m h = ground arith

module _ (N : Sodium) (K : IsSodium N) (R : ArcRefs) (L : IsArcRef R) where
  decrypt_linear-seal :
      (s e : N.Seed) (m nonce : Bytes)
      → decrypt_linear N R
          (N.gen_keypair s).1
          nonce
          ((N.gen_keypair e).0 ++ N.seal m nonce (N.gen_keypair s).0 (N.gen_keypair e).1)
        ≡ ok (SgData.from_single R m)
  unfolding decrypt_linear
  decrypt_linear-seal s e m nonce =
      let epk = (N.gen_keypair e).0 in
      let cipher = N.seal m nonce (N.gen_keypair s).0 (N.gen_keypair e).1 in
      let size = K.length-pub e in
      rw (
        long_enough (length (epk ++ cipher)) N.public_key_bytes
            (omega (arith, length-append epk cipher, size)),
        slice_to-eq N.public_key_bytes (epk ++ cipher)
            (omega (arith, length-append epk cipher, size)),
        take-append epk cipher N.public_key_bytes (sym size),
        drop-append epk cipher N.public_key_bytes (sym size),
        from_slice-eq N.public_key_bytes epk size,
        K.unseal-seal s e m nonce,
      )

  -- Whatever the ephemeral key, a chunk encrypted for a public key under a digest of 32 bytes
  -- decrypts, read back in any pieces, with the secret key and that digest to the bytes it had.
  pub decrypt-encrypt :
      (s e : N.Seed) (buf : SgData R) (digest : Bytes)
      → length digest ≡ 32
      → (z : SgData R) × (encrypt N R (N.gen_keypair s).0 e buf digest ≡ ok z)
        × ((z' : SgData R)
            → bytes R z' ≡ bytes R z
            → (b : SgData R) × (decrypt N R (N.gen_keypair s).1 z' digest ≡ ok b)
              × (bytes R b ≡ bytes R buf))
  unfolding encrypt decrypt
  decrypt-encrypt s e buf digest h =
      let nonce = take N.nonce_bytes digest in
      let epk = (N.gen_keypair e).0 in
      let linear = R.deref (SgData.to_linear R buf) in
      let cipher = N.seal linear nonce (N.gen_keypair s).0 (N.gen_keypair e).1 in
      let head = slice_to-eq N.nonce_bytes digest (omega (arith, K.nonce-le)) in
      let whole =
        from_slice-eq N.nonce_bytes nonce
          (omega (arith, K.nonce-le, length-take N.nonce_bytes digest)) in
      let stored : bytes R (SgData.from_many R (epk ∷ cipher ∷ [])) ≡ epk ++ cipher =
        bytes-from_many R L (epk ∷ cipher ∷ []) ∙ ap (λ t. epk ++ t) (append-nil cipher) in
      (
        SgData.from_many R (epk ∷ cipher ∷ []),
        rw (head, whole) refl,
        λ z' same. (
          SgData.from_single R linear,
          rw (head, whole)
              (ap (decrypt_linear N R (N.gen_keypair s).1 nonce)
                  (deref-to_linear R L z' ∙ same ∙ stored)
                ∙ decrypt_linear-seal s e linear nonce),
          bytes-from_single R L linear ∙ deref-to_linear R L buf,
        ),
      )

  linear-total :
      (sec_key nonce buf : Bytes) (short : Bool)
      → ltb (length buf) N.public_key_bytes ≡ short
      → ((b : Bytes) × (decrypt_linear N R sec_key nonce buf ≡ ok (SgData.from_single R b))
          × (N.unseal (drop N.public_key_bytes buf) nonce (take N.public_key_bytes buf) sec_key
              ≡ some b))
        ⊎ (decrypt_linear N R sec_key nonce buf ≡ err invalid_data)
  unfolding decrypt_linear
  linear-total sec_key nonce buf true e = inr (rw e refl)
  linear-total sec_key nonce buf false e =
      let enough : N.public_key_bytes ≤ length buf = at_least (length buf) N.public_key_bytes e in
      let key = take N.public_key_bytes buf in
      let head = slice_to-eq N.public_key_bytes buf enough in
      let whole =
        from_slice-eq N.public_key_bytes key
          (omega (arith, enough, length-take N.public_key_bytes buf)) in
      elim (Option-cases (N.unseal (drop N.public_key_bytes buf) nonce key sec_key)) [
        | inl none_opened ↦ inr (rw (e, head, whole, none_opened) refl)
        | inr (b, opened) ↦ inl (b, rw (e, head, whole, opened) refl, opened)
      ]

  -- Whatever bytes are read back for a chunk, too few ones included, and whatever the secret key:
  -- with a digest of 32 bytes decryption does not panic. It gives what the crate opens of the bytes
  -- behind the ephemeral public key, or `InvalidData`.
  pub decrypt-total :
      (sec_key digest : Bytes) (z : SgData R)
      → length digest ≡ 32
      → ((b : Bytes) × (decrypt N R sec_key z digest ≡ ok (SgData.from_single R b))
          × (N.unseal
                (drop N.public_key_bytes (bytes R z))
                (take N.nonce_bytes digest)
                (take N.public_key_bytes (bytes R z))
                sec_key
              ≡ some b))
        ⊎ (decrypt N R sec_key z digest ≡ err invalid_data)
  unfolding decrypt
  decrypt-total sec_key digest z h =
      rw
        (
          slice_to-eq N.nonce_bytes digest (omega (arith, K.nonce-le)),
          from_slice-eq N.nonce_bytes (take N.nonce_bytes digest)
              (omega (arith, K.nonce-le, length-take N.nonce_bytes digest)),
          deref-to_linear R L z,
        )
        (linear-total sec_key (take N.nonce_bytes digest) (bytes R z) _ refl)
