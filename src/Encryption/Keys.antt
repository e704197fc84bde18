-- ===== src/Encryption/Keys.antt =====
-- The secret key behind a passphrase, before and after the passphrase is changed.
use rdedup.Base.{
  sym, err, ErrorKind, ℕ, ◌≡◌, refl, ◌∙◌, ap, Bytes, length, take, take-append, append-nil, Result,
  ok, arith, [],
}
use rdedup.Encryption.{Sodium, Curve25519, derived_key, new, unseal_decrypt, change_passphrase}
use rdedup.Encryption.Chunks.{IsSodium, from_slice-eq, slice_to-eq}

module _ (N : Sodium) (K : IsSodium N) where
  take_all : (k : Bytes) (n : ℕ) → length k ≡ n → take n k ≡ k
  take_all k n e = ap (take n) (sym (append-nil k)) ∙ take-append k [] n (sym e)

  derived_key-eq : (p k : Bytes) → N.derive_key p ≡ ok k → length k ≡ 32 → derived_key N p ≡ ok k
  unfolding derived_key
  derived_key-eq p k e h =
      rw (e, slice_to-eq 32 k (omega arith), take_all k 32 h, from_slice-eq 32 k h)

  -- The secret key under a passphrase.
  abbrev pub Opens : Curve25519 → Bytes → Bytes → Type 0
  Opens c passphrase sec_key = unseal_decrypt N c (ok passphrase) ≡ ok sec_key

  unseal_decrypt-seal :
      (c : Curve25519) (p k sec_key : Bytes)
      → N.derive_key p ≡ ok k
      → length k ≡ 32
      → length sec_key ≡ N.secret_key_bytes
      → c.sealed_sec_key ≡ N.secret_seal sec_key c.nonce k
      → Opens c p sec_key
  unfolding unseal_decrypt
  unseal_decrypt-seal c p k sec_key e h size sealed = rw (
    derived_key-eq p k e h,
    sealed,
    K.secret_unseal-seal,
    from_slice-eq N.secret_key_bytes sec_key size,
  )

  -- A key pair that was made under a passphrase is opened by it: the secret key comes out that
  -- belongs to the public one.
  pub unseal_decrypt-new :
      (s t : N.Seed) (p k : Bytes)
      → N.derive_key p ≡ ok k
      → length k ≡ 32
      → (c : Curve25519) × (new N s t (ok p) ≡ ok c)
        × (c.pub_key ≡ (N.gen_keypair s).0)
        × Opens c p (N.gen_keypair s).1
  unfolding new
  unseal_decrypt-new s t p k e h =
      let c : Curve25519 = record {
        sealed_sec_key = N.secret_seal (N.gen_keypair s).1 (N.gen_nonce t) k;
        pub_key = (N.gen_keypair s).0;
        nonce = N.gen_nonce t;
      } in
      (
        c,
        rw (derived_key-eq p k e h) refl,
        refl,
        unseal_decrypt-seal c p k _ e h (K.length-sec s) refl,
      )

  -- After the passphrase is changed, the new one opens the secret key that the old one opened; the
  -- public key and the nonce stay.
  pub change_passphrase-unseal :
      (c : Curve25519) (p q k sec_key : Bytes)
      → Opens c p sec_key
      → length sec_key ≡ N.secret_key_bytes
      → N.derive_key q ≡ ok k
      → length k ≡ 32
      → (c' : Curve25519) × (change_passphrase N c (ok p) (ok q) ≡ ok c')
        × Opens c' q sec_key
        × (c'.pub_key ≡ c.pub_key)
        × (c'.nonce ≡ c.nonce)
  unfolding change_passphrase
  change_passphrase-unseal c p q k sec_key opens size e h =
      let c' : Curve25519 = record c { sealed_sec_key = N.secret_seal sec_key c.nonce k } in
      (
        c',
        rw (opens, derived_key-eq q k e h) refl,
        unseal_decrypt-seal c' q k sec_key e h size refl,
        refl,
        refl,
      )

  -- A passphrase that does not open the key changes nothing: the error is passed on.
  change_passphrase-err :
      (c : Curve25519) (p : Bytes) (q : Result Bytes) (x : ErrorKind)
      → unseal_decrypt N c (ok p) ≡ err x
      → change_passphrase N c (ok p) q ≡ err x
  unfolding change_passphrase
  change_passphrase-err c p q x e = rw e refl
