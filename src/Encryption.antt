-- ===== src/Encryption.antt =====
-- lib/src/encryption.rs and lib/src/config/encryption.rs: keys behind a passphrase, and the
-- encryption of chunks. The primitives of the crate `sodiumoxide` are parameters.
pub mod Chunks
pub mod Keys
use rdedup.Base.{
  ℕ, Bytes, length, take, drop, Option, none, some, Result, ok, err, panics, ◌>>=◌, ◌>>◌, ok_or,
  expect, invalid_data, List, [], ◌∷◌, ltb, leb, ◌==◌, if◌then◌else◌,
}
use rdedup.SgData.{ArcRefs, SgData}
use rdedup.SgData

-- Keys, nonces and texts are their bytes. Where the crate draws random numbers, they are the
-- argument `Seed`.
pub record Sodium : Type 1 where
  pub Seed : Type 0
  pub nonce_bytes : ℕ
  pub public_key_bytes : ℕ
  pub secret_key_bytes : ℕ
  pub gen_keypair : Seed → Bytes × Bytes
  pub seal : Bytes → Bytes → Bytes → Bytes → Bytes
  pub unseal : Bytes → Bytes → Bytes → Bytes → Option Bytes
  pub gen_nonce : Seed → Bytes
  pub secret_seal : Bytes → Bytes → Bytes → Bytes
  pub secret_unseal : Bytes → Bytes → Bytes → Option Bytes
  pub derive_key : Bytes → Result Bytes

-- `T::from_slice`, for a type of that many bytes.
unfoldable pub from_slice : ℕ → Bytes → Option Bytes
from_slice n x = if length x == n then some x else none

-- `&x[..n]` panics if `x` is shorter.
unfoldable pub slice_to : ℕ → Bytes → Result Bytes
slice_to n x = if leb n (length x) then ok (take n x) else panics

-- The traits `Encrypter` and `Decrypter`.
pub record Encrypter (R : ArcRefs) (Seed : Type 0) : Type 0 where
  pub encrypt : Seed → SgData R → Bytes → Result (SgData R)

pub record Decrypter (R : ArcRefs) : Type 0 where
  pub decrypt : SgData R → Bytes → Result (SgData R)

-- `Curve25519`, the encryption part of a repository's configuration.
pub record Curve25519 : Type 0 where
  pub sealed_sec_key : Bytes
  pub pub_key : Bytes
  pub nonce : Bytes

-- `config::Encryption`
pub data Encryption : Type 0 where
  no_encryption : Encryption
  curve25519 : Curve25519 → Encryption

module _ (N : Sodium) where
  open N use {
    Seed, nonce_bytes, public_key_bytes, secret_key_bytes, gen_keypair, seal, unseal, gen_nonce,
    secret_seal, secret_unseal, derive_key,
  }

  -- `secretbox::Key::from_slice(&pwhash.derive_key(..)?[..32]).unwrap()`
  unfoldable pub derived_key : Bytes → Result Bytes
  derived_key passphrase = do
    key ← derive_key passphrase
    head ← slice_to 32 key
    expect (from_slice 32 head)

  -- `Curve25519::new`: `s` and `t` are the two draws, and the passphrase is what the user gave.
  unfoldable pub new : Seed → Seed → Result Bytes → Result Curve25519
  new s t passphrase_f = do
    let (pk, sk) = gen_keypair s
    passphrase ← passphrase_f
    let nonce = gen_nonce t
    key ← derived_key passphrase
    ok (record { sealed_sec_key = secret_seal sk nonce key; pub_key = pk; nonce = nonce })

  unfoldable pub unseal_decrypt : Curve25519 → Result Bytes → Result Bytes
  unseal_decrypt c passphrase_f = do
    passphrase ← passphrase_f
    key ← derived_key passphrase
    plain_seckey ← ok_or invalid_data (secret_unseal c.sealed_sec_key c.nonce key)
    ok_or invalid_data (from_slice secret_key_bytes plain_seckey)

  unfoldable pub change_passphrase : Curve25519 → Result Bytes → Result Bytes → Result Curve25519
  change_passphrase c old_p new_p = do
    sec_key ← unseal_decrypt c old_p
    new_passphrase ← new_p
    key ← derived_key new_passphrase
    ok (record c { sealed_sec_key = secret_seal sec_key c.nonce key })

  module _ (R : ArcRefs) where
    -- `Curve25519Encrypter`
    unfoldable pub encrypt : Bytes → Seed → SgData R → Bytes → Result (SgData R)
    encrypt pub_key seed buf digest = do
      head ← slice_to nonce_bytes digest
      nonce ← expect (from_slice nonce_bytes head)
      let (ephemeral_pub, ephemeral_sec) = gen_keypair seed
      let cipher = seal (R.deref (SgData.to_linear R buf)) nonce pub_key ephemeral_sec
      ok (SgData.from_many R (ephemeral_pub ∷ cipher ∷ []))

    unfoldable pub decrypt_linear : Bytes → Bytes → Bytes → Result (SgData R)
    decrypt_linear sec_key nonce buf =
        if ltb (length buf) public_key_bytes then err invalid_data else do
          head ← slice_to public_key_bytes buf
          ephemeral_pub ← ok_or invalid_data (from_slice public_key_bytes head)
          plain ←
              ok_or invalid_data (unseal (drop public_key_bytes buf) nonce ephemeral_pub sec_key)
          ok (SgData.from_single R plain)

    -- `Curve25519Decrypter`
    unfoldable pub decrypt : Bytes → SgData R → Bytes → Result (SgData R)
    decrypt sec_key buf digest = do
      head ← slice_to nonce_bytes digest
      nonce ← expect (from_slice nonce_bytes head)
      decrypt_linear sec_key nonce (R.deref (SgData.to_linear R buf))

    -- `EncryptionEngine::encrypter`, which asks for no passphrase.
    unfoldable pub encrypter : Encryption → Result (Encrypter R Seed)
    encrypter no_encryption = ok (record { encrypt = λ seed buf digest. ok buf })
    encrypter (curve25519 c) = ok (record { encrypt = encrypt c.pub_key })

    -- `EncryptionEngine::decrypter`
    unfoldable pub decrypter : Encryption → Result Bytes → Result (Decrypter R)
    decrypter no_encryption pass = ok (record { decrypt = λ buf digest. ok buf })
    decrypter (curve25519 c) pass = do
      key ← unseal_decrypt c pass
      ok (record { decrypt = decrypt key })

  -- `change_passphrase` of the enum passes the call on.
  unfoldable pub change_passphrase_any :
      Encryption → Result Bytes → Result Bytes → Result Encryption
  change_passphrase_any no_encryption old_p new_p = ok no_encryption
  change_passphrase_any (curve25519 c) old_p new_p = do
    c' ← change_passphrase c old_p new_p
    ok (curve25519 c')
