-- ===== src/Settings/Valid.antt =====
-- Settings stay valid, and a repository that is made of them can be read.
use rdedup.Encryption.Keys.{Opens, unseal_decrypt-new}
use rdedup.Base.{
  ℕ, Bytes, ◌≤◌, ◌≡◌, refl, ok, List, [], ◌∷◌, Bool-cases, ltb, inl, inr, true, arith, length,
}
use rdedup.Config
use rdedup.Config.{
  PwCrate, SodiumOxide, default_bup_chunk_bits, repo_version_current, derive_key, valid,
}
use rdedup.Encryption as Keys
use rdedup.Encryption.{Sodium}
use rdedup.Settings
use rdedup.Encryption.Chunks.{IsSodium}
use rdedup.Settings.{
  to_config, with_pwhash, from_settings, Repo, Call, call, after, use_chunking, use_bup_chunking,
  use_fastcdc_chunking, use_gear_chunking, set_nesting, new_from_settings, new_encryption,
  unwrap_or,
}

abbrev pub IsValid : Repo → Type 0
IsValid r = (valid r.chunking ≡ true) × (r.nesting ≤ 31)

use_chunking-IsValid : (c : Config.Chunking) (r : Repo) → IsValid r → IsValid (use_chunking c r).1
unfolding use_chunking
use_chunking-IsValid c r (v, n) = elim (Bool-cases (valid c)) [
  | inl v' ↦ rw v' (v', n)
  | inr w ↦ rw w (v, n)
]

set_nesting-IsValid : (level : ℕ) (r : Repo) → IsValid r → IsValid (set_nesting level r).1
unfolding set_nesting
set_nesting-IsValid level r (v, n) = elim (Bool-cases (ltb 31 level)) [
  | inl w ↦ rw w (v, n)
  | inr w ↦ rw w (v, ground (arith, w))
]

call-IsValid : (c : Call) (r : Repo) → IsValid r → IsValid (call c r).1
unfolding call use_bup_chunking use_gear_chunking use_fastcdc_chunking set_nesting
call-IsValid (Call.set_encryption e) r v = v
call-IsValid (Call.set_compression c) r v = v
call-IsValid (Call.set_pwhash p) r v = v
call-IsValid (Call.set_compression_level l) r v = v
call-IsValid (Call.set_hashing h) r v = v
call-IsValid (Call.bup_chunking bits) r v =
    use_chunking-IsValid (Config.Chunking.bup (unwrap_or bits default_bup_chunk_bits)) r v
call-IsValid (Call.gear_chunking bits) r v =
    use_chunking-IsValid (Config.Chunking.gear (unwrap_or bits default_bup_chunk_bits)) r v
call-IsValid (Call.fastcdc_chunking bits) r v =
    use_chunking-IsValid (Config.Chunking.fastcdc (unwrap_or bits default_bup_chunk_bits)) r v
call-IsValid (Call.nesting_of level) r v = set_nesting-IsValid level r v

pub after-IsValid : (calls : List Call) (r : Repo) → IsValid r → IsValid (after calls r)
unfolding after
after-IsValid [] r v = v
after-IsValid (c ∷ calls) r v = after-IsValid calls (call c r).1 (call-IsValid c r v)

-- A key of 32 bytes is derived from the passphrase.
abbrev pub Derives : PwCrate → SodiumOxide → Bytes → Type 0
Derives W so p = (k : Bytes) × (derive_key W so p ≡ ok k) × (length k ≡ 32)

module _ (W : PwCrate) (N : Sodium) (K : IsSodium N) where
  pub with_pwhash-IsSodium : (so : SodiumOxide) → IsSodium (with_pwhash W N so)
  with_pwhash-IsSodium so = record {
    nonce-le = K.nonce-le;
    length-pub = K.length-pub;
    length-sec = K.length-sec;
    unseal-seal = K.unseal-seal;
    secret_unseal-seal = K.secret_unseal-seal;
  }

module _ (W : PwCrate) (N : Sodium) (K : IsSodium N) (p : Bytes) where
  -- The passphrase opens the secret key, if there is one.
  abbrev pub Unlocks : SodiumOxide → Keys.Encryption → Type 0
  Unlocks so Keys.Encryption.no_encryption = Unit
  Unlocks so (Keys.Encryption.curve25519 c) =
      (sec_key : Bytes) × Opens (with_pwhash W N so) (with_pwhash-IsSodium W N K so) c p sec_key
      × (length sec_key ≡ N.secret_key_bytes)

  new_encryption-Unlocks :
      (e : Settings.Encryption) (so : SodiumOxide) (s t : N.Seed)
      → Derives W so p
      → (enc : Keys.Encryption) × (new_encryption W N e so s t (ok p) ≡ ok enc) × Unlocks so enc
  unfolding new_encryption
  new_encryption-Unlocks Settings.Encryption.no_encryption so s t derives =
      (Keys.Encryption.no_encryption, refl, tt)
  new_encryption-Unlocks Settings.Encryption.curve25519 so s t (k, e, size) =
      let (c, made, public, opens) =
        unseal_decrypt-new (with_pwhash W N so) (with_pwhash-IsSodium W N K so) s t p k e size in
      (Keys.Encryption.curve25519 c, rw made refl, ((N.gen_keypair s).1, opens, K.length-sec s))

  -- What is made of settings can be read, and is opened by its passphrase.
  pub new_from_settings-Unlocks :
      (r : Repo) (salt : Bytes) (s t : N.Seed)
      → Derives W (from_settings W N r.pwhash salt) p
      → (config : Config.Repo) × (new_from_settings W N salt s t (ok p) r ≡ ok config)
        × ((config.version ≡ repo_version_current)
            × (config.pwhash ≡ from_settings W N r.pwhash salt))
        × Unlocks config.pwhash config.encryption
  unfolding new_from_settings
  new_from_settings-Unlocks r salt s t derives =
      let so = from_settings W N r.pwhash salt in
      let (enc, made, unlocks) = new_encryption-Unlocks r.encryption so s t derives in
      (
        record {
          version = repo_version_current;
          pwhash = so;
          chunking = r.chunking;
          hashing = r.hashing;
          compression = to_config r.compression r.compression_level;
          encryption = enc;
          nesting = r.nesting;
        },
        rw made refl,
        (refl, refl),
        unlocks,
      )
