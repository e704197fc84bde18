-- ===== src/Settings.antt =====
-- lib/src/settings.rs: the options a user picks, and `Repo::new_from_settings` of
-- lib/src/config/mod.rs, which makes the configuration of a new repository of them.
pub mod Valid
use rdedup.Base.{
  ℕ, Bytes, Option, none, some, Result, ok, err, panics, ◌>>=◌, invalid_input, ltb, if◌then◌else◌,
  List, [], ◌∷◌, Bool, true, false,
}
use rdedup.Config
use rdedup.Config.{ℤ, PwCrate, SodiumOxide, default_bup_chunk_bits, repo_version_current}
use rdedup.Encryption as Keys
use rdedup.Encryption.{Sodium}
use rdedup.Hashing.{Hashing, blake2b}

pub data Compression : Type 0 where
  deflate xz2 bzip2 zstd no_compression : Compression

unfoldable pub to_config : Compression → ℤ → Config.Compression
to_config deflate level = Config.Compression.deflate level
to_config xz2 level = Config.Compression.xz2 level
to_config bzip2 level = Config.Compression.bzip2 level
to_config zstd level = Config.Compression.zstd level
to_config no_compression level = Config.Compression.no_compression

pub data Encryption : Type 0 where
  curve25519 no_encryption : Encryption

pub data PwHash : Type 0 where
  weak interactive strong : PwHash

-- `settings::Repo`. The fields `chunking` and `nesting` are the numbers their wrappers hold, and
-- `settings::Hashing` has the variants of `config::Hashing`.
pub record Repo : Type 0 where
  pub pwhash : PwHash
  pub encryption : Encryption
  pub compression : Compression
  pub compression_level : ℤ
  pub chunking : Config.Chunking
  pub nesting : ℕ
  pub hashing : Hashing

-- The defaults, with the feature `with-deflate`.
unfoldable pub new : Repo
new = record {
  pwhash = strong;
  encryption = curve25519;
  compression = deflate;
  compression_level = ℤ.pos 0;
  chunking = Config.Chunking.bup default_bup_chunk_bits;
  nesting = 2;
  hashing = blake2b;
}

unwrap_or : Option ℕ → ℕ → ℕ
unwrap_or none d = d
unwrap_or (some n) d = n

-- What the three `use_*_chunking` have in common.
use_chunking : Config.Chunking → Repo → Result (Unit {0}) × Repo
unfolding Config.valid
use_chunking chunking r =
    if Config.valid chunking
    then (ok tt, record r { chunking = chunking })
    else (err invalid_input, r)

unfoldable pub use_bup_chunking : Option ℕ → Repo → Result (Unit {0}) × Repo
unfolding use_chunking unwrap_or
use_bup_chunking bits r =
    use_chunking (Config.Chunking.bup (unwrap_or bits default_bup_chunk_bits)) r

unfoldable pub use_fastcdc_chunking : Option ℕ → Repo → Result (Unit {0}) × Repo
unfolding use_chunking unwrap_or
use_fastcdc_chunking bits r =
    use_chunking (Config.Chunking.fastcdc (unwrap_or bits default_bup_chunk_bits)) r

unfoldable pub use_gear_chunking : Option ℕ → Repo → Result (Unit {0}) × Repo
unfolding use_chunking unwrap_or
use_gear_chunking bits r =
    use_chunking (Config.Chunking.gear (unwrap_or bits default_bup_chunk_bits)) r

unfoldable pub set_nesting : ℕ → Repo → Result (Unit {0}) × Repo
set_nesting level r =
    if ltb 31 level then (err invalid_input, r) else (ok tt, record r { nesting = level })

-- One call of the interface.
pub data Call : Type 0 where
  set_encryption : Encryption → Call
  set_compression : Compression → Call
  set_pwhash : PwHash → Call
  set_compression_level : ℤ → Call
  set_hashing : Hashing → Call
  bup_chunking gear_chunking fastcdc_chunking : Option ℕ → Call
  nesting_of : ℕ → Call

unfoldable pub call : Call → Repo → Result (Unit {0}) × Repo
unfolding use_bup_chunking use_fastcdc_chunking use_gear_chunking set_nesting
call (set_encryption e) r = (ok tt, record r { encryption = e })
call (set_compression c) r = (ok tt, record r { compression = c })
call (set_pwhash p) r = (ok tt, record r { pwhash = p })
call (set_compression_level l) r = (ok tt, record r { compression_level = l })
call (set_hashing h) r = (ok tt, record r { hashing = h })
call (bup_chunking bits) r = use_bup_chunking bits r
call (gear_chunking bits) r = use_gear_chunking bits r
call (fastcdc_chunking bits) r = use_fastcdc_chunking bits r
call (nesting_of level) r = set_nesting level r

-- The settings after the calls, whatever each of them returned.
unfoldable pub after : List Call → Repo → Repo
unfolding call
after [] r = r
after (c ∷ calls) r = after calls (call c r).1

module _ (W : PwCrate) (N : Sodium) where
  -- `PWHash::from_settings`
  unfoldable pub from_settings : PwHash → Bytes → SodiumOxide
  unfolding Config.new_weak Config.new_interactive Config.new_sensitive
  from_settings weak salt = Config.new_weak salt
  from_settings interactive salt = Config.new_interactive W salt
  from_settings strong salt = Config.new_sensitive W salt

  -- The primitives with the key derivation of a configuration.
  abbrev pub with_pwhash : SodiumOxide → Sodium
  with_pwhash so = record N { derive_key = Config.derive_key W so }

  new_encryption :
      Encryption → SodiumOxide → N.Seed → N.Seed → Result Bytes → Result Keys.Encryption
  unfolding Keys.new
  new_encryption no_encryption so s t pass = ok Keys.Encryption.no_encryption
  new_encryption curve25519 so s t pass = do
    c ← Keys.new (with_pwhash so) s t pass
    ok (Keys.Encryption.curve25519 c)

  -- `salt`, `s` and `t` are the draws.
  unfoldable pub new_from_settings :
      Bytes → N.Seed → N.Seed → Result Bytes → Repo → Result Config.Repo
  unfolding from_settings new_encryption
  new_from_settings salt s t pass settings = do
    let pwhash = from_settings settings.pwhash salt
    encryption ← new_encryption settings.encryption pwhash s t pass
    ok (record {
      version = repo_version_current;
      pwhash = pwhash;
      chunking = settings.chunking;
      hashing = settings.hashing;
      compression = to_config settings.compression settings.compression_level;
      encryption = encryption;
      nesting = settings.nesting;
    })
