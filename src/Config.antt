-- ===== src/Config.antt =====
-- lib/src/config: the configuration of a repository, and lib/src/pwhash.rs: the key that is made
-- from a passphrase. Primitives and limits of the crate `sodiumoxide` are a parameter.
use rdedup.Base.{
  ℕ, Bytes, Option, none, some, Bool, ◌&&◌, Result, ok, err, invalid_data, ltb, leb, if◌then◌else◌,
}
use rdedup.Encryption.{Encryption}
use rdedup.Hashing.{Hashing}

-- `i32`
pub data ℤ : Type 0 where
  pos negsuc : ℕ → ℤ

abbrev pub repo_version_lowest : ℕ
repo_version_lowest = 3

abbrev pub repo_version_current : ℕ
repo_version_current = 3

abbrev pub default_bup_chunk_bits : ℕ
default_bup_chunk_bits = 17

-- `config::Chunking`
pub data Chunking : Type 0 where
  bup gear fastcdc : ℕ → Chunking

abbrev pub chunk_bits : Chunking → ℕ
chunk_bits (bup bits) = bits
chunk_bits (gear bits) = bits
chunk_bits (fastcdc bits) = bits

unfoldable pub valid : Chunking → Bool
valid c = leb (chunk_bits c) 30 && leb 10 (chunk_bits c)

-- `config::Compression`, with the features of all engines; the argument is the level.
pub data Compression : Type 0 where
  deflate xz2 bzip2 zstd : ℤ → Compression
  no_compression : Compression

-- The functions and constants of `sodiumoxide::crypto::pwhash`. `derive_key` is given the operation
-- limit, the memory limit, the salt and the passphrase, and fills a key of 32 bytes or fails.
pub record PwCrate : Type 0 where
  pub ops_interactive : ℕ
  pub mem_interactive : ℕ
  pub ops_sensitive : ℕ
  pub mem_sensitive : ℕ
  pub derive_key : ℕ → ℕ → Bytes → Bytes → Option Bytes

-- `SodiumOxide`, the one variant of `config::PWHash`.
pub record SodiumOxide : Type 0 where
  pub salt : Bytes
  pub mem_limit : ℕ
  pub ops_limit : ℕ

-- The salt is the one that `gen_salt` draws.
unfoldable pub new_weak : Bytes → SodiumOxide
new_weak salt = record { salt = salt; mem_limit = 0; ops_limit = 0 }

module _ (W : PwCrate) where
  unfoldable pub new_interactive : Bytes → SodiumOxide
  new_interactive salt = record {
    salt = salt;
    mem_limit = W.mem_interactive;
    ops_limit = W.ops_interactive;
  }

  unfoldable pub new_sensitive : Bytes → SodiumOxide
  new_sensitive salt = record {
    salt = salt;
    mem_limit = W.mem_sensitive;
    ops_limit = W.ops_sensitive;
  }

  unfoldable pub derive_key : SodiumOxide → Bytes → Result Bytes
  derive_key so passphrase = elim (W.derive_key so.ops_limit so.mem_limit so.salt passphrase) [
    | some key ↦ ok key
    | none ↦ err invalid_data
  ]

-- `config::Repo`
pub record Repo : Type 0 where
  pub version : ℕ
  pub pwhash : SodiumOxide
  pub chunking : Chunking
  pub hashing : Hashing
  pub compression : Compression
  pub encryption : Encryption
  pub nesting : ℕ

unfoldable pub check_version : ℕ → Result (Unit {0})
check_version version_int =
    if ltb repo_version_current version_int
    then err invalid_data
    else if ltb version_int repo_version_lowest
    then err invalid_data
    else ok tt

-- `Repo::read` behind the reading of the file: `parsed` is what the crate `serde_yaml` made of it.
unfoldable pub from_yaml : Option Repo → Result Repo
unfolding check_version
from_yaml none = err invalid_data
from_yaml (some config) = elim (check_version config.version) [
  | ok u ↦ ok config
  | err e ↦ err e
  | Result.panics ↦ Result.panics
  | Result.stuck ↦ Result.stuck
]
