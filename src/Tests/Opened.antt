-- ===== src/Tests/Opened.antt =====
-- A text for configurations, and a repository in an empty directory.
use rdedup.Base.{
  ℕ, zero, suc, ◌≡◌, refl, ap, Bytes, codes, length, take, drop, take-append, drop-append, Option,
  none, some, ok, [], ◌∷◌, ◌++◌,
}
use rdedup.Aio.{Backend}
use rdedup.Config
use rdedup.Config.{ℤ, pos, negsuc}
use rdedup.Hashing.{Hashing, sha256, blake2b}
use rdedup.Encryption
use rdedup.Encryption.{Decrypter}
use rdedup.Settings
use rdedup.Repository.Opening.{
  ConfigYaml, Handle, init, open_repo, unlock_decrypt, unlock_encrypt, change_passphrase,
}
use rdedup.Aio.Pool.{contains}
use rdedup.Disk.{Disk, is_dir, read_dir}
use rdedup.Local.{list, with_extension}
use rdedup.Local.Configs.{local_disk, local_disk-KeepsConfig, IsFree, config_tmp}
use rdedup.Repository.Opening.Reopened.{IsConfigYaml, init-change_passphrase}
use rdedup.Tests.Crates.{window, window-IsArcRef, marked, marked-IsSodium, padded, pad, length-pad}
use rdedup.Tests.Packed.{markers}

chunking_code : Config.Chunking → ℕ × ℕ
chunking_code (Config.Chunking.bup bits) = (0, bits)
chunking_code (Config.Chunking.gear bits) = (1, bits)
chunking_code (Config.Chunking.fastcdc bits) = (2, bits)

chunking_at : ℕ → ℕ → Config.Chunking
chunking_at zero bits = Config.Chunking.bup bits
chunking_at (suc zero) bits = Config.Chunking.gear bits
chunking_at (suc (suc n)) bits = Config.Chunking.fastcdc bits

hashing_code : Hashing → ℕ
hashing_code sha256 = 0
hashing_code blake2b = 1

hashing_at : ℕ → Hashing
hashing_at zero = sha256
hashing_at (suc n) = blake2b

level_code : ℤ → ℕ × ℕ
level_code (pos n) = (0, n)
level_code (negsuc n) = (1, n)

level_at : ℕ → ℕ → ℤ
level_at zero n = pos n
level_at (suc sign) n = negsuc n

compression_code : Config.Compression → ℕ × (ℕ × ℕ)
unfolding level_code
compression_code (Config.Compression.deflate l) = (0, level_code l)
compression_code (Config.Compression.xz2 l) = (1, level_code l)
compression_code (Config.Compression.bzip2 l) = (2, level_code l)
compression_code (Config.Compression.zstd l) = (3, level_code l)
compression_code Config.Compression.no_compression = (4, (0, 0))

compression_at : ℕ → ℤ → Config.Compression
compression_at zero l = Config.Compression.deflate l
compression_at (suc zero) l = Config.Compression.xz2 l
compression_at (suc (suc zero)) l = Config.Compression.bzip2 l
compression_at (suc (suc (suc zero))) l = Config.Compression.zstd l
compression_at (suc (suc (suc (suc n)))) l = Config.Compression.no_compression

-- The salt stands before the keys.
encryption_code : Bytes → Encryption.Encryption → Bytes
encryption_code salt Encryption.Encryption.no_encryption = 0 ∷ salt
encryption_code salt (Encryption.Encryption.curve25519 c) =
    1 ∷ length salt ∷ length c.sealed_sec_key ∷ length c.pub_key ∷ salt
    ++ (c.sealed_sec_key ++ (c.pub_key ++ c.nonce))

encryption_at : Bytes → Bytes × Encryption.Encryption
encryption_at [] = ([], Encryption.Encryption.no_encryption)
encryption_at (zero ∷ salt) = (salt, Encryption.Encryption.no_encryption)
encryption_at (suc n ∷ []) = ([], Encryption.Encryption.no_encryption)
encryption_at (suc n ∷ a ∷ []) = ([], Encryption.Encryption.no_encryption)
encryption_at (suc n ∷ a ∷ b ∷ []) = ([], Encryption.Encryption.no_encryption)
encryption_at (suc n ∷ a ∷ b ∷ c ∷ text) = (
  take a text,
  Encryption.Encryption.curve25519 (record {
    sealed_sec_key = take b (drop a text);
    pub_key = take c (drop b (drop a text));
    nonce = drop c (drop b (drop a text));
  }),
)

to_text : Config.Repo → Bytes
unfolding chunking_code hashing_code compression_code encryption_code
to_text r =
    r.version
    ∷ r.pwhash.mem_limit
    ∷ r.pwhash.ops_limit
    ∷ r.nesting
    ∷ (chunking_code r.chunking).0
    ∷ (chunking_code r.chunking).1
    ∷ hashing_code r.hashing
    ∷ (compression_code r.compression).0
    ∷ (compression_code r.compression).1.0
    ∷ (compression_code r.compression).1.1
    ∷ encryption_code r.pwhash.salt r.encryption

from_text : Bytes → Option Config.Repo
unfolding chunking_at hashing_at compression_at level_at encryption_at
from_text (v ∷ mem ∷ ops ∷ nesting ∷ ct ∷ bits ∷ h ∷ kt ∷ sign ∷ l ∷ rest) =
    let (salt, enc) = encryption_at rest in
    some (record {
      version = v;
      pwhash = record { salt = salt; mem_limit = mem; ops_limit = ops };
      chunking = chunking_at ct bits;
      hashing = hashing_at h;
      compression = compression_at kt (level_at sign l);
      encryption = enc;
      nesting = nesting;
    })
from_text text = none

chunking-back : (c : Config.Chunking) → chunking_at (chunking_code c).0 (chunking_code c).1 ≡ c
unfolding chunking_at chunking_code
chunking-back (Config.Chunking.bup bits) = refl
chunking-back (Config.Chunking.gear bits) = refl
chunking-back (Config.Chunking.fastcdc bits) = refl

hashing-back : (h : Hashing) → hashing_at (hashing_code h) ≡ h
unfolding hashing_at hashing_code
hashing-back sha256 = refl
hashing-back blake2b = refl

level-back : (l : ℤ) → level_at (level_code l).0 (level_code l).1 ≡ l
unfolding level_at level_code
level-back (pos n) = refl
level-back (negsuc n) = refl

compression-back :
    (c : Config.Compression)
    → compression_at
        (compression_code c).0
        (level_at (compression_code c).1.0 (compression_code c).1.1)
      ≡ c
unfolding compression_at compression_code
compression-back (Config.Compression.deflate l) = ap Config.Compression.deflate (level-back l)
compression-back (Config.Compression.xz2 l) = ap Config.Compression.xz2 (level-back l)
compression-back (Config.Compression.bzip2 l) = ap Config.Compression.bzip2 (level-back l)
compression-back (Config.Compression.zstd l) = ap Config.Compression.zstd (level-back l)
compression-back Config.Compression.no_compression = refl

encryption-back :
    (salt : Bytes) (e : Encryption.Encryption) → encryption_at (encryption_code salt e) ≡ (salt, e)
unfolding encryption_at encryption_code
encryption-back salt Encryption.Encryption.no_encryption = refl
encryption-back salt (Encryption.Encryption.curve25519 c) =
    rw
      (
        take-append salt (c.sealed_sec_key ++ (c.pub_key ++ c.nonce)) (length salt) refl,
        drop-append salt (c.sealed_sec_key ++ (c.pub_key ++ c.nonce)) (length salt) refl,
        take-append c.sealed_sec_key (c.pub_key ++ c.nonce) (length c.sealed_sec_key) refl,
        drop-append c.sealed_sec_key (c.pub_key ++ c.nonce) (length c.sealed_sec_key) refl,
        take-append c.pub_key c.nonce (length c.pub_key) refl,
        drop-append c.pub_key c.nonce (length c.pub_key) refl,
      )
      refl

abbrev text : ConfigYaml
text = record { to_string = to_text; from_reader = from_text }

text-IsConfigYaml : IsConfigYaml text
unfolding to_text from_text
text-IsConfigYaml = record {
  from_reader-to_string = λ c.
      rw
        (
          encryption-back c.pwhash.salt c.encryption,
          chunking-back c.chunking,
          hashing-back c.hashing,
          compression-back c.compression,
        )
        refl;
}

key_from :
    (pass : Bytes) (so : Config.SodiumOxide)
    → (k : Bytes) × (Config.derive_key padded so pass ≡ ok k) × (length k ≡ 32)
unfolding Config.derive_key
key_from pass so = (pad 32 (so.salt ++ pass), refl, length-pad 32 (so.salt ++ pass))

abbrev directory : Backend window
directory = local_disk window (codes "0123") (λ path d. [])

abbrev empty_disk : Disk
empty_disk = record { files = []; dirs = [] }

empty_disk-IsFree : IsFree window (codes "0123") empty_disk
unfolding is_dir config_tmp with_extension contains
empty_disk-IsFree = (refl, refl)

empty_disk-listed : list [] empty_disk ≡ ok []
unfolding list read_dir
empty_disk-listed = refl

init-change_passphrase_example :
    (h : Handle window) × (s' : Disk) × (init window directory text markers padded marked
        (codes "salt")
        5
        6
        (ok (codes "old"))
        Settings.new
        empty_disk
      ≡ (ok h, s'))
    × (open_repo window directory text markers padded marked s' ≡ ok h)
    × (d : Decrypter window) × (unlock_decrypt window directory text markers padded marked h
          (ok (codes "old"))
        ≡ ok d)
    × (h' : Handle window) × (t : Disk) × (change_passphrase window directory text markers padded
          marked
          (ok (codes "old"))
          (ok (codes "new"))
          (h, s')
        ≡ (ok tt, (h', t)))
    × (open_repo window directory text markers padded marked t ≡ ok h')
    × (unlock_decrypt window directory text markers padded marked h' (ok (codes "new")) ≡ ok d)
    × (unlock_encrypt window directory text markers padded marked h'
        ≡ unlock_encrypt window directory text markers padded marked h)
init-change_passphrase_example =
    init-change_passphrase window window-IsArcRef directory
      (local_disk-KeepsConfig window (codes "0123") window-IsArcRef (λ path d. [])) text
      text-IsConfigYaml markers padded marked marked-IsSodium (codes "old") (codes "new")
      (codes "salt") 5 6 Settings.new empty_disk (key_from (codes "old") _)
      (key_from (codes "new") _) empty_disk-IsFree empty_disk-listed
