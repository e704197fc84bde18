-- ===== src/Reading/Decode.antt =====
-- The middle of `read_chunk_into` in lib/src/reading.rs: stored data to checked content.
use rdedup.Base.{
  Bytes, Bytes-discrete, Option, none, some, Result, ok, err, panics, invalid_data, ◌>>=◌, ite,
  if◌then◌else◌,
}
use rdedup.SgData.{ArcRefs, SgData}
use rdedup.Compression.{Compression}
use rdedup.Encryption.{Decrypter}
use rdedup.Aio.{Layout}
use rdedup.Reading.{DataType, should_compress, should_encrypt}

-- What the accessors use of `Repo`.
pub record Repo (R : ArcRefs) : Type 0 where
  pub layout : Layout
  pub compression : Compression R
  pub calculate_digest : SgData R → Result Bytes

module _ (R : ArcRefs) (repo : Repo R) (decrypter : Option (Decrypter R)) where
  -- `expect("Decrypter expected")`
  unfoldable pub decrypted : Option (Decrypter R) → SgData R → Bytes → Result (SgData R)
  decrypted none sg digest = panics
  decrypted (some d) sg digest = d.decrypt sg digest

  unfoldable pub decode : DataType → SgData R → Bytes → Result (SgData R)
  unfolding decrypted
  decode data_type sg digest = do
    plain ← if should_encrypt data_type then decrypted decrypter sg digest else ok sg
    if should_compress data_type then repo.compression.decompress plain else ok plain

  -- The content of a chunk, if it has the digest that it is stored under.
  unfoldable pub checked : DataType → SgData R → Bytes → Result (SgData R)
  unfolding decode Bytes-discrete
  checked data_type sg digest = do
    plain ← decode data_type sg digest
    vec_result ← repo.calculate_digest plain
    ite (Bytes-discrete vec_result digest) (ok plain) (err invalid_data)
