-- ===== src/Processing/Encode.antt =====
-- lib/src/chunk_processor.rs: the form in which a chunk is stored.
use rdedup.Base.{ℕ, Bytes, Result, ok, err, panics, stuck, ◌>>=◌, if◌then◌else◌}
use rdedup.SgData.{ArcRefs, SgData}
use rdedup.Encryption.{Encrypter}
use rdedup.Reading.{DataType, should_compress, should_encrypt}
use rdedup.Reading.Decode.{Repo}

-- `seed` is the randomness that the encryption of this chunk draws.
pub record Message (R : ArcRefs) (Seed : Type 0) : Type 0 where
  pub id : ℕ
  pub sg : SgData R
  pub data_type : DataType
  pub seed : Seed

-- `unwrap`
abbrev pub unwrap {ℓ} : {A : Type ℓ} → Result A → Result A
unwrap (ok a) = ok a
unwrap (err e) = panics
unwrap panics = panics
unwrap stuck = stuck

module _ (R : ArcRefs) (repo : Repo R) {Seed : Type 0} (encrypter : Encrypter R Seed) where
  unfoldable pub encode : Message R Seed → Bytes → Result (SgData R)
  encode m digest = do
    sg ← if should_compress m.data_type then unwrap (repo.compression.compress m.sg) else ok m.sg
    if should_encrypt m.data_type then unwrap (encrypter.encrypt m.seed sg digest) else ok sg
