-- ===== src/Repository/Verify/Noted.antt =====
-- A verification that cannot read the chunk of a name: `VerifyingChunkAccessor` of
-- lib/src/reading.rs below `Repo::verify` of lib/src/lib.rs.
use mathlib.Core.List.{reverse}
use rdedup.Base.{◌≡◌, ◌⊎◌, ErrorKind, Bytes, length, none, some, err, not_found, List, [], ◌∷◌}
use rdedup.SgData.{ArcRefs, SgData, bytes}
use rdedup.Encryption.{Decrypter}
use rdedup.Generation.{Decoders}
use rdedup.Aio.{Backend, IsBackend, chunk}
use rdedup.Name.{Name, Yaml}
use rdedup.Reading.{DataType, Writer}
use rdedup.Reading.Decode.{Repo, checked}
use rdedup.Reading.Accessors.{default_read}
use rdedup.Reading.Recording.{Verifying}
use rdedup.Store.{IsRepo, Has}

module _ (R : ArcRefs) (B : Backend R) (D : Decoders) (repo : Repo R) (P : IsRepo R repo)
    (K : IsBackend R B repo.layout) (Y : Yaml) (decrypter : Decrypter R) (cur : Bytes)
    (older gen_strings : List Bytes) (newest : reverse gen_strings ≡ cur ∷ older) (digest : Bytes)
    (size : length digest ≡ 32) (s : B.State) where
  -- What is read for the digest in any generation is refused with this error.
  abbrev pub IsDamaged : ErrorKind → Type 0
  IsDamaged e =
      (gen raw : Bytes)
      → K.file s (chunk gen digest) ≡ some raw
      → (t : DataType) (sg : SgData R) → bytes R sg ≡ raw
      → checked R repo (some decrypter) t sg digest ≡ err e

  -- No generation has the chunk, or one has it and it is damaged.
  abbrev pub IsUnreadable : ErrorKind → Type 0
  IsUnreadable e =
      ((e ≡ not_found) × ((gen : Bytes) → K.file s (chunk gen digest) ≡ none))
      ⊎ (Has R B repo P K (some decrypter) (cur ∷ older) s digest × IsDamaged e)

  -- Reading fails and leaves this state, whatever the writer, which is given nothing.
  abbrev Fails : ErrorKind → B.State → Type 1
  Fails e s' =
      (X : Type 0) (w : Writer B.State X) (t : DataType) (x : X)
      → default_read R B repo (some decrypter) gen_strings w digest t (s, x) ≡ (err e, (s', x))

  -- What is met and noted.
  abbrev pub noted : ErrorKind → Verifying
  noted e = record { accessed = digest ∷ []; errors = (digest, e) ∷ [] }
