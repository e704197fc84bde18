-- ===== src/Processing.antt =====
-- lib/src/chunk_processor.rs: what a chunk processor does with one chunk.
pub mod Encode
pub mod Stores
use mathlib.Core.List.{reverse}
use rdedup.Base.{
  ℕ, Bytes, Bytes-discrete, Option, none, some, Result, ok, err, panics, stuck, not_found,
  already_exists, invalid_data, invalid_input, connection_aborted, other, expect, List, [], ◌∷◌,
  ◌++◌, Bool, true, false, ite, if◌then◌else◌,
}
use rdedup.Io.{Io, pure, lift, continue, ◌>>=◌, ◌>>◌, last}
use rdedup.SgData.{ArcRefs, SgData}
use rdedup.Encryption.{Encrypter}
use rdedup.Nesting.{FilePath}
use rdedup.Aio.{Backend, Metadata}
use Encode.{Message, encode, unwrap}
use rdedup.Reading.{DataType, should_compress, should_encrypt}
use rdedup.Reading.Decode.{Repo}
use rdedup.Reading.Accessors.{chunk_rel_path_by_digest}

module _ (R : ArcRefs) (B : Backend R) (repo : Repo R) {Seed : Type 0}
    (encrypter : Encrypter R Seed) where
  open B use {State}

  -- `Ok` ends the loop over the generations, `NotFound` goes on, and any other error panics.
  existing_or : Result Metadata → Bytes → Io State (Option Bytes) → Io State (Option Bytes)
  existing_or (ok m) gen_str next s = (ok (some gen_str), s)
  existing_or (err not_found) gen_str next s = next s
  existing_or (err already_exists) gen_str next s = (panics, s)
  existing_or (err invalid_data) gen_str next s = (panics, s)
  existing_or (err invalid_input) gen_str next s = (panics, s)
  existing_or (err connection_aborted) gen_str next s = (panics, s)
  existing_or (err other) gen_str next s = (panics, s)
  existing_or panics gen_str next s = (panics, s)
  existing_or stuck gen_str next s = (stuck, s)

  unfoldable pub find_existing : Bytes → List Bytes → Io State (Option Bytes)
  unfolding existing_or
  find_existing digest [] s = (ok none, s)
  find_existing digest (gen_str ∷ gens) s =
      continue (lift (chunk_rel_path_by_digest repo.layout digest gen_str) s)
        (λ path s'. existing_or (B.read_metadata path s') gen_str (find_existing digest gens) s')

  -- The chunk may have been moved by somebody else: then it is at its destination.
  renamed : FilePath → Result (Unit {0}) × State → Result (Unit {0}) × State
  renamed dst (ok u, s) = (ok u, s)
  renamed dst (err e, s) = elim (B.read_metadata dst s) [
    | ok m ↦ (ok tt, s)
    | err e' ↦ (panics, s)
    | panics ↦ (panics, s)
    | stuck ↦ (stuck, s)
  ]
  renamed dst (panics, s) = (panics, s)
  renamed dst (stuck, s) = (stuck, s)

  unfoldable pub move_existing : Bytes → Bytes → Bytes → Io State (Unit {0})
  unfolding renamed
  move_existing digest last_gen_str gen_str s =
      let move = continue (lift (chunk_rel_path_by_digest repo.layout digest gen_str) s) λ src s₁.
        continue (lift (chunk_rel_path_by_digest repo.layout digest last_gen_str) s₁)
          λ dst s₂. renamed dst (B.rename src dst s₂) in
      ite (Bytes-discrete gen_str last_gen_str) (ok tt, s) move

  -- `write_checked_idempotent`: the write is not waited for, and an error panics its thread.
  unfoldable pub write_checked_idempotent : FilePath → SgData R → Io State (Unit {0})
  write_checked_idempotent path sg s = let (r, s') = B.write path sg true s in (unwrap r, s')

  handle : Message R Seed → Bytes → Bytes → Option Bytes → Io State (Unit {0})
  unfolding move_existing write_checked_idempotent
  handle m digest last_gen_str (some gen_str) = move_existing digest last_gen_str gen_str
  handle m digest last_gen_str none = do
    sg ← lift (encode R repo encrypter m digest)
    path ← lift (chunk_rel_path_by_digest repo.layout digest last_gen_str)
    write_checked_idempotent path sg

  -- One round of the loop of `run`, up to its response.
  unfoldable pub process : List Bytes → Message R Seed → Io State (ℕ × Bytes)
  unfolding find_existing handle
  process gen_strings m = do
    last_gen_str ← lift (expect (last gen_strings))
    digest ← lift (repo.calculate_digest m.sg)
    found ← find_existing digest (reverse gen_strings ++ (last_gen_str ∷ []))
    handle m digest last_gen_str found
    pure (m.id, digest)
