-- ===== src/Reading/Accessors.antt =====
-- The accessors of lib/src/reading.rs.
use rdedup.Reading.Decode.{Repo, checked}
use mathlib.Core.List.{reverse}
use rdedup.Base.{
  Bytes, Bytes-discrete, Option, none, some, Result, ok, err, panics, stuck, not_found,
  already_exists, invalid_data, invalid_input, connection_aborted, other, expect, List, [], ◌∷◌,
  ite,
}
use rdedup.Io.{Io, pure, lift, throw, continue, ◌>>=◌, ◌>>◌, last}
use rdedup.SgData.{ArcRefs, SgData}
use rdedup.Encryption.{Decrypter}
use rdedup.Nesting.{FilePath, get_path, data_subdir}
use rdedup.Aio.{Backend, Layout, Metadata}
use rdedup.Reading.{DataType, Writer, ChunkAccessor, on_world}

unfoldable pub chunk_rel_path_by_digest : Layout → Bytes → Bytes → Result FilePath
chunk_rel_path_by_digest l digest gen_str =
    get_path l.hex_encode l.levels data_subdir digest gen_str

module _ (R : ArcRefs) (B : Backend R) (repo : Repo R) where
  open B use {State}

  -- The loop over the generations, newest first: any error leads to the next one.
  unfoldable pub found_or {ℓ} :
      {A : Type ℓ}
      → Result A
      → Bytes
      → Io State (Option (A × Bytes))
      → Io State (Option (A × Bytes))
  found_or (ok a) gen_str next s = (ok (some (a, gen_str)), s)
  found_or (err e) gen_str next s = next s
  found_or panics gen_str next s = (panics, s)
  found_or stuck gen_str next s = (stuck, s)

  unfoldable pub find_in_gens {ℓ} :
      {A : Type ℓ}
      → (FilePath → State → Result A)
      → Bytes
      → List Bytes
      → Io State (Option (A × Bytes))
  unfolding found_or
  find_in_gens look digest [] s = (ok none, s)
  find_in_gens look digest (gen_str ∷ gens) s =
      continue (lift (chunk_rel_path_by_digest repo.layout digest gen_str) s)
        (λ path s'. found_or (look path s') gen_str (find_in_gens look digest gens) s')

  -- A failed `rename` counts only if it is not `NotFound`.
  unless_not_found : Result (Unit {0}) × State → Result (Unit {0}) × State
  unless_not_found (err not_found, s) = (ok tt, s)
  unless_not_found (err already_exists, s) = (err already_exists, s)
  unless_not_found (err invalid_data, s) = (err invalid_data, s)
  unless_not_found (err invalid_input, s) = (err invalid_input, s)
  unless_not_found (err connection_aborted, s) = (err connection_aborted, s)
  unless_not_found (err other, s) = (err other, s)
  unless_not_found (ok u, s) = (ok u, s)
  unless_not_found (panics, s) = (panics, s)
  unless_not_found (stuck, s) = (stuck, s)

  unfoldable pub move_to_cur : Bytes → Bytes → Bytes → Io State (Unit {0})
  unfolding unless_not_found
  move_to_cur digest cur_gen_str data_gen_str s =
      let move =
        continue (lift (chunk_rel_path_by_digest repo.layout digest data_gen_str) s) λ src s₁.
          continue (lift (chunk_rel_path_by_digest repo.layout digest cur_gen_str) s₁)
            λ dst s₂. unless_not_found (B.rename src dst s₂) in
      ite (Bytes-discrete cur_gen_str data_gen_str) (ok tt, s) move

  -- `for part in data.as_parts() { writer.write_all(&*part)?; }`
  unfoldable pub write_parts : {W X : Type 0} → Writer W X → SgData R → Io (W × X) (Unit {0})
  write_parts w [] s = (ok tt, s)
  write_parts w (part ∷ parts) s = continue (w (R.deref part) s) (λ _. write_parts w parts)

  -- `DefaultChunkAccessor`, over a world that is the backend.
  module _ (decrypter : Option (Decrypter R)) (gen_strings : List Bytes) where
    unfoldable pub read_found :
        {X : Type 0}
        → Writer State X
        → Bytes
        → DataType
        → Bytes
        → Option (SgData R × Bytes)
        → Io (State × X) (Unit {0})
    read_found w digest data_type cur_gen_str none = throw not_found
    read_found w digest data_type cur_gen_str (some (sg, data_gen_str)) = do
      on_world (move_to_cur digest cur_gen_str data_gen_str)
      plain ← lift (checked R repo decrypter data_type sg digest)
      write_parts w plain

    unfoldable pub default_read :
        {X : Type 0} → Writer State X → Bytes → DataType → Io (State × X) (Unit {0})
    unfolding read_found
    default_read w digest data_type = do
      cur_gen_str ← lift (expect (last gen_strings))
      found ← on_world (find_in_gens B.read digest (reverse gen_strings))
      read_found w digest data_type cur_gen_str found

    unfoldable pub default_accessor : ChunkAccessor State
    unfolding default_read
    default_accessor = record { read_chunk_into = default_read; touch = λ digest. pure tt }

  unfoldable pub touch_found : Bytes → Bytes → Option (Metadata × Bytes) → Io State (Unit {0})
  touch_found digest cur_gen_str none = throw not_found
  touch_found digest cur_gen_str (some (_, data_gen_str)) =
      move_to_cur digest cur_gen_str data_gen_str

  unfoldable pub update_touch : List Bytes → Bytes → Io State (Unit {0})
  unfolding touch_found
  update_touch gen_strings digest = do
    cur_gen_str ← lift (expect (last gen_strings))
    found ← find_in_gens B.read_metadata digest (reverse gen_strings)
    touch_found digest cur_gen_str found

  -- `GenerationUpdateChunkAccessor` has no decrypter.
  unfoldable pub update_accessor : List Bytes → ChunkAccessor State
  unfolding default_read update_touch
  update_accessor gen_strings = record {
    read_chunk_into = default_read none gen_strings;
    touch = update_touch gen_strings;
  }
