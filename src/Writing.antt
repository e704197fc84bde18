-- ===== src/Writing.antt =====
-- `chunk_and_write_data_thread` and `write` of lib/src/lib.rs: data becomes chunks, their digests an
-- index, and so on until one digest is left, which gets a name.
pub mod Level
pub mod Address
use rdedup.Base.{
  ℕ, zero, suc, ◌+◌, Bytes, length, concat, Result, ok, err, panics, stuck, expect, List, [], ◌∷◌,
  add_u32,
}
use rdedup.Io.{Io, lift, continue, ◌>>=◌, last}
use rdedup.SgData.{ArcRefs, SgData}
use rdedup.Encryption.{Encrypter}
use rdedup.Chunking.{Chunking, all_chunks}
use rdedup.Chunking
use rdedup.Sorting.{enumerate, drain}
use rdedup.Sorting
use rdedup.Aio.{Backend}
use rdedup.Name.{Name, Yaml, write_as}
use rdedup.Reading.{DataType, index, data_chunk}
use rdedup.Reading.Decode.{Repo}
use rdedup.Processing.{process}
use rdedup.Processing.Encode.{Message}

-- The pool of processors: the order in which the chunks of a level are done, and the randomness that
-- each draws. Levels are counted from the last one down.
pub record Pool (R : ArcRefs) (Seed : Type 0) : Type 0 where
  pub order : ℕ → List (Message R Seed) → List (Message R Seed)
  pub seed : ℕ → ℕ → Seed

module _ (R : ArcRefs) (B : Backend R) (C : Chunking) (repo : Repo R) (engine : C.Engine)
    {Seed : Type 0} (encrypter : Encrypter R Seed) (pool : Pool R Seed)
    (gen_strings : List Bytes) where
  open B use {State}

  -- `config.chunking.to_engine()` makes a fresh engine for each level.
  messages : ℕ → DataType → List (ℕ × SgData R) → List (Message R Seed)
  messages level data_type [] = []
  messages level data_type ((i, sg) ∷ rest) =
      record { id = i; sg = sg; data_type = data_type; seed = pool.seed level i }
      ∷ messages level data_type rest

  process_all : List (Message R Seed) → Io State (List (ℕ × Bytes))
  process_all [] s = (ok [], s)
  process_all (m ∷ ms) s =
      continue (process R B repo encrypter gen_strings m s)
        λ response s₁. continue (process_all ms s₁) λ responses s₂. (ok (response ∷ responses), s₂)

  -- The digests of the chunks, in the order of the chunks.
  unfoldable pub write_level : ℕ → List Bytes → DataType → Io State (List Bytes)
  unfolding messages process_all
  write_level level input data_type = do
    chunks ← lift (all_chunks R C (length (concat input) + 2) (Chunking.new R C input engine))
    responses ← process_all (pool.order level (messages level data_type (enumerate 0 chunks)))
    lift (drain (suc (length chunks)) (Sorting.new responses))

  raise_level : Result Name × State → Result Name × State
  raise_level (ok address, s) =
      (ok (record address { index_level = add_u32 address.index_level 1 }), s)
  raise_level (err e, s) = (err e, s)
  raise_level (panics, s) = (panics, s)
  raise_level (stuck, s) = (stuck, s)

  -- One digest is the address; more are the data of an index.
  unfoldable pub address_of : List Bytes → (List Bytes → Io State Name) → Io State Name
  unfolding raise_level
  address_of [] write_index s = (panics, s)
  address_of (first_digest ∷ []) write_index s =
      (ok (record { digest = first_digest; index_level = 0 }), s)
  address_of (first_digest ∷ second_digest ∷ digests) write_index s =
      raise_level (write_index (first_digest ∷ second_digest ∷ digests) s)

  -- The recursion runs a level to its end before the next; in the program the levels overlap.
  unfoldable pub chunk_and_write_data : ℕ → List Bytes → DataType → Io State Name
  unfolding write_level address_of
  chunk_and_write_data zero input data_type s = (stuck, s)
  chunk_and_write_data (suc fuel) input data_type s =
      continue (write_level fuel input data_type s)
        λ digests s'. address_of digests (λ ds. chunk_and_write_data fuel ds index) s'

  -- Chunks of 64 bytes halve the data at each level: enough levels for 2^63 bytes.
  abbrev pub max_levels : ℕ
  max_levels = 58

  -- `write` from the point where the generations are known. The pool of its own that it makes has
  -- ended its writes before the name is written.
  unfoldable pub write_as_name : (Y : Yaml) → Bytes → List Bytes → Io State (Unit {0})
  unfolding chunk_and_write_data
  write_as_name Y name input = do
    address ← chunk_and_write_data max_levels input data_chunk
    gen ← lift (expect (last gen_strings))
    write_as R B Y address name gen
