-- ===== src/Reading/Recording.antt =====
-- The accessors of lib/src/reading.rs that keep what they met: for the chunks that are reachable, and
-- for the verification of a name.
use rdedup.Base.{
  ℕ, Bytes, Bytes-discrete, length, Bool, true, false, if◌then◌else◌, ite, Option, Result, ok, err,
  panics, stuck, ErrorKind, List, [], ◌∷◌, ◌++◌, add_u64,
}
use rdedup.Io.{Io, ◌>>◌}
use rdedup.SgData.{ArcRefs}
use rdedup.Encryption.{Decrypter}
use rdedup.Aio.{Backend}
use rdedup.Reading.{DataType, Writer, ChunkAccessor, on_world}
use rdedup.Reading.Decode.{Repo}
use rdedup.Reading.Accessors.{default_accessor}

-- A set of digests, each once.
unfoldable pub has_digest : Bytes → List Bytes → Bool
has_digest digest [] = false
has_digest digest (d ∷ ds) = ite (Bytes-discrete d digest) true (has_digest digest ds)

unfoldable pub insert_digest : Bytes → List Bytes → List Bytes
unfolding has_digest
insert_digest digest ds = if has_digest digest ds then ds else digest ∷ ds

-- `CounterWriter`
unfoldable pub counter : {W : Type 0} → Writer W ℕ
counter bytes (w, count) = (ok tt, (w, add_u64 count (length bytes)))

-- What a verification has met, and the chunks that failed, in order.
pub record Verifying : Type 0 where
  pub accessed : List Bytes
  pub errors : List (Bytes × ErrorKind)

module _ (R : ArcRefs) (B : Backend R) (repo : Repo R) (decrypter : Option (Decrypter R))
    (gen_strings : List Bytes) where
  open B use {State}

  abbrev raw : ChunkAccessor State
  raw = default_accessor R B repo decrypter gen_strings

  -- The raw accessor knows nothing of the cells; they go along with the writer's state.
  abbrev pub with_cells : {C X : Type 0} → Writer (State × C) X → Writer State (C × X)
  with_cells w bytes (s, (c, x)) =
      let (r, ((s', c'), x')) = w bytes ((s, c), x) in (r, (s', (c', x')))

  abbrev pub raw_read :
      {C X : Type 0} → Writer (State × C) X → Bytes → DataType → Io ((State × C) × X) (Unit {0})
  raw_read w digest data_type ((s, c), x) =
      let (r, (s', (c', x'))) = raw.read_chunk_into (with_cells w) digest data_type (s, (c, x)) in
      (r, ((s', c'), x'))

  record_touch : Bytes → Io (State × List Bytes) (Unit {0})
  unfolding insert_digest
  record_touch digest (s, accessed) = (ok tt, (s, insert_digest digest accessed))

  recording_read :
      {X : Type 0}
      → Writer (State × List Bytes) X
      → Bytes
      → DataType
      → Io ((State × List Bytes) × X) (Unit {0})
  unfolding record_touch
  recording_read w digest data_type = do on_world (record_touch digest); raw_read w digest data_type

  unfoldable pub recording_accessor : ChunkAccessor (State × List Bytes)
  unfolding recording_read
  recording_accessor = record { read_chunk_into = recording_read; touch = record_touch }

  -- A failed chunk is noted, and the traversal goes on.
  unfoldable pub note_error :
      {X : Type 0}
      → Bytes
      → Result (Unit {0}) × ((State × Verifying) × X)
      → Result (Unit {0}) × ((State × Verifying) × X)
  note_error digest (ok u, world) = (ok u, world)
  note_error digest (err e, ((s, v), x)) =
      (ok tt, ((s, record v { errors = v.errors ++ ((digest, e) ∷ []) }), x))
  note_error digest (panics, world) = (panics, world)
  note_error digest (stuck, world) = (stuck, world)

  unfoldable pub verifying_read :
      {X : Type 0}
      → Writer (State × Verifying) X
      → Bytes
      → DataType
      → Io ((State × Verifying) × X) (Unit {0})
  unfolding has_digest note_error
  verifying_read w digest data_type ((s, v), x) =
      if has_digest digest v.accessed
      then (ok tt, ((s, v), x))
      else note_error digest
          (raw_read w digest data_type ((s, record v { accessed = digest ∷ v.accessed }), x))

  unfoldable pub verifying_accessor : ChunkAccessor (State × Verifying)
  unfolding verifying_read
  verifying_accessor = record {
    read_chunk_into = verifying_read;
    touch = λ digest (s, v). let (r, s') = raw.touch digest s in (r, (s', v));
  }
