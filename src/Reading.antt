-- ===== src/Reading.antt =====
-- lib/src/reading.rs: chunks are read through an accessor, and an index is a stream of digests that
-- is read into a writer which reads what the digests name.
pub mod Decode
pub mod Accessors
pub mod Chunks
pub mod Stream
pub mod Visits
pub mod Tree
pub mod Recursion
pub mod Update
pub mod Recording
use rdedup.Base.{
  ℕ, zero, suc, ◌+◌, ◌-◌, ltb, Bytes, length, take, drop, Option, none, some, Result, ok, err,
  panics, stuck, List, [], ◌∷◌, ◌++◌, Bool, true, false, if◌then◌else◌, ErrorKind,
}
use rdedup.Io.{Io, pure, lift, throw, continue, ◌>>=◌, ◌>>◌}
use rdedup.SgData.{ArcRefs, SgData}
use rdedup.Hashing.{digest_size}

pub data DataType : Type 0 where
  index data_chunk : DataType

abbrev pub should_compress : DataType → Bool
should_compress index = false
should_compress data_chunk = true

abbrev pub should_encrypt : DataType → Bool
should_encrypt index = false
should_encrypt data_chunk = true

-- `&mut dyn Write` over a world `W` and a state `X` of its own: what `write_all` does with the bytes.
abbrev pub Writer : Type 0 → Type 0 → Type 0
Writer W X = Bytes → Io (W × X) (Unit {0})

-- The trait `ChunkAccessor`. The world holds the backend, and the cells of the accessor.
pub record ChunkAccessor (W : Type 0) : Type 1 where
  pub read_chunk_into : {X : Type 0} (w : Writer W X) → Bytes → DataType → Io (W × X) (Unit {0})
  pub touch : Bytes → Io W (Unit {0})

-- A call on the world alone.
abbrev pub on_world : {W X A : Type 0} → Io W A → Io (W × X) A
on_world m (w, x) = let (r, w') = m w in (r, (w', x))

module _ {W : Type 0} (A : ChunkAccessor W) where
  open A use {read_chunk_into, touch}

  unfoldable pub on_data :
      {X : Type 0} → Option (Writer W X) → DataType → Bytes → Io (W × X) (Unit {0})
  on_data (some w) data_type digest = read_chunk_into w digest data_type
  on_data none data_type digest = on_world (touch digest)

  -- The state of an `IndexTranslator` is that of the writer behind it and the buffer `digest_buf`.
  -- A round takes one digest out of the buffer and the bytes; the buffer is empty after it, on an
  -- error too.
  abbrev pub translated :
      {X : Type 0} → Result (Unit {0}) × (W × X) → Result (Unit {0}) × (W × (X × Bytes))
  translated (r, (w, x)) = (r, (w, (x, [])))

  translate_loop :
      {X : Type 0} → ℕ → Option (Writer W X) → DataType → Bytes → Io (W × (X × Bytes)) (Unit {0})
  unfolding on_data
  translate_loop zero writer data_type bytes s = (stuck, s)
  translate_loop (suc fuel) writer data_type bytes (w, (x, digest_buf)) =
      let has_already = length digest_buf in
      let needs = digest_size - has_already in
      let digest = digest_buf ++ take needs bytes in
      let more =
        continue (translated (on_data writer data_type digest (w, x)))
          (λ _. translate_loop fuel writer data_type (drop needs bytes)) in
      if ltb (has_already + length bytes) digest_size
      then (ok tt, (w, (x, digest_buf ++ bytes)))
      else more

  -- `write_all` on the translator. It makes no call of `write` for no bytes; `write` takes all it is
  -- given, in at most a round for each byte and one more.
  unfoldable pub translate : {X : Type 0} → Option (Writer W X) → DataType → Writer W (X × Bytes)
  unfolding translate_loop
  translate writer data_type [] s = (ok tt, s)
  translate writer data_type (b ∷ bytes) s =
      translate_loop (suc (length (b ∷ bytes))) writer data_type (b ∷ bytes) s

  -- The translator of `on_index` is dropped at the end of the call.
  abbrev pub drop_translator :
      {X : Type 0} → Result (Unit {0}) × (W × (X × Bytes)) → Result (Unit {0}) × (W × X)
  drop_translator (r, (w, (x, digest_buf))) = (r, (w, x))

  unfoldable pub read_recursively :
      ℕ → {X : Type 0} → Option (Writer W X) → DataType → Bytes → Io (W × X) (Unit {0})
  unfolding on_data translate
  read_recursively zero writer data_type digest s = on_data writer data_type digest s
  read_recursively (suc index_level) writer data_type digest (w, x) =
      drop_translator
        (read_recursively index_level (some (translate writer data_type)) index digest (w, (x, [])))
