-- ===== src/Compression.antt =====
-- lib/src/compression.rs: the trait `Compression` and its engines. The encoders and decoders of the
-- crates `flate2`, `bzip2`, `lzma` and `zstd` are parameters.
pub mod Streams
pub mod Xz
pub mod Parts
pub mod Engines
use rdedup.SgData.{bytes, ArcRefs, SgData}
use Prim.Native.Nat.{min}
use rdedup.Base.{
  ◌≡◌, refl, ℕ, zero, suc, ◌+◌, ◌-◌, ◌*◌, ◌^◌, Bytes, length, take, drop, Result, ok, err, panics,
  stuck, ◌>>=◌, List, [], ◌∷◌, ltb, true, false, if◌then◌else◌,
}
use rdedup.SgData
use rdedup.Input.{Reader}
use rdedup.Config
use rdedup.Config.{ℤ, pos, negsuc}

pub record Compression (R : ArcRefs) : Type 0 where
  pub compress : SgData R → Result (SgData R)
  pub decompress : SgData R → Result (SgData R)

-- `NoCompression`
abbrev pub no_compression : (R : ArcRefs) → Compression R
no_compression R = record { compress = ok; decompress = ok }

-- The levels of `flate2::Compression`, and those of `bzip2::Compression`.
pub data Level : Type 0 where
  fast best default_level : Level

-- `Deflate::new` and `Bzip2::new`
unfoldable pub level_of : ℤ → Level
level_of (negsuc n) = fast
level_of (pos zero) = default_level
level_of (pos (suc n)) = best

-- `Xz2::new`: `min(max(level + 6, 0), 10)`; the sum wraps to a negative one.
unfoldable pub preset_of : ℤ → ℕ
preset_of (pos n) = if ltb (n + 6) (2 ^ 31) then min (n + 6) 10 else 0
preset_of (negsuc n) = min (5 - n) 10

-- A writer that encodes or decodes: `write_all` takes data in and `finish` hands out the result.
pub record Codec : Type 1 where
  pub State : Type 0
  pub new : State
  pub write_all : State → Bytes → Result State
  pub finish : State → Result Bytes

-- `LzmaWriter`, with what its constructor returns. `write` takes as many bytes as it says, perhaps none. `patience` is how often in a
-- row it may take none, and the fuel that a loop has for that.
pub record Lzma : Type 1 where
  pub State : Type 0
  pub new : Result State
  pub write : State → Bytes → Result (ℕ × State)
  pub finish : State → Result Bytes
  pub patience : ℕ

-- The encoder of `zstd` is a writer, its decoder reads from a reader to its end; the number is the
-- fuel of its loop.
pub record Zstd : Type 1 where
  pub State : Type 0
  pub new_encoder : ℤ → Result State
  pub write_all : State → Bytes → Result State
  pub finish : State → Result Bytes
  pub Decoder : Type 0
  pub new_decoder : Result Decoder
  pub read_to_end : ℕ → Decoder → (r : Reader) → r.State → Result Bytes

pub record Crates : Type 1 where
  pub deflate_encoder : Level → Codec
  pub deflate_decoder : Codec
  pub bz_encoder : Level → Codec
  pub bz_decoder : Codec
  pub lzma_compressor : ℕ → Lzma
  pub lzma_decompressor : Lzma
  pub zstd : Zstd

-- `unwrap` of a result turns an error into a panic.
abbrev pub unwrap {ℓ} : {A : Type ℓ} → Result A → Result A
unwrap (ok a) = ok a
unwrap (err e) = panics
unwrap panics = panics
unwrap stuck = stuck

-- The loop of `Xz2` over one part.
unfoldable pub write_from : (lz : Lzma) → ℕ → lz.State → ℕ → Bytes → Result lz.State
write_from lz zero s index sg_part = stuck
write_from lz (suc fuel) s index sg_part = elim (ltb index (length sg_part)) [
  | true ↦
      unwrap (lz.write s (drop index sg_part)) >>= λ r. write_from lz fuel r.1 (index + r.0) sg_part
  | false ↦ ok s
]

abbrev pub rounds : Lzma → Bytes → ℕ
rounds lz sg_part = suc (suc (length sg_part) * suc lz.patience)

module _ (R : ArcRefs) where
  unfoldable pub write_parts : {S : Type 0} → (S → Bytes → Result S) → S → SgData R → Result S
  write_parts write s [] = ok s
  write_parts write s (part ∷ parts) = do s' ← write s (R.deref part); write_parts write s' parts

  -- `Deflate` and `Bzip2`: errors of the encoder are unwrapped, those of the decoder returned.
  unfoldable pub stream_compress : Codec → SgData R → Result (SgData R)
  unfolding write_parts
  stream_compress c buf = do
    s ← write_parts (λ s x. unwrap (c.write_all s x)) c.new buf
    out ← unwrap (c.finish s)
    ok (SgData.from_single R out)

  unfoldable pub stream_decompress : Codec → SgData R → Result (SgData R)
  unfolding write_parts
  stream_decompress c buf = do
    s ← write_parts c.write_all c.new buf
    out ← c.finish s
    ok (SgData.from_single R out)

  abbrev pub stream_compression : Codec → Codec → Compression R
  stream_compression encoder decoder = record {
    compress = stream_compress encoder;
    decompress = stream_decompress decoder;
  }

  -- `Xz2`: every error is unwrapped.
  unfoldable pub xz_run : Lzma → SgData R → Result (SgData R)
  unfolding write_from write_parts
  xz_run lz buf = do
    s ← unwrap lz.new
    s' ← write_parts (λ t x. write_from lz (rounds lz x) t 0 x) s buf
    out ← unwrap (lz.finish s')
    ok (SgData.from_single R out)

  abbrev pub xz2 : (ℕ → Lzma) → Lzma → ℤ → Compression R
  xz2 compressor decompressor level = record {
    compress = xz_run (compressor (preset_of level));
    decompress = xz_run decompressor;
  }

  -- `SGReader`
  pub record SgReader : Type 0 where
    pub parts : SgData R
    pub parts_i : ℕ
    pub part_offset : ℕ

  pub on_slice : ℕ → Bytes → SgReader → Result Bytes × SgReader → Result Bytes × SgReader
  on_slice n [] s again = again
  on_slice n (b ∷ cur_slice) s again =
      let to_copy = min n (length (b ∷ cur_slice)) in
      (ok (take to_copy (b ∷ cur_slice)), record s { part_offset = s.part_offset + to_copy })

  pub at_part : ℕ → SgData R → SgReader → Result Bytes × SgReader → Result Bytes × SgReader
  unfolding on_slice
  at_part n [] s again = (ok [], s)
  at_part n (part ∷ rest) s again =
      if ltb (length (R.deref part)) s.part_offset
      then (panics, s)
      else on_slice n (drop s.part_offset (R.deref part)) s again

  -- The loop of `read`: an empty slice takes it to the next part.
  pub read_loop : ℕ → ℕ → SgReader → Result Bytes × SgReader
  unfolding at_part
  read_loop zero n s = (stuck, s)
  read_loop (suc fuel) n s =
      at_part n (drop s.parts_i s.parts) s
        (read_loop fuel n (record s { parts_i = s.parts_i + 1; part_offset = 0 }))

  abbrev pub sg_reader : Reader
  sg_reader = record { State = SgReader; read = λ n s. read_loop (suc (length s.parts)) n s }

  abbrev pub new_reader : SgData R → SgReader
  new_reader parts = record { parts = parts; parts_i = 0; part_offset = 0 }

  unfoldable pub zstd_compress : Zstd → ℤ → SgData R → Result (SgData R)
  unfolding write_parts
  zstd_compress z level buf = do
    s ← unwrap (z.new_encoder level)
    s' ← write_parts (λ t x. unwrap (z.write_all t x)) s buf
    out ← unwrap (z.finish s')
    ok (SgData.from_single R out)

  unfoldable pub zstd_decompress : Zstd → SgData R → Result (SgData R)
  zstd_decompress z buf = do
    decoder ← unwrap z.new_decoder
    out ← z.read_to_end (suc (SgData.len R buf)) decoder sg_reader (new_reader buf)
    ok (SgData.from_single R out)

  abbrev pub zstd_compression : Zstd → ℤ → Compression R
  zstd_compression z level = record {
    compress = zstd_compress z level;
    decompress = zstd_decompress z;
  }

  -- `config::Compression::to_engine`
  unfoldable pub to_engine : Crates → Config.Compression → Compression R
  to_engine c Config.Compression.no_compression = no_compression R
  to_engine c (Config.Compression.deflate level) =
      stream_compression (c.deflate_encoder (level_of level)) c.deflate_decoder
  to_engine c (Config.Compression.xz2 level) = xz2 c.lzma_compressor c.lzma_decompressor level
  to_engine c (Config.Compression.bzip2 level) =
      stream_compression (c.bz_encoder (level_of level)) c.bz_decoder
  to_engine c (Config.Compression.zstd level) = zstd_compression c.zstd level

-- What is compressed comes back, read from the store in any pieces.
pub record IsCompression (R : ArcRefs) (C : Compression R) : Type 0 where
  pub decompress-compress :
      (buf : SgData R)
      → (z : SgData R) × (C.compress buf ≡ ok z)
        × ((z' : SgData R)
            → bytes R z' ≡ bytes R z
            → (b : SgData R) × (C.decompress z' ≡ ok b) × (bytes R b ≡ bytes R buf))

pub no_compression-IsCompression : (R : ArcRefs) → IsCompression R (no_compression R)
no_compression-IsCompression R = record {
  decompress-compress = λ buf. (buf, refl, λ z' same. (z', refl, same));
}
