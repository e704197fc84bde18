-- ===== src/Compression/Engines.antt =====
-- Every engine of lib/src/compression.rs gives back what it compressed.
use rdedup.Base.{
  suc, length, append_assoc, append-nil, ℕ, ◌≤◌, ◌<◌, ◌≡◌, refl, ◌∙◌, sym, ap, subst, ◌⊎◌, inl, inr,
  Bool, true, false, leb, Bytes, ok, err, panics, ErrorKind, ◌>>=◌, [], ◌∷◌, ◌++◌, arith,
}
use rdedup.SgData.Laws.{len-eq-length, bytes-from_single}
use rdedup.SgData
use rdedup.SgData.{ArcRefs, IsArcRef, SgData, bytes}
use rdedup.Input.{Reader}
use rdedup.Config
use rdedup.Config.{ℤ}
use rdedup.Compression.{
  Compression, IsCompression, no_compression-IsCompression, Level, level_of, preset_of, Zstd,
  Crates, unwrap, write_parts, xz_run, sg_reader, new_reader, zstd_compress, zstd_decompress,
  zstd_compression, xz2, to_engine,
}
use rdedup.Compression.Streams.{
  FrontOf, FrontOf-whole, IsEncoder, IsDecoder, stream_compression-IsCompression,
}
use rdedup.Compression.Xz.{IsLzma, xz_run_lem}
use rdedup.Compression.Parts.{GivesAll, sg_reader-GivesAll}

-- What the program relies on in `zstd`: the encoder takes all, and the decoder reads what a reader
-- gives, whatever its pieces.
pub record IsZstd (z : Zstd) (encode : ℤ → Bytes → Bytes) : Type 1 where
  pub start : ℤ → z.State
  pub new_encoder-ok : (level : ℤ) → z.new_encoder level ≡ ok (start level)
  pub written : z.State → Bytes
  pub level : z.State → ℤ
  pub start-nil : (l : ℤ) → written (start l) ≡ []
  pub start-level : (l : ℤ) → level (start l) ≡ l
  pub write_all-append :
      (s : z.State) (x : Bytes)
      → (s' : z.State) × (z.write_all s x ≡ ok s')
        × (written s' ≡ written s ++ x)
        × (level s' ≡ level s)
  pub finish-encode : (s : z.State) → z.finish s ≡ ok (encode (level s) (written s))
  pub decoder : z.Decoder
  pub new_decoder-ok : z.new_decoder ≡ ok decoder
  pub read_to_end-decode :
      (fuel : ℕ) (r : Reader) (from : r.State) (l : ℤ) (b : Bytes)
      → length (encode l b) < fuel
      → GivesAll r from (encode l b)
      → z.read_to_end fuel decoder r from ≡ ok b

-- What it relies on in the crates. The presets of `lzma` end at 9.
pub record IsCrates (c : Crates) : Type 1 where
  pub deflate_encode : Level → Bytes → Bytes
  pub deflate_encoder-Is : (l : Level) → IsEncoder (c.deflate_encoder l) (deflate_encode l)
  pub deflate_decoder-Is : (l : Level) → IsDecoder c.deflate_decoder (deflate_encode l)
  pub bz_encode : Level → Bytes → Bytes
  pub bz_encoder-Is : (l : Level) → IsEncoder (c.bz_encoder l) (bz_encode l)
  pub bz_decoder-Is : (l : Level) → IsDecoder c.bz_decoder (bz_encode l)
  pub lzma_encode : ℕ → Bytes → Bytes
  pub lzma_compressor-Is :
      (preset : ℕ)
      → preset ≤ 9
      → IsLzma (c.lzma_compressor preset) (λ x. Unit) (λ w out. out ≡ lzma_encode preset w)
  pub lzma_decompressor-Is :
      (preset : ℕ)
      → preset ≤ 9
      → IsLzma c.lzma_decompressor
          (FrontOf (lzma_encode preset))
          (λ w out. w ≡ lzma_encode preset out)
  pub lzma_compressor-err :
      (preset : ℕ) → 9 < preset → (e : ErrorKind) × ((c.lzma_compressor preset).new ≡ err e)
  pub zstd_encode : ℤ → Bytes → Bytes
  pub zstd-Is : IsZstd c.zstd zstd_encode

module _ (R : ArcRefs) (L : IsArcRef R) where
  module _ (z : Zstd) (encode : ℤ → Bytes → Bytes) (Z : IsZstd z encode) (l : ℤ) where
    zstd_parts :
        (s : z.State) (sg : SgData R)
        → (s' : z.State) × (write_parts R (λ t x. unwrap (z.write_all t x)) s sg ≡ ok s')
          × (Z.written s' ≡ Z.written s ++ bytes R sg)
          × (Z.level s' ≡ Z.level s)
    unfolding write_parts
    zstd_parts s [] = (s, refl, sym (append-nil (Z.written s)), refl)
    zstd_parts s (x ∷ sg) =
        let (s₁, run₁, w₁, l₁) = Z.write_all-append s (R.deref x) in
        let (s₂, run₂, w₂, l₂) = zstd_parts s₁ sg in
        (
          s₂,
          ap (λ r. unwrap r >>= λ t. write_parts R (λ t x. unwrap (z.write_all t x)) t sg) run₁
              ∙ run₂,
          w₂ ∙ ap (λ w. w ++ bytes R sg) w₁ ∙ append_assoc (Z.written s) (R.deref x) (bytes R sg),
          l₂ ∙ l₁,
        )

    zstd_compress_lem :
        (buf : SgData R)
        → zstd_compress R z l buf ≡ ok (SgData.from_single R (encode l (bytes R buf)))
    unfolding zstd_compress
    zstd_compress_lem buf =
        let (s, run, w, same) = zstd_parts (Z.start l) buf in
        ap
          (λ r. unwrap r >>= λ t. write_parts R (λ t x. unwrap (z.write_all t x)) t buf >>= λ t'.
            unwrap (z.finish t') >>= λ o. ok (SgData.from_single R o))
          (Z.new_encoder-ok l)
        ∙ ap (λ r. r >>= λ t'. unwrap (z.finish t') >>= λ o. ok (SgData.from_single R o)) run
        ∙ ap (λ r. unwrap r >>= λ o. ok (SgData.from_single R o)) (Z.finish-encode s)
        ∙ ap (λ m. ok (SgData.from_single R (encode m (Z.written s)))) (same ∙ Z.start-level l)
        ∙ ap (λ x. ok (SgData.from_single R (encode l x)))
            (w ∙ ap (λ x. x ++ bytes R buf) (Z.start-nil l))

    zstd_decompress_lem :
        (sg : SgData R) (b : Bytes)
        → bytes R sg ≡ encode l b
        → zstd_decompress R z sg ≡ ok (SgData.from_single R b)
    unfolding zstd_decompress
    zstd_decompress_lem sg b e =
        let all = subst (GivesAll (sg_reader R) (new_reader R sg)) e (sg_reader-GivesAll R sg) in
        ap
          (λ r. unwrap r >>= λ d.
            z.read_to_end (suc (SgData.len R sg)) d (sg_reader R) (new_reader R sg) >>= λ o.
            ok (SgData.from_single R o))
          Z.new_decoder-ok
        ∙ ap (λ r. r >>= λ o. ok (SgData.from_single R o))
            (Z.read_to_end-decode (suc (SgData.len R sg)) (sg_reader R) (new_reader R sg) l b
              (omega (arith, len-eq-length R sg, ap length e)) all)

  -- An engine whose two ways are a code and its inverse on single vectors.
  single-IsCompression :
      (E : Compression R) (encode : Bytes → Bytes)
      → ((buf : SgData R) → E.compress buf ≡ ok (SgData.from_single R (encode (bytes R buf))))
      → ((z : SgData R) (b : Bytes)
          → bytes R z ≡ encode b
          → E.decompress z ≡ ok (SgData.from_single R b))
      → IsCompression R E
  single-IsCompression E encode c d = record {
    decompress-compress = λ buf. (
      SgData.from_single R (encode (bytes R buf)),
      c buf,
      λ z' same. (
        SgData.from_single R (bytes R buf),
        d z' (bytes R buf) (same ∙ bytes-from_single R L (encode (bytes R buf))),
        bytes-from_single R L (bytes R buf),
      ),
    );
  }

  module _ (c : Crates) (C : IsCrates c) where
    xz2-IsCompression :
        (level : ℤ)
        → preset_of level ≤ 9
        → IsCompression R (xz2 R c.lzma_compressor c.lzma_decompressor level)
    xz2-IsCompression level h =
        let preset = preset_of level in
        let encode = C.lzma_encode preset in
        single-IsCompression (xz2 R c.lzma_compressor c.lzma_decompressor level) encode
          (λ buf.
            xz_run_lem (c.lzma_compressor preset) _ _ (C.lzma_compressor-Is preset h) R buf _ tt
              refl)
          (λ z b e.
            xz_run_lem c.lzma_decompressor _ _ (C.lzma_decompressor-Is preset h) R z b
              (FrontOf-whole encode b _ e) e)

    xz2-panics :
        (level : ℤ) (buf : SgData R)
        → 9 < preset_of level
        → (xz2 R c.lzma_compressor c.lzma_decompressor level).compress buf ≡ panics
    unfolding xz_run
    xz2-panics level buf h =
        let (e, failed) = C.lzma_compressor-err (preset_of level) h in rw failed refl

    -- The preset that a configuration gives, for the engine that has presets.
    pub preset : Config.Compression → ℕ
    preset Config.Compression.no_compression = 0
    preset (Config.Compression.deflate level) = 0
    preset (Config.Compression.xz2 level) = preset_of level
    preset (Config.Compression.bzip2 level) = 0
    preset (Config.Compression.zstd level) = 0

    leb-cases : (n : ℕ) (b : Bool) → leb n 9 ≡ b → (n ≤ 9) ⊎ (9 < n)
    leb-cases n true e = inl (ground (arith, e))
    leb-cases n false e = inr (ground (arith, e))

    -- Whatever engine a configuration chooses, at whatever level, and however the data is cut: what
    -- it compresses it gives back, read from the store in any pieces; or the configuration is `xz2`
    -- with a level that makes a preset above 9, and every compression panics. Conditions: the
    -- crates take all that is written to them, and their decoders invert their encoders.
    pub to_engine-IsCompression :
        (config : Config.Compression)
        → IsCompression R (to_engine R c config)
          ⊎ ((9 < preset config)
              × ((buf : SgData R) → (to_engine R c config).compress buf ≡ panics))
    unfolding to_engine preset
    to_engine-IsCompression Config.Compression.no_compression = inl (no_compression-IsCompression R)
    to_engine-IsCompression (Config.Compression.deflate level) =
        let l = level_of level in
        inl (
          stream_compression-IsCompression R L (c.deflate_encoder l) c.deflate_decoder
            (C.deflate_encode l) (C.deflate_encoder-Is l) (C.deflate_decoder-Is l))
    to_engine-IsCompression (Config.Compression.xz2 level) =
        elim (leb-cases (preset_of level) (leb (preset_of level) 9) refl) [
          | inl h ↦ inl (xz2-IsCompression level h)
          | inr h ↦ inr (h, λ buf. xz2-panics level buf h)
        ]
    to_engine-IsCompression (Config.Compression.bzip2 level) =
        let l = level_of level in
        inl (
          stream_compression-IsCompression R L (c.bz_encoder l) c.bz_decoder (C.bz_encode l)
            (C.bz_encoder-Is l) (C.bz_decoder-Is l))
    to_engine-IsCompression (Config.Compression.zstd level) = inl (
        single-IsCompression (zstd_compression R c.zstd level) (C.zstd_encode level)
          (zstd_compress_lem c.zstd C.zstd_encode C.zstd-Is level)
          (zstd_decompress_lem c.zstd C.zstd_encode C.zstd-Is level))
