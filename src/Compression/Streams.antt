-- ===== src/Compression/Streams.antt =====
-- Writers that keep what was written: what the engines rely on in an encoder and a decoder.
use rdedup.Base.{
  ◌≡◌, refl, ◌∙◌, sym, ap, subst, Bytes, Result, ok, ◌>>=◌, [], ◌∷◌, ◌++◌, append_assoc, append-nil,
}
use rdedup.SgData
use rdedup.SgData.{ArcRefs, IsArcRef, SgData, bytes}
use rdedup.SgData.Laws.{bytes-from_single}
use rdedup.Compression.{
  IsCompression, Codec, unwrap, write_parts, stream_compress, stream_decompress, stream_compression,
}

-- A way to write takes all that keeps what was written acceptable.
pub record Takes {S : Type 0} (write : S → Bytes → Result S) (written : S → Bytes)
    (Accepts : Bytes → Type 0) : Type 0 where
  pub takes :
      (s : S) (x : Bytes)
      → Accepts (written s ++ x)
      → (s' : S) × (write s x ≡ ok s') × (written s' ≡ written s ++ x)
  pub front : (x y : Bytes) → Accepts (x ++ y) → Accepts x

-- The front of what `encode` gives.
abbrev pub FrontOf : (Bytes → Bytes) → Bytes → Type 0
FrontOf encode x = (b : Bytes) × (rest : Bytes) × (x ++ rest ≡ encode b)

pub FrontOf-front :
    (encode : Bytes → Bytes) (x y : Bytes) → FrontOf encode (x ++ y) → FrontOf encode x
FrontOf-front encode x y (b, rest, e) = (b, y ++ rest, sym (append_assoc x y rest) ∙ e)

pub FrontOf-whole : (encode : Bytes → Bytes) (b x : Bytes) → x ≡ encode b → FrontOf encode x
FrontOf-whole encode b x e = (b, [], append-nil x ∙ e)

-- What the program relies on in an encoder: it takes all, and its result depends only on what was
-- written, not on the pieces.
pub record IsEncoder (c : Codec) (encode : Bytes → Bytes) : Type 0 where
  pub written : c.State → Bytes
  pub new-nil : written c.new ≡ []
  pub write_all-append :
      (s : c.State) (x : Bytes)
      → (s' : c.State) × (c.write_all s x ≡ ok s') × (written s' ≡ written s ++ x)
  pub finish-encode : (s : c.State) → c.finish s ≡ ok (encode (written s))

-- What it relies on in a decoder: it takes any front of what the encoder gives, in any pieces, and
-- hands out what was encoded when it has the whole.
pub record IsDecoder (c : Codec) (encode : Bytes → Bytes) : Type 0 where
  pub written : c.State → Bytes
  pub new-nil : written c.new ≡ []
  pub write_all-append :
      (s : c.State) (x : Bytes)
      → FrontOf encode (written s ++ x)
      → (s' : c.State) × (c.write_all s x ≡ ok s') × (written s' ≡ written s ++ x)
  pub finish-decode : (s : c.State) (b : Bytes) → written s ≡ encode b → c.finish s ≡ ok b

module _ (R : ArcRefs) where
  pub write_parts-Takes :
      {S : Type 0} (write : S → Bytes → Result S) (written : S → Bytes) (Accepts : Bytes → Type 0)
      → Takes write written Accepts
      → (s : S) (sg : SgData R) → Accepts (written s ++ bytes R sg)
      → (s' : S) × (write_parts R write s sg ≡ ok s') × (written s' ≡ written s ++ bytes R sg)
  unfolding write_parts
  write_parts-Takes write written Accepts T s [] a = (s, refl, sym (append-nil (written s)))
  write_parts-Takes write written Accepts T s (x ∷ sg) a =
      let whole = append_assoc (written s) (R.deref x) (bytes R sg) in
      let a' = subst Accepts (sym whole) a in
      let (s₁, run₁, w₁) = T.takes s (R.deref x) (T.front (written s ++ R.deref x) _ a') in
      let (s₂, run₂, w₂) =
        write_parts-Takes write written Accepts T s₁ sg
          (subst (λ w. Accepts (w ++ bytes R sg)) (sym w₁) a') in
      (
        s₂,
        ap (λ r. r >>= λ t. write_parts R write t sg) run₁ ∙ run₂,
        w₂ ∙ ap (λ w. w ++ bytes R sg) w₁ ∙ whole,
      )

module _ (R : ArcRefs) (L : IsArcRef R) (encoder decoder : Codec) (encode : Bytes → Bytes)
    (E : IsEncoder encoder encode) (D : IsDecoder decoder encode) where
  encoder-Takes : Takes (λ s x. unwrap (encoder.write_all s x)) E.written (λ x. Unit)
  encoder-Takes = record {
    takes = λ s x a. let (s', run, w) = E.write_all-append s x in (s', ap unwrap run, w);
    front = λ x y a. tt;
  }

  decoder-Takes : Takes decoder.write_all D.written (FrontOf encode)
  decoder-Takes = record { takes = D.write_all-append; front = FrontOf-front encode }

  stream_compress_lem :
      (buf : SgData R)
      → stream_compress R encoder buf ≡ ok (SgData.from_single R (encode (bytes R buf)))
  unfolding stream_compress
  stream_compress_lem buf =
      let (s, run, w) = write_parts-Takes R _ E.written _ encoder-Takes encoder.new buf tt in
      let all = w ∙ ap (λ x. x ++ bytes R buf) E.new-nil in
      ap (λ r. r >>= λ t. unwrap (encoder.finish t) >>= λ out. ok (SgData.from_single R out)) run
      ∙ ap (λ r. unwrap r >>= λ out. ok (SgData.from_single R out)) (E.finish-encode s)
      ∙ ap (λ x. ok (SgData.from_single R (encode x))) all

  stream_decompress_lem :
      (z : SgData R) (b : Bytes)
      → bytes R z ≡ encode b
      → stream_decompress R decoder z ≡ ok (SgData.from_single R b)
  unfolding stream_decompress
  stream_decompress_lem z b e =
      let start = ap (λ x. x ++ bytes R z) D.new-nil in
      let (s, run, w) =
        write_parts-Takes R _ D.written _ decoder-Takes decoder.new z
          (FrontOf-whole encode b _ (start ∙ e)) in
      ap (λ r. r >>= λ t. decoder.finish t >>= λ out. ok (SgData.from_single R out)) run
      ∙ ap (λ r. r >>= λ out. ok (SgData.from_single R out)) (D.finish-decode s b (w ∙ start ∙ e))

  pub stream_compression-IsCompression : IsCompression R (stream_compression R encoder decoder)
  stream_compression-IsCompression = record {
    decompress-compress = λ buf.
        let single = bytes-from_single R L in
        (
          SgData.from_single R (encode (bytes R buf)),
          stream_compress_lem buf,
          λ z' same. (
            SgData.from_single R (bytes R buf),
            stream_decompress_lem z' (bytes R buf) (same ∙ single (encode (bytes R buf))),
            single (bytes R buf),
          ),
        );
  }
