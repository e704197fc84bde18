-- ===== src/Tests/Packed.antt =====
-- Encoders that put a byte in front, and decoders that take it off.
use rdedup.Base.{
  ◌>>=◌, ℕ, zero, suc, ◌<◌, ◌≤◌, ◌≡◌, ◌≢◌, refl, ◌∙◌, sym, ap, ◌⊎◌, inl, inr, Bool, true, false,
  leb, Bytes, length, length-append, take, drop, Result, ok, err, panics, stuck, other, [], ◌∷◌,
  ◌++◌, append-nil, if◌then◌else◌, arith,
}
use rdedup.SgData.{SgData}
use rdedup.Input.{Reader}
use rdedup.Config
use rdedup.Config.{ℤ, pos}
use rdedup.Compression.{Codec, Lzma, Zstd, Crates, IsCompression, to_engine}
use rdedup.Compression.Streams.{FrontOf, FrontOf-front, IsEncoder, IsDecoder}
use rdedup.Compression.Xz.{IsLzma}
use rdedup.Compression.Parts.{GivesAll}
use rdedup.Compression.Engines.{IsZstd, IsCrates, preset, to_engine-IsCompression}
use rdedup.Tests.Crates.{window, window-IsArcRef}

abbrev pub mark : Bytes → Bytes
mark b = 7 ∷ b

abbrev pub marker : Codec
marker = record {
  State = Bytes;
  new = [];
  write_all = λ s x. ok (s ++ x);
  finish = λ s. ok (mark s);
}

abbrev pub unmarker : Codec
unmarker = record {
  State = Bytes;
  new = [];
  write_all = λ s x. ok (s ++ x);
  finish = λ s. ok (drop 1 s);
}

marker-IsEncoder : IsEncoder marker mark
marker-IsEncoder = record {
  written = λ s. s;
  new-nil = refl;
  write_all-append = λ s x. (s ++ x, refl, refl);
  finish-encode = λ s. refl;
}

unmarker-IsDecoder : IsDecoder unmarker mark
unmarker-IsDecoder = record {
  written = λ s. s;
  new-nil = refl;
  write_all-append = λ s x a. (s ++ x, refl, refl);
  finish-decode = λ s b e. ap (λ x. ok (drop 1 x)) e;
}

-- It takes one byte in every other call, and none in the others.
pub slow_write : Bytes × Bool → Bytes → Result (ℕ × (Bytes × Bool))
slow_write (w, true) x = ok (0, (w, false))
slow_write (w, false) [] = ok (0, (w, false))
slow_write (w, false) (b ∷ x) = ok (1, (w ++ (b ∷ []), true))

abbrev held : Bytes × Bool → ℕ
held (w, true) = 1
held (w, false) = 0

held-le : (s : Bytes × Bool) → held s ≤ 1
held-le (w, true) = omega arith
held-le (w, false) = omega arith

slow_write-takes :
    (s : Bytes × Bool) (x : Bytes)
    → x ≢ []
    → (n : ℕ) × (s' : Bytes × Bool) × (slow_write s x ≡ ok (n, s'))
      × (n ≤ length x)
      × (s'.0 ≡ s.0 ++ take n x)
      × ((0 < n) ⊎ (held s' < held s))
unfolding slow_write
slow_write-takes (w, true) x n =
    (0, (w, false), refl, omega arith, sym (append-nil w), inr (omega arith))
slow_write-takes (w, false) [] n = absurd (n refl)
slow_write-takes (w, false) (b ∷ x) n =
    (1, (w ++ (b ∷ []), true), refl, omega arith, refl, inl (omega arith))

abbrev pub slow_compressor : ℕ → Lzma
slow_compressor preset = record {
  State = Bytes × Bool;
  new = if leb preset 9 then ok ([], false) else err other;
  write = slow_write;
  finish = λ s. ok (mark s.0);
  patience = 1;
}

abbrev pub slow_decompressor : Lzma
slow_decompressor = record {
  State = Bytes × Bool;
  new = ok ([], false);
  write = slow_write;
  finish = λ s. ok (drop 1 s.0);
  patience = 1;
}

leb-true : (n : ℕ) → n ≤ 9 → leb n 9 ≡ true
leb-true n h = ground (arith, h)

leb-false : (n : ℕ) → 9 < n → leb n 9 ≡ false
leb-false n h = ground (arith, h)

slow_compressor-IsLzma :
    (preset : ℕ) → preset ≤ 9 → IsLzma (slow_compressor preset) (λ x. Unit) (λ w out. out ≡ mark w)
slow_compressor-IsLzma preset h = record {
  start = ([], false);
  new-ok = rw (leb-true preset h) refl;
  written = λ s. s.0;
  start-nil = refl;
  pending = held;
  pending-le = held-le;
  write-takes = λ s x n a. slow_write-takes s x n;
  front = λ x y a. tt;
  finish-Gives = λ s out g. ap ok (sym g);
}

slow_decompressor-IsLzma : IsLzma slow_decompressor (FrontOf mark) (λ w out. w ≡ mark out)
slow_decompressor-IsLzma = record {
  start = ([], false);
  new-ok = refl;
  written = λ s. s.0;
  start-nil = refl;
  pending = held;
  pending-le = held-le;
  write-takes = λ s x n a. slow_write-takes s x n;
  front = FrontOf-front mark;
  finish-Gives = λ s out g. ap (λ x. ok (drop 1 x)) g;
}

after_read : {S : Type 0} → Result Bytes × S → (S → Result Bytes) → Result Bytes
after_read (ok [], s) go = ok []
after_read (ok (b ∷ x), s) go = go s >>= λ rest. ok ((b ∷ x) ++ rest)
after_read (err e, s) go = err e
after_read (panics, s) go = panics
after_read (stuck, s) go = stuck

-- All that a reader gives, read by two bytes.
pub read_all : ℕ → (r : Reader) → r.State → Result Bytes
unfolding after_read
read_all zero r s = stuck
read_all (suc fuel) r s = after_read (r.read 2 s) (read_all fuel r)

read_all_lem :
    (r : Reader) (from : r.State) (b : Bytes) (G : GivesAll r from b) (fuel : ℕ) (s : r.State)
    → G.Mine s
    → length (G.left s) < fuel
    → read_all fuel r s ≡ ok (G.left s)
unfolding read_all after_read
read_all_lem r from b G zero s mine h = absurd (omega (arith, h))
read_all_lem r from b G (suc fuel) s mine h =
    let (x, s', run, mine', split, most, end) = G.reads 2 s (omega arith) mine in
    ap (λ o. after_read o (read_all fuel r)) run
    ∙ by_read x s' split end (λ lt. read_all_lem r from b G fuel s' mine' lt)
  where
    by_read :
        (x : Bytes) (s' : r.State)
        → x ++ G.left s' ≡ G.left s
        → (x ≡ [] → G.left s ≡ [])
        → (length (G.left s') < fuel → read_all fuel r s' ≡ ok (G.left s'))
        → after_read (ok x, s') (read_all fuel r) ≡ ok (G.left s)
    by_read [] s' split end rest = ap ok (sym (end refl))
    by_read (x ∷ xs) s' split end rest =
        let shorter : length (G.left s') < fuel =
          omega (arith, h, ap length split, length-append (x ∷ xs) (G.left s')) in
        ap (λ o. o >>= λ rest. ok ((x ∷ xs) ++ rest)) (rest shorter) ∙ ap ok split

abbrev pub zstd_marker : Zstd
zstd_marker = record {
  State = ℤ × Bytes;
  new_encoder = λ l. ok (l, []);
  write_all = λ s x. ok (s.0, s.1 ++ x);
  finish = λ s. ok (mark s.1);
  Decoder = Unit;
  new_decoder = ok tt;
  read_to_end = λ fuel d r from. read_all fuel r from >>= λ x. ok (drop 1 x);
}

zstd_marker-IsZstd : IsZstd zstd_marker (λ l. mark)
zstd_marker-IsZstd = record {
  start = λ l. (l, []);
  new_encoder-ok = λ l. refl;
  written = λ s. s.1;
  level = λ s. s.0;
  start-nil = λ l. refl;
  start-level = λ l. refl;
  write_all-append = λ s x. ((s.0, s.1 ++ x), refl, refl, refl);
  finish-encode = λ s. refl;
  decoder = tt;
  new_decoder-ok = refl;
  read_to_end-decode = λ fuel r from l b h G.
      let whole = G.start-left in
      ap (λ o. o >>= λ x. ok (drop 1 x))
        (read_all_lem r from (mark b) G fuel from G.start-Mine (omega (arith, h, ap length whole)))
      ∙ ap (λ x. ok (drop 1 x)) whole;
}

abbrev pub markers : Crates
markers = record {
  deflate_encoder = λ l. marker;
  deflate_decoder = unmarker;
  bz_encoder = λ l. marker;
  bz_decoder = unmarker;
  lzma_compressor = slow_compressor;
  lzma_decompressor = slow_decompressor;
  zstd = zstd_marker;
}

markers-IsCrates : IsCrates markers
markers-IsCrates = record {
  deflate_encode = λ l. mark;
  deflate_encoder-Is = λ l. marker-IsEncoder;
  deflate_decoder-Is = λ l. unmarker-IsDecoder;
  bz_encode = λ l. mark;
  bz_encoder-Is = λ l. marker-IsEncoder;
  bz_decoder-Is = λ l. unmarker-IsDecoder;
  lzma_encode = λ preset. mark;
  lzma_compressor-Is = slow_compressor-IsLzma;
  lzma_decompressor-Is = λ preset h. slow_decompressor-IsLzma;
  lzma_compressor-err = λ preset h. (other, rw (leb-false preset h) refl);
  zstd_encode = λ l. mark;
  zstd-Is = zstd_marker-IsZstd;
}

to_engine-IsCompression_example :
    IsCompression window (to_engine window markers (Config.Compression.xz2 (pos 3)))
    ⊎ ((9 < preset window window-IsArcRef markers markers-IsCrates (Config.Compression.xz2 (pos 3)))
        × ((buf : SgData window)
            → (to_engine window markers (Config.Compression.xz2 (pos 3))).compress buf ≡ panics))
to_engine-IsCompression_example =
    to_engine-IsCompression window window-IsArcRef markers markers-IsCrates
      (Config.Compression.xz2 (pos 3))
