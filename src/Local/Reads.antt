-- ===== src/Local/Reads.antt =====
-- What the reading calls of lib/src/aio/local.rs give on a sound disk, and the removal of a file.
use rdedup.Base.{
  ℕ, zero, suc, ◌≤◌, ◌≡◌, refl, ◌∙◌, ap, Bool, true, false, ◌&&◌, Bytes, length, length-drop,
  take-append-drop, take, drop, concat, All, none, some, ok, err, not_found, [], ◌∷◌, ◌++◌, arith,
  inl, inr, ◌⊎◌,
}
use rdedup.SgData
use rdedup.SgData.{ArcRefs, IsArcRef, SgData, bytes}
use rdedup.SgData.Laws.{bytes-from_many, from_many-IsWhole}
use rdedup.Input.{ingress_buffer_size}
use rdedup.Aio.{Layout, Key, key_path, Metadata}
use rdedup.Disk
use rdedup.Disk.{Disk, file_at, drop_file, is_dir, remove_found, exists, or_dir}
use rdedup.Local
use rdedup.Local.{read_bufs, read_file, metadata_of}
use rdedup.Local.Shapes.{dir_shape-key}
use rdedup.Local.Sound.{sound, sound-not_dir}
use rdedup.Local.Files.{stored}

module _ (R : ArcRefs) (L : IsArcRef R) where
  pub concat-read_bufs : (fuel : ℕ) (b : Bytes) → length b ≤ fuel → concat (read_bufs R fuel b) ≡ b
  unfolding read_bufs
  concat-read_bufs zero [] h = refl
  concat-read_bufs zero (x ∷ b) h = absurd (omega (arith, h))
  concat-read_bufs (suc fuel) [] h = refl
  concat-read_bufs (suc fuel) (x ∷ b) h =
      let n = ingress_buffer_size in
      ap (λ r. take n (x ∷ b) ++ r)
        (concat-read_bufs fuel (drop n (x ∷ b)) (omega (arith, h, length-drop n (x ∷ b))))
      ∙ take-append-drop n (x ∷ b)

  module _ (l : Layout) (k : Key) (d : Disk) where
    -- A stored file is read whole, into vectors of its own.
    pub read-some_lem :
        (b : Bytes)
        → stored l d k ≡ some b
        → (sg : SgData R) × (Local.read R (key_path l k) d ≡ ok sg)
          × (bytes R sg ≡ b)
          × All (λ p. R.owner p ≡ R.deref p) sg
    unfolding Local.read read_file stored
    read-some_lem b e = (
      SgData.from_many R (read_bufs R (length b) b),
      ap (read_file R (is_dir (key_path l k) d)) e,
      bytes-from_many R L (read_bufs R (length b) b) ∙ concat-read_bufs (length b) b (omega arith),
      from_many-IsWhole R L (read_bufs R (length b) b),
    )

    pub read-none_lem :
        sound l d ≡ true → stored l d k ≡ none → Local.read R (key_path l k) d ≡ err not_found
    unfolding Local.read read_file stored
    read-none_lem s e =
        ap (read_file R (is_dir (key_path l k) d)) e
        ∙ ap (λ dir. read_file R dir none) (sound-not_dir l (key_path l k) d s (dir_shape-key l k))

module _ (l : Layout) (k : Key) (d : Disk) where
  pub read_metadata-some_lem :
      (b : Bytes)
      → stored l d k ≡ some b
      → (m : Metadata) × (Local.read_metadata (key_path l k) d ≡ ok m)
  unfolding Local.read_metadata metadata_of stored
  read_metadata-some_lem b e =
      (record { len = length b; is_file = true }, ap (metadata_of (is_dir (key_path l k) d)) e)

  pub read_metadata-none_lem :
      sound l d ≡ true → stored l d k ≡ none → Local.read_metadata (key_path l k) d ≡ err not_found
  unfolding Local.read_metadata metadata_of stored
  read_metadata-none_lem s e =
      ap (metadata_of (is_dir (key_path l k) d)) e
      ∙ ap (λ dir. metadata_of dir none) (sound-not_dir l (key_path l k) d s (dir_shape-key l k))

  pub exists-some : (b : Bytes) → stored l d k ≡ some b → exists (key_path l k) d ≡ true
  unfolding exists or_dir stored
  exists-some b e = ap (λ o. or_dir o (is_dir (key_path l k) d)) e

  exists-none : sound l d ≡ true → stored l d k ≡ none → exists (key_path l k) d ≡ false
  unfolding exists or_dir stored
  exists-none s e =
      ap (λ o. or_dir o (is_dir (key_path l k) d)) e
      ∙ sound-not_dir l (key_path l k) d s (dir_shape-key l k)

  and-false : (a : Bool) → a && false ≡ false
  and-false true = refl
  and-false false = refl

  -- `write` is to write the file if there is none, or if it is not said to be the same.
  pub not-kept :
      (idempotent : Bool)
      → sound l d ≡ true
      → (stored l d k ≡ none) ⊎ (idempotent ≡ false)
      → idempotent && exists (key_path l k) d ≡ false
  not-kept idempotent s (inl e) = ap (λ b. idempotent && b) (exists-none s e) ∙ and-false idempotent
  not-kept idempotent s (inr e) = ap (λ b. b && exists (key_path l k) d) e

  pub remove-some_lem :
      (b : Bytes)
      → stored l d k ≡ some b
      → Local.remove (key_path l k) d ≡ (ok tt, drop_file (key_path l k) d)
  unfolding Local.remove Disk.remove_file remove_found stored
  remove-some_lem b e = ap (λ o. remove_found (key_path l k) (is_dir (key_path l k) d) o d) e

  pub remove-none_lem :
      sound l d ≡ true → stored l d k ≡ none → Local.remove (key_path l k) d ≡ (err not_found, d)
  unfolding Local.remove Disk.remove_file remove_found stored
  remove-none_lem s e =
      ap (λ o. remove_found (key_path l k) (is_dir (key_path l k) d) o d) e
      ∙ ap (λ dir. remove_found (key_path l k) dir none d)
          (sound-not_dir l (key_path l k) d s (dir_shape-key l k))
