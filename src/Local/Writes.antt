-- ===== src/Local/Writes.antt =====
-- `write` of lib/src/aio/local.rs on a sound disk: the temporary file, its parts, and the move.
use rdedup.Aio.Pool.{contains}
use rdedup.Local.Files.{
  stored-other, stored, tmp_of, put-ext, stored-set, stored-set_tmp, stored-drop_tmp, stored-made,
}
use rdedup.Base.{
  ◌≡◌, ◌≢◌, refl, ◌∙◌, sym, ap, Bool, true, false, ◌&&◌, Bytes, some, ok, [], ◌∷◌, ◌++◌,
  append_assoc, append-nil,
}
use rdedup.Io.{Io, continue, ◌>>◌}
use rdedup.SgData.{ArcRefs, SgData, bytes}
use rdedup.Nesting.{FilePath}
use rdedup.Aio.{Layout, Key, key_path, put}
use rdedup.Disk
use rdedup.Disk.{Disk, file_at, set_file, drop_file, is_dir, parent, append_to, exists, or_dir}
use rdedup.Disk.Laws.{file_at-set, file_at-set_other}
use rdedup.Local
use rdedup.Local.{create_anyway, write_parts}
use rdedup.Local.Shapes.{IsHex, dir_shape-key}
use rdedup.Local.Names.{dir_shape-tmp, tmp-ne-key}
use rdedup.Local.Sound.{sound, sound-set, sound-drop}
use rdedup.Local.Runs.{rename-there, create_anyway_lem}

pub is_dir-dirs : (p : FilePath) (d d' : Disk) → d'.dirs ≡ d.dirs → is_dir p d' ≡ is_dir p d
unfolding is_dir
is_dir-dirs [] d d' e = refl
is_dir-dirs (c ∷ p) d d' e = ap (contains (c ∷ p)) e

-- A file is extended, and nothing else is changed.
pub record Extended (p : FilePath) (b : Bytes) (d d' : Disk) : Type 0 where
  pub content : file_at p d' ≡ some b
  others : (q : FilePath) → p ≢ q → file_at q d' ≡ file_at q d
  same_dirs : d'.dirs ≡ d.dirs

module _ (R : ArcRefs) where
  -- The parts are written one behind the other. What files that are set keep is kept.
  pub write_parts_lem :
      (Keeps : Disk → Type 0) (p : FilePath)
      → ((b : Bytes) (d : Disk) → Keeps d → Keeps (set_file p b d))
      → (sg : SgData R) (old : Bytes) (d : Disk) → file_at p d ≡ some old
      → Keeps d
      → (d' : Disk) × (write_parts R p sg d ≡ (ok tt, d'))
        × Keeps d'
        × Extended p (old ++ bytes R sg) d d'
  unfolding write_parts Disk.append append_to
  write_parts_lem Keeps p keep [] old d e s = (
    d,
    refl,
    s,
    record { content = e ∙ ap some (sym (append-nil old)); others = λ q n. refl; same_dirs = refl },
  )
  write_parts_lem Keeps p keep (x ∷ sg) old d e s =
      let d₁ = set_file p (old ++ R.deref x) d in
      let (d₂, run, kept, more) =
        write_parts_lem Keeps p keep sg (old ++ R.deref x) d₁ (file_at-set p (old ++ R.deref x) d)
          (keep (old ++ R.deref x) d s) in
      (
        d₂,
        ap (λ o. continue (append_to p (R.deref x) o d) (λ _. write_parts R p sg)) e ∙ run,
        kept,
        record {
          content = more.content ∙ ap some (append_assoc old (R.deref x) (bytes R sg));
          others = λ q n. more.others q n ∙ file_at-set_other p q (old ++ R.deref x) d n;
          same_dirs = more.same_dirs;
        },
      )

module _ (l : Layout) (R : ArcRefs) where
  module _ (H : IsHex l) (rand_ext : Bytes) (k : Key) where
    tmp : FilePath
    tmp = tmp_of l rand_ext k

    -- What `write` does where the file is not kept.
    pub write_file : SgData R → Io Disk (Unit {0})
    write_file sg = do
      create_anyway R (key_path l k) tmp
      write_parts R tmp sg
      Disk.rename tmp (key_path l k)

    pub write_file_lem :
        (sg : SgData R) (d : Disk)
        → sound l d ≡ true
        → (d' : Disk) × (write_file sg d ≡ (ok tt, d'))
          × (sound l d' ≡ true)
          × ((i : Key) → stored l d' i ≡ put (stored l d) k (some (bytes R sg)) i)
    unfolding write_file tmp
    write_file_lem sg d s =
        let path = key_path l k in
        let shape = dir_shape-tmp l rand_ext k in
        let (d₁, run₁, made, there) = create_anyway_lem l R rand_ext k d s in
        let d₂ = set_file tmp [] d₁ in
        let (d₃, run₃, sound₃, more) =
          write_parts_lem R (λ d. sound l d ≡ true) tmp (λ b d s. sound-set l tmp b d s shape) sg []
            d₂ (file_at-set tmp [] d₁) (sound-set l tmp [] d₁ made.still_sound shape) in
        let moved =
          rename-there l tmp k (bytes R sg) d₃ sound₃ more.content
            (is_dir-dirs (parent path) d₁ d₃ more.same_dirs ∙ there) in
        let d₄ = drop_file tmp d₃ in
        (
          set_file path (bytes R sg) d₄,
          ap (λ r. continue r (λ _. write_parts R tmp sg >> Disk.rename tmp path)) run₁
              ∙ ap (λ r. continue r (λ _. Disk.rename tmp path)) run₃
              ∙ moved,
          sound-set l path (bytes R sg) d₄ (sound-drop l tmp d₃ sound₃) (dir_shape-key l k),
          λ i.
              stored-set l H k i (bytes R sg) d₄
              ∙ put-ext (stored l d₄) (stored l d) k i (some (bytes R sg)) (λ j.
                stored-drop_tmp l H rand_ext k j d₃
                ∙ stored-other l j d₂ d₃ (more.others (key_path l j) (tmp-ne-key l H rand_ext k j))
                ∙ stored-set_tmp l H rand_ext k j [] d₁
                ∙ stored-made l j d d₁ made.same_files),
        )

    pub write-not_kept :
        (sg : SgData R) (idempotent : Bool) (d : Disk)
        → idempotent && exists (key_path l k) d ≡ false
        → Local.write R rand_ext (key_path l k) sg idempotent d ≡ write_file sg d
    unfolding Local.write write_file tmp
    write-not_kept sg idempotent d e = rw e refl

    -- A file that is there is kept if it is said to be the same.
    pub write-kept :
        (sg : SgData R) (d : Disk)
        → exists (key_path l k) d ≡ true
        → Local.write R rand_ext (key_path l k) sg true d ≡ (ok tt, d)
    unfolding Local.write
    write-kept sg d e = rw e refl
