-- ===== src/Local/Sound/Removal.antt =====
-- The removal of a directory leaves a sound disk.
use rdedup.Base.{◌≡◌, refl, true, Bool-cases, not, Bytes, List, [], ◌∷◌, inl, inr}
use rdedup.Nesting.{FilePath}
use rdedup.Aio.{Layout}
use rdedup.Disk.{Disk, is_below, files_off, dirs_off}
use rdedup.Local.Shapes.{dir_shape}
use rdedup.Local.Sound.{sound, dirs_sound, files_sound, and-true, and-left, and-right}

abbrev pub off : FilePath → Disk → Disk
off dir d = record { files = files_off dir d.files; dirs = dirs_off dir d.dirs }

module _ (l : Layout) (dir : FilePath) where
  dirs_sound-off :
      (dirs : List FilePath) → dirs_sound l dirs ≡ true → dirs_sound l (dirs_off dir dirs) ≡ true
  unfolding dirs_sound dirs_off
  dirs_sound-off [] s = refl
  dirs_sound-off (p ∷ dirs) s =
      let rest = dirs_sound-off dirs (and-right (dir_shape l p) _ s) in
      elim (Bool-cases (is_below dir p)) [
        | inl e ↦ rw e rest
        | inr e ↦ rw e (and-true (dir_shape l p) _ (and-left _ (dirs_sound l dirs) s) rest)
      ]

  files_sound-off :
      (files : List (FilePath × Bytes))
      → files_sound l files ≡ true
      → files_sound l (files_off dir files) ≡ true
  unfolding files_sound files_off
  files_sound-off [] s = refl
  files_sound-off ((p, b) ∷ files) s =
      let rest = files_sound-off files (and-right (not (dir_shape l p)) _ s) in
      elim (Bool-cases (is_below dir p)) [
        | inl e ↦ rw e rest
        | inr e ↦ rw e (and-true (not (dir_shape l p)) _ (and-left _ (files_sound l files) s) rest)
      ]

  pub sound-off : (d : Disk) → sound l d ≡ true → sound l (off dir d) ≡ true
  unfolding sound
  sound-off d s =
      and-true (dirs_sound l (dirs_off dir d.dirs)) _
        (dirs_sound-off d.dirs (and-left _ (files_sound l d.files) s))
        (files_sound-off d.files (and-right (dirs_sound l d.dirs) _ s))
