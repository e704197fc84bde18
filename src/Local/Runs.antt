-- ===== src/Local/Runs.antt =====
-- The calls of the disk on a sound one, at the paths of a repository.
use rdedup.Base.{
  ◌≡◌, refl, ◌∙◌, sym, ap, subst, Bool, true, false, Bytes, none, some, ok, err, not_found, [], ◌∷◌,
}
use rdedup.Io.{Io, continue, ◌>>◌}
use rdedup.SgData.{ArcRefs}
use rdedup.Nesting.{FilePath}
use rdedup.Aio.{Layout, Key, key_path}
use rdedup.Disk
use rdedup.Disk.{
  Disk, file_at, set_file, drop_file, is_dir, parent, move_file, create_in, append_to,
  create_dir_all,
}
use rdedup.Local.{with_extension, or_else, create_anyway, write_parts}
use rdedup.Local
use rdedup.Local.Shapes.{parts, dir_shape-key, key_path-Dirs}
use rdedup.Local.Names.{tmp_ext, dir_shape-tmp}
use rdedup.Local.Sound.{sound, sound-not_dir, Made, create_dir_all_lem}
use rdedup.Local.Files.{tmp_of}

parent-with_extension :
    (ext c e : Bytes) (path : FilePath)
    → parent (with_extension ext (c ∷ e ∷ path)) ≡ parent (c ∷ e ∷ path)
unfolding parent with_extension
parent-with_extension ext c e [] = refl
parent-with_extension ext c e (f ∷ path) = ap (λ p. c ∷ p) (parent-with_extension ext e f path)

module _ (l : Layout) where
  -- A file is moved where its directory is.
  pub rename-there :
      (src : FilePath) (k : Key) (b : Bytes) (d : Disk)
      → sound l d ≡ true
      → file_at src d ≡ some b
      → is_dir (parent (key_path l k)) d ≡ true
      → Disk.rename src (key_path l k) d ≡ (ok tt, set_file (key_path l k) b (drop_file src d))
  unfolding Disk.rename move_file
  rename-there src k b d s e h =
      ap (λ a. move_file src (key_path l k) a (is_dir (key_path l k) d) (file_at src d) d) h
      ∙ ap (λ a. move_file src (key_path l k) true a (file_at src d) d)
          (sound-not_dir l (key_path l k) d s (dir_shape-key l k))
      ∙ ap (λ o. move_file src (key_path l k) true false o d) e

  pub rename-missing :
      (src dst : FilePath) (d : Disk)
      → file_at src d ≡ none
      → Disk.rename src dst d ≡ (err not_found, d)
  unfolding Disk.rename move_file
  rename-missing src dst d e =
      ap (λ o. move_file src dst (is_dir (parent dst) d) (is_dir dst d) o d) e

  rename-nowhere :
      (src dst : FilePath) (b : Bytes) (d : Disk)
      → file_at src d ≡ some b
      → is_dir (parent dst) d ≡ false
      → Disk.rename src dst d ≡ (err not_found, d)
  unfolding Disk.rename move_file
  rename-nowhere src dst b d e h =
      ap (λ a. move_file src dst a (is_dir dst d) (file_at src d) d) h
      ∙ ap (λ o. move_file src dst false (is_dir dst d) o d) e

  -- The directory of a file is made.
  pub parents_lem :
      (k : Key) (d : Disk)
      → sound l d ≡ true
      → (d' : Disk) × (create_dir_all (parent (key_path l k)) d ≡ (ok tt, d'))
        × Made l d d'
        × (is_dir (parent (key_path l k)) d' ≡ true)
  parents_lem k d s = create_dir_all_lem l (parent (key_path l k)) d s (key_path-Dirs l k)

  same_file : (p : FilePath) (d d' : Disk) → Made l d d' → file_at p d' ≡ file_at p d
  same_file p d d' m = ap (Disk.find p) m.same_files

  -- A file is moved; its new directory is made if it is missing.
  pub rename_lem :
      (src : FilePath) (k : Key) (b : Bytes) (d : Disk)
      → sound l d ≡ true
      → file_at src d ≡ some b
      → (d' : Disk) × (Local.rename src (key_path l k) d
          ≡ (ok tt, set_file (key_path l k) b (drop_file src d')))
        × Made l d d'
  unfolding Local.rename or_else
  rename_lem src k b d s e = by_dir (is_dir (parent dst) d) refl
    where
      dst : FilePath
      dst = key_path l k

      again : Io Disk (Unit {0})
      again = do create_dir_all (parent dst); Disk.rename src dst

      by_dir :
          (there : Bool)
          → is_dir (parent dst) d ≡ there
          → (d' : Disk) × (or_else (Disk.rename src dst d) again
              ≡ (ok tt, set_file dst b (drop_file src d')))
            × Made l d d'
      by_dir true h = (
        d,
        ap (λ r. or_else r again) (rename-there src k b d s e h),
        record { same_files = refl; still_sound = s; kept = λ p q. q },
      )
      by_dir false h =
          let (d', run, made, there) = parents_lem k d s in
          (
            d',
            ap (λ r. or_else r again) (rename-nowhere src dst b d e h)
                ∙ ap (λ r. continue r (λ _. Disk.rename src dst)) run
                ∙ rename-there src k b d' made.still_sound (same_file src d d' made ∙ e) there,
            made,
          )

  pub rename-missing_lem :
      (src : FilePath) (k : Key) (d : Disk)
      → sound l d ≡ true
      → file_at src d ≡ none
      → (d' : Disk) × (Local.rename src (key_path l k) d ≡ (err not_found, d')) × Made l d d'
  unfolding Local.rename or_else
  rename-missing_lem src k d s e =
      let (d', run, made, there) = parents_lem k d s in
      let dst = key_path l k in
      let again : Io Disk (Unit {0}) = (do create_dir_all (parent dst); Disk.rename src dst) in
      (
        d',
        ap (λ r. or_else r again) (rename-missing src dst d e)
            ∙ ap (λ r. continue r (λ _. Disk.rename src dst)) run
            ∙ rename-missing src dst d' (same_file src d d' made ∙ e),
        made,
      )

  parent-tmp : (rand_ext : Bytes) (k : Key) → parent (tmp_of l rand_ext k) ≡ parent (key_path l k)
  parent-tmp rand_ext k =
      let p = parts l k in
      subst (λ path. parent (with_extension (tmp_ext rand_ext) path) ≡ parent path) (sym p.path-eq)
        (parent-with_extension (tmp_ext rand_ext) p.gen p.kind p.rest)

  create-there :
      (rand_ext : Bytes) (k : Key) (d : Disk)
      → sound l d ≡ true
      → is_dir (parent (key_path l k)) d ≡ true
      → let tmp = tmp_of l rand_ext k in Disk.create tmp d ≡ (ok tt, set_file tmp [] d)
  unfolding Disk.create create_in
  create-there rand_ext k d s h =
      let tmp = tmp_of l rand_ext k in
      ap (λ p. create_in tmp (is_dir p d) (is_dir tmp d) d) (parent-tmp rand_ext k)
      ∙ ap (λ a. create_in tmp a (is_dir tmp d) d) h
      ∙ ap (λ a. create_in tmp true a d) (sound-not_dir l tmp d s (dir_shape-tmp l rand_ext k))

  create-nowhere :
      (rand_ext : Bytes) (k : Key) (d : Disk)
      → is_dir (parent (key_path l k)) d ≡ false
      → Disk.create (tmp_of l rand_ext k) d ≡ (err not_found, d)
  unfolding Disk.create create_in
  create-nowhere rand_ext k d h =
      let tmp = tmp_of l rand_ext k in
      ap (λ p. create_in tmp (is_dir p d) (is_dir tmp d) d) (parent-tmp rand_ext k)
      ∙ ap (λ a. create_in tmp a (is_dir tmp d) d) h

  module _ (R : ArcRefs) where
    -- The temporary file is created, its directory made if it is missing.
    pub create_anyway_lem :
        (rand_ext : Bytes) (k : Key) (d : Disk)
        → sound l d ≡ true
        → let tmp = tmp_of l rand_ext k in
          (d' : Disk) × (create_anyway R (key_path l k) tmp d ≡ (ok tt, set_file tmp [] d'))
          × Made l d d'
          × (is_dir (parent (key_path l k)) d' ≡ true)
    unfolding create_anyway or_else
    create_anyway_lem rand_ext k d s = by_dir (is_dir (parent (key_path l k)) d) refl
      where
        tmp : FilePath
        tmp = tmp_of l rand_ext k

        again : Io Disk (Unit {0})
        again = do create_dir_all (parent (key_path l k)); Disk.create tmp

        by_dir :
            (there : Bool)
            → is_dir (parent (key_path l k)) d ≡ there
            → (d' : Disk) × (or_else (Disk.create tmp d) again ≡ (ok tt, set_file tmp [] d'))
              × Made l d d'
              × (is_dir (parent (key_path l k)) d' ≡ true)
        by_dir true h = (
          d,
          ap (λ r. or_else r again) (create-there rand_ext k d s h),
          record { same_files = refl; still_sound = s; kept = λ p q. q },
          h,
        )
        by_dir false h =
            let (d', run, made, there) = parents_lem k d s in
            (
              d',
              ap (λ r. or_else r again) (create-nowhere rand_ext k d h)
                  ∙ ap (λ r. continue r (λ _. Disk.create tmp)) run
                  ∙ create-there rand_ext k d' made.still_sound there,
              made,
              there,
            )
