-- ===== src/Local/Configs.antt =====
-- The file of the configuration in a directory of the disk: lib/src/aio/local.rs at the path of
-- lib/src/config/mod.rs.
use rdedup.Base.{◌≡◌, refl, ◌∙◌, ap, Bytes, codes, length, All, false, some, ok, [], ◌++◌, arith}
use rdedup.Io.{continue, ◌>>◌}
use rdedup.SgData
use rdedup.SgData.{ArcRefs, IsArcRef, SgData, bytes}
use rdedup.SgData.Laws.{bytes-from_many, from_many-IsWhole}
use rdedup.Nesting.{FilePath}
use rdedup.Aio.{Backend}
use rdedup.Disk
use rdedup.Disk.{Disk, file_at, set_file, drop_file, is_dir, parent, create_in, move_file}
use rdedup.Disk.Laws.{file_at-set}
use rdedup.Local
use rdedup.Local.{Walk, with_extension, or_else, create_anyway, write_parts, read_bufs, read_file}
use rdedup.Local.Writes.{write_parts_lem}
use rdedup.Local.Reads.{concat-read_bufs}
use rdedup.Repository.Opening.{config_file}
use rdedup.Repository.Opening.Reopened.{KeepsConfig}

module _ (R : ArcRefs) (rand_ext : Bytes) where
  unfoldable pub config_tmp : FilePath
  unfolding with_extension
  config_tmp = with_extension (rand_ext ++ codes ".tmp") config_file

  -- No directory stands where the configuration is written.
  abbrev pub IsFree : Disk → Type 0
  IsFree d = (is_dir config_file d ≡ false) × (is_dir config_tmp d ≡ false)

  -- `LocalThread`, whatever the disk holds.
  abbrev pub local_disk : Walk → Backend R
  local_disk walk = record {
    State = Disk;
    remove_dir_all = Local.remove_dir_all;
    rename = Local.rename;
    write = Local.write R rand_ext;
    read = Local.read R;
    remove = Local.remove;
    read_metadata = Local.read_metadata;
    list = Local.list;
    list_recursively = Local.list_recursively walk;
  }

  create-config_tmp :
      (d : Disk)
      → IsFree d
      → create_anyway R config_file config_tmp d ≡ (ok tt, set_file config_tmp [] d)
  unfolding create_anyway or_else Disk.create create_in is_dir parent config_tmp with_extension
  create-config_tmp d (file, tmp) = rw tmp refl

  rename-config_tmp :
      (b : Bytes) (d : Disk)
      → IsFree d
      → file_at config_tmp d ≡ some b
      → Disk.rename config_tmp config_file d
        ≡ (ok tt, set_file config_file b (drop_file config_tmp d))
  unfolding Disk.rename move_file is_dir parent config_tmp with_extension
  rename-config_tmp b d (file, tmp) e = rw (file, e) refl

  pub write-config_file :
      (sg : SgData R) (d : Disk)
      → IsFree d
      → (d' : Disk) × (Local.write R rand_ext config_file sg false d ≡ (ok tt, d'))
        × (file_at config_file d' ≡ some (bytes R sg))
        × IsFree d'
  unfolding Local.write config_tmp is_dir
  write-config_file sg d free =
      let (d₃, run, free₃, more) =
        write_parts_lem R IsFree config_tmp (λ b d free. free) sg [] (set_file config_tmp [] d)
          (file_at-set config_tmp [] d) free in
      let d₄ = drop_file config_tmp d₃ in
      (
        set_file config_file (bytes R sg) d₄,
        ap
              (λ r.
                continue r (λ _. write_parts R config_tmp sg >> Disk.rename config_tmp config_file))
              (create-config_tmp d free)
            ∙ ap (λ r. continue r (λ _. Disk.rename config_tmp config_file)) run
            ∙ rename-config_tmp (bytes R sg) d₃ free₃ more.content,
        file_at-set config_file (bytes R sg) d₄,
        free₃,
      )

  pub read-config_file :
      (L : IsArcRef R) (b : Bytes) (d : Disk)
      → file_at config_file d ≡ some b
      → (sg : SgData R) × (Local.read R config_file d ≡ ok sg)
        × (bytes R sg ≡ b)
        × All (λ p. R.owner p ≡ R.deref p) sg
  unfolding Local.read read_file
  read-config_file L b d e = (
    SgData.from_many R (read_bufs R (length b) b),
    ap (read_file R (is_dir config_file d)) e,
    bytes-from_many R L (read_bufs R (length b) b)
        ∙ concat-read_bufs R L (length b) b (omega arith),
    from_many-IsWhole R L (read_bufs R (length b) b),
  )

  -- The file of the configuration is read as it was written.
  abbrev pub local_disk-KeepsConfig :
      (L : IsArcRef R) (walk : Walk) → KeepsConfig R (local_disk walk)
  local_disk-KeepsConfig L walk = record {
    config_of = file_at config_file;
    IsFree = IsFree;
    read-config = λ d b e. read-config_file L b d e;
    write-config = λ d sg free. write-config_file sg d free;
  }
