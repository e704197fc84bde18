-- ===== src/Local.antt =====
-- lib/src/aio/local.rs: the backend that keeps a repository in a directory of the disk. Paths are
-- from that directory on. The files beside the generations, `config.yml` and `.lock`, are stored under
-- no key, and no generation is named like them; Local/Configs is about the first.
pub mod Shapes
pub mod Names
pub mod Sound
pub mod Files
pub mod Runs
pub mod Writes
pub mod Reads
pub mod Backends
pub mod Through
pub mod Directories
pub mod Refines
pub mod Configs
pub mod Walks
use rdedup.Base.{
  ErrorKind, ◌⊎◌, inl, inr, ◌+◌, ltb, ℕ, zero, suc, Bool, true, false, ◌&&◌, Bytes, codes, length,
  take, drop, Option, none, some, Result, ok, err, panics, stuck, not_found, other, List, [], ◌∷◌,
  ◌++◌, if◌then◌else◌,
}
use rdedup.Io.{Io, pure, continue, ◌>>=◌, ◌>>◌}
use rdedup.SgData
use rdedup.SgData.{ArcRefs, SgData}
use rdedup.Nesting.{FilePath}
use rdedup.Aio.{Metadata}
use rdedup.Input.{ingress_buffer_size}
use rdedup.Repository.{file_stem}
use rdedup.Disk
use rdedup.Disk.{Disk, file_at, is_dir, parent, exists}

-- `Path::with_extension`
unfoldable pub with_extension : Bytes → FilePath → FilePath
with_extension ext [] = []
with_extension ext (c ∷ []) = (file_stem c ++ (codes "." ++ ext)) ∷ []
with_extension ext (c ∷ d ∷ path) = c ∷ with_extension ext (d ∷ path)

-- A failed attempt is made again behind what may repair it.
or_else : Result (Unit {0}) × Disk → Io Disk (Unit {0}) → Result (Unit {0}) × Disk
or_else (ok u, d) repair = (ok u, d)
or_else (err e, d) repair = repair d
or_else (panics, d) repair = (panics, d)
or_else (stuck, d) repair = (stuck, d)

unfoldable pub remove_dir_all : FilePath → Io Disk (Unit {0})
remove_dir_all path = Disk.remove_dir_all path

unfoldable pub rename : FilePath → FilePath → Io Disk (Unit {0})
unfolding or_else
rename src_path dst_path d =
    or_else (Disk.rename src_path dst_path d)
      (do Disk.create_dir_all (parent dst_path); Disk.rename src_path dst_path)

module _ (R : ArcRefs) where
  pub write_parts : FilePath → SgData R → Io Disk (Unit {0})
  write_parts path [] = pure tt
  write_parts path (part ∷ parts) = do Disk.append path (R.deref part); write_parts path parts

  -- `create` with the directory made where it is missing.
  pub create_anyway : FilePath → FilePath → Io Disk (Unit {0})
  unfolding or_else
  create_anyway path tmp_path d =
      or_else (Disk.create tmp_path d) (do Disk.create_dir_all (parent path); Disk.create tmp_path)

  -- `rand_ext` is the thread's own.
  unfoldable pub write : Bytes → FilePath → SgData R → Bool → Io Disk (Unit {0})
  unfolding create_anyway write_parts with_extension
  write rand_ext path sg idempotent d =
      let tmp_path = with_extension (rand_ext ++ codes ".tmp") path in
      if idempotent && exists path d
      then (ok tt, d)
      else ((do create_anyway path tmp_path; write_parts tmp_path sg; Disk.rename tmp_path path) d)

  -- Each read gives as much as the buffer takes; none is the end of the file.
  pub read_bufs : ℕ → Bytes → List Bytes
  read_bufs zero rest = []
  read_bufs (suc fuel) [] = []
  read_bufs (suc fuel) (b ∷ rest) =
      take ingress_buffer_size (b ∷ rest) ∷ read_bufs fuel (drop ingress_buffer_size (b ∷ rest))

  read_file : Bool → Option Bytes → Result (SgData R)
  unfolding read_bufs
  read_file true none = err other
  read_file false none = err not_found
  read_file dir (some b) = ok (SgData.from_many R (read_bufs (length b) b))

  unfoldable pub read : FilePath → Disk → Result (SgData R)
  unfolding read_file
  read path d = read_file (is_dir path d) (file_at path d)

unfoldable pub remove : FilePath → Io Disk (Unit {0})
remove path = Disk.remove_file path

metadata_of : Bool → Option Bytes → Result Metadata
metadata_of dir (some b) = ok (record { len = length b; is_file = true })
metadata_of true none = ok (record { len = 0; is_file = false })
metadata_of false none = err not_found

unfoldable pub read_metadata : FilePath → Disk → Result Metadata
unfolding metadata_of
read_metadata path d = metadata_of (is_dir path d) (file_at path d)

-- A directory that is not there has no entries.
unfoldable pub list : FilePath → Disk → Result (List FilePath)
list path d = elim (Disk.read_dir path d) [
  | ok v ↦ ok v
  | err not_found ↦ ok []
  | err e ↦ err e
  | panics ↦ panics
  | stuck ↦ stuck
]

-- The walk of the crate `walkdir`: each entry below a directory with whether it is a file, or why it
-- could not be had.
abbrev pub Walk : Type 0
Walk = FilePath → Disk → List (ErrorKind ⊎ (FilePath × Bool))

-- The loop over the entries of the walk, and what is sent: the files in batches, errors alone.
pub batches : List FilePath → List (ErrorKind ⊎ (FilePath × Bool)) → List (Result (List FilePath))
batches [] [] = []
batches (f ∷ v) [] = ok (f ∷ v) ∷ []
batches v (inl e ∷ entries) = err e ∷ batches v entries
batches v (inr (path, false) ∷ entries) = batches v entries
batches v (inr (path, true) ∷ entries) = elim (ltb 100 (length v + 1)) [
  | true ↦ ok (v ++ (path ∷ [])) ∷ batches [] entries
  | false ↦ batches (v ++ (path ∷ [])) entries
]

unfoldable pub list_recursively : Walk → FilePath → Disk → List (Result (List FilePath))
unfolding batches
list_recursively walk path d = if exists path d then batches [] (walk path d) else []
