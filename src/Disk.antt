-- ===== src/Disk.antt =====
-- `std::fs` as far as lib/src/aio/local.rs uses it: what the directory of a repository holds, by
-- paths from there. The disk never fails, and is written to by no one else.
pub mod Laws
pub mod Removal
use rdedup.Base.{
  Bytes-discrete, ℕ, Bool, true, false, ◌||◌, Bytes, Option, none, some, Result, ok, err, not_found,
  other, List, [], ◌∷◌, ◌++◌, map, ite, if◌then◌else◌,
}
use rdedup.Io.{Io, pure, ◌>>◌, ◌>>=◌, continue}
use rdedup.Nesting.{FilePath}
use rdedup.Aio.Pool.{FilePath-discrete, contains}

pub record Disk : Type 0 where
  pub files : List (FilePath × Bytes)
  pub dirs : List FilePath

unfoldable pub find : FilePath → List (FilePath × Bytes) → Option Bytes
find path [] = none
find path ((p, b) ∷ files) = ite (FilePath-discrete p path) (some b) (find path files)

unfoldable pub without : FilePath → List (FilePath × Bytes) → List (FilePath × Bytes)
without path [] = []
without path ((p, b) ∷ files) =
    ite (FilePath-discrete p path) (without path files) ((p, b) ∷ without path files)

abbrev pub file_at : FilePath → Disk → Option Bytes
file_at path d = find path d.files

abbrev pub set_file : FilePath → Bytes → Disk → Disk
set_file path b d = record d { files = (path, b) ∷ without path d.files }

abbrev pub drop_file : FilePath → Disk → Disk
drop_file path d = record d { files = without path d.files }

-- The directory of the repository itself is there.
unfoldable pub is_dir : FilePath → Disk → Bool
is_dir [] d = true
is_dir (c ∷ path) d = contains (c ∷ path) d.dirs

unfoldable pub parent : FilePath → FilePath
parent [] = []
parent (c ∷ []) = []
parent (c ∷ d ∷ path) = c ∷ parent (d ∷ path)

-- The path and its ancestors from the outermost on, each behind `above`.
unfoldable pub prefixes : FilePath → FilePath → List FilePath
prefixes above [] = []
prefixes above (c ∷ path) = (above ++ (c ∷ [])) ∷ prefixes (above ++ (c ∷ [])) path

unfoldable pub or_dir : Option Bytes → Bool → Bool
or_dir (some b) dir = true
or_dir none dir = dir

unfoldable pub exists : FilePath → Disk → Bool
unfolding is_dir or_dir
exists path d = or_dir (file_at path d) (is_dir path d)

-- `create_dir_all`: each directory that is not there is made.
unfoldable pub make_free : FilePath → Bool → Option Bytes → Io Disk (Unit {0})
make_free path dir (some b) d = (err other, d)
make_free path true none d = (ok tt, d)
make_free path false none d = (ok tt, record d { dirs = path ∷ d.dirs })

unfoldable pub make_dir : FilePath → Io Disk (Unit {0})
unfolding is_dir make_free
make_dir path d = make_free path (is_dir path d) (file_at path d) d

unfoldable pub make_dirs : List FilePath → Io Disk (Unit {0})
unfolding make_dir
make_dirs [] = pure tt
make_dirs (path ∷ paths) = do make_dir path; make_dirs paths

unfoldable pub create_dir_all : FilePath → Io Disk (Unit {0})
unfolding make_dirs prefixes
create_dir_all path = make_dirs (prefixes [] path)

-- `rename` of a file; a file that is at the destination is replaced.
unfoldable pub move_file : FilePath → FilePath → Bool → Bool → Option Bytes → Io Disk (Unit {0})
move_file src dst above dir none d = (err not_found, d)
move_file src dst false dir (some b) d = (err not_found, d)
move_file src dst true true (some b) d = (err other, d)
move_file src dst true false (some b) d = (ok tt, set_file dst b (drop_file src d))

unfoldable pub rename : FilePath → FilePath → Io Disk (Unit {0})
unfolding is_dir parent move_file
rename src dst d = move_file src dst (is_dir (parent dst) d) (is_dir dst d) (file_at src d) d

-- `File::create`: the file is there, and empty.
unfoldable pub create_in : FilePath → Bool → Bool → Io Disk (Unit {0})
create_in path false dir d = (err not_found, d)
create_in path true true d = (err other, d)
create_in path true false d = (ok tt, set_file path [] d)

unfoldable pub create : FilePath → Io Disk (Unit {0})
unfolding is_dir parent create_in
create path d = create_in path (is_dir (parent path) d) (is_dir path d) d

-- `write_all` on a file that was created.
unfoldable pub append_to : FilePath → Bytes → Option Bytes → Io Disk (Unit {0})
append_to path b none d = (err not_found, d)
append_to path b (some old) d = (ok tt, set_file path (old ++ b) d)

unfoldable pub append : FilePath → Bytes → Io Disk (Unit {0})
unfolding append_to
append path b d = append_to path b (file_at path d) d

unfoldable pub remove_found : FilePath → Bool → Option Bytes → Io Disk (Unit {0})
remove_found path dir (some b) d = (ok tt, drop_file path d)
remove_found path true none d = (err other, d)
remove_found path false none d = (err not_found, d)

unfoldable pub remove_file : FilePath → Io Disk (Unit {0})
unfolding is_dir remove_found
remove_file path d = remove_found path (is_dir path d) (file_at path d) d

unfoldable pub is_below : FilePath → FilePath → Bool
is_below [] path = true
is_below (c ∷ dir) [] = false
is_below (c ∷ dir) (e ∷ path) = ite (Bytes-discrete c e) (is_below dir path) false

unfoldable pub files_off : FilePath → List (FilePath × Bytes) → List (FilePath × Bytes)
unfolding is_below
files_off dir [] = []
files_off dir ((p, b) ∷ files) =
    let rest = files_off dir files in if is_below dir p then rest else (p, b) ∷ rest

unfoldable pub dirs_off : FilePath → List FilePath → List FilePath
unfolding is_below
dirs_off dir [] = []
dirs_off dir (p ∷ dirs) = let rest = dirs_off dir dirs in if is_below dir p then rest else p ∷ rest

unfoldable pub remove_below : FilePath → Bool → Option Bytes → Io Disk (Unit {0})
unfolding files_off dirs_off
remove_below path true file d =
    (ok tt, record { files = files_off path d.files; dirs = dirs_off path d.dirs })
remove_below path false (some b) d = (err other, d)
remove_below path false none d = (err not_found, d)

unfoldable pub remove_dir_all : FilePath → Io Disk (Unit {0})
unfolding is_dir remove_below
remove_dir_all path d = remove_below path (is_dir path d) (file_at path d) d

-- The entries of a directory, in whatever order the disk has them.
is_in : FilePath → FilePath → Bool
is_in [] (c ∷ []) = true
is_in [] path = false
is_in (c ∷ dir) [] = false
is_in (c ∷ dir) (e ∷ path) = ite (Bytes-discrete c e) (is_in dir path) false

entries : FilePath → List FilePath → List FilePath
unfolding is_in
entries dir [] = []
entries dir (p ∷ paths) = let rest = entries dir paths in if is_in dir p then p ∷ rest else rest

unfoldable pub read_there : FilePath → Bool → Option Bytes → Disk → Result (List FilePath)
unfolding entries
read_there path true file d = ok (entries path (map (λ f. f.0) d.files ++ d.dirs))
read_there path false (some b) d = err other
read_there path false none d = err not_found

unfoldable pub read_dir : FilePath → Disk → Result (List FilePath)
unfolding is_dir read_there
read_dir path d = read_there path (is_dir path d) (file_at path d) d
