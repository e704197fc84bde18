-- ===== src/Aio.antt =====
-- lib/src/aio/backend.rs and the calls of lib/src/aio/mod.rs that wait for their result: what the
-- repository asks of the place where it is stored, and what it relies on.
pub mod Pool
use rdedup.Base.{
  All, ◌⊎◌, ℕ, Bytes, Bytes-discrete, codes, ◌≡◌, ◌≢◌, ite, Option, none, some, Result, ok, err,
  not_found, List, [], ◌∷◌, ◌++◌, Bool, true, false,
}
use rdedup.Io.{Io}
use rdedup.SgData.{ArcRefs, SgData, bytes}
use rdedup.Nesting.{FilePath, chunk_path}

abbrev pub name_subdir : Bytes
name_subdir = codes "name"

abbrev pub config_yml_file : Bytes
config_yml_file = codes "config.yml"

-- The files of a repository, by the directory of their generation.
pub data Key : Type 0 where
  gen_config : Bytes → Key
  name_file : Bytes → Bytes → Key
  chunk : Bytes → Bytes → Key

pub Key-discrete : Discrete Key
Key-discrete = hlevel Bytes-discrete

-- `Name::path`. A name is taken to be one component.
unfoldable pub name_path : Bytes → Bytes → FilePath
name_path name gen = gen ∷ name_subdir ∷ (name ++ codes ".yml") ∷ []

-- `Generation::config_path`
unfoldable pub config_path : Bytes → FilePath
config_path gen = gen ∷ config_yml_file ∷ []

-- How chunks are nested: `hex::encode`, and the number of levels.
pub record Layout : Type 0 where
  pub hex_encode : Bytes → Bytes
  pub levels : ℕ

abbrev pub key_path : Layout → Key → FilePath
key_path l (gen_config gen) = config_path gen
key_path l (name_file gen name) = name_path name gen
key_path l (chunk gen digest) = chunk_path l.hex_encode l.levels gen digest

pub record Metadata : Type 0 where
  pub len : ℕ
  pub is_file : Bool

-- The trait `BackendThread`, its state the place where the data is. What only reads leaves it.
pub record Backend (R : ArcRefs) : Type 1 where
  pub State : Type 0
  pub remove_dir_all : FilePath → Io State (Unit {0})
  pub rename : FilePath → FilePath → Io State (Unit {0})
  pub write : FilePath → SgData R → Bool → Io State (Unit {0})
  pub read : FilePath → State → Result (SgData R)
  pub remove : FilePath → Io State (Unit {0})
  pub read_metadata : FilePath → State → Result Metadata
  pub list : FilePath → State → Result (List FilePath)
  -- The batches that are sent.
  pub list_recursively : FilePath → State → List (Result (List FilePath))

-- `f` with `v` at `k`.
abbrev pub put : (Key → Option Bytes) → Key → Option Bytes → Key → Option Bytes
put f k v j = ite (Key-discrete k j) v (f j)

-- A backend on which no operation fails but for a missing file: what it holds under each key, and
-- what the operations do to that. A file is read into vectors of its own.
pub record IsBackend (R : ArcRefs) (B : Backend R) (l : Layout) : Type 0 where
  pub file : B.State → Key → Option Bytes
  pub read-some :
      (s : B.State) (k : Key) (b : Bytes)
      → file s k ≡ some b
      → (sg : SgData R) × (B.read (key_path l k) s ≡ ok sg)
        × (bytes R sg ≡ b)
        × All (λ p. R.owner p ≡ R.deref p) sg
  pub read-none :
      (s : B.State) (k : Key) → file s k ≡ none → B.read (key_path l k) s ≡ err not_found
  pub read_metadata-some :
      (s : B.State) (k : Key) (b : Bytes)
      → file s k ≡ some b
      → (m : Metadata) × (B.read_metadata (key_path l k) s ≡ ok m)
  pub read_metadata-none :
      (s : B.State) (k : Key) → file s k ≡ none → B.read_metadata (key_path l k) s ≡ err not_found
  pub rename-some :
      (s : B.State) (k j : Key) (b : Bytes)
      → file s k ≡ some b
      → (s' : B.State) × (B.rename (key_path l k) (key_path l j) s ≡ (ok tt, s'))
        × ((i : Key) → file s' i ≡ put (put (file s) k none) j (some b) i)
  pub rename-none :
      (s : B.State) (k j : Key)
      → file s k ≡ none
      → (s' : B.State) × (B.rename (key_path l k) (key_path l j) s ≡ (err not_found, s'))
        × ((i : Key) → file s' i ≡ file s i)
  pub write-new :
      (s : B.State) (k : Key) (sg : SgData R) (idempotent : Bool)
      → (file s k ≡ none) ⊎ (idempotent ≡ false)
      → (s' : B.State) × (B.write (key_path l k) sg idempotent s ≡ (ok tt, s'))
        × ((i : Key) → file s' i ≡ put (file s) k (some (bytes R sg)) i)
  pub write-again :
      (s : B.State) (k : Key) (sg : SgData R)
      → file s k ≢ none
      → (s' : B.State) × (B.write (key_path l k) sg true s ≡ (ok tt, s'))
        × ((i : Key) → file s' i ≡ file s i)
  pub remove-some :
      (s : B.State) (k : Key)
      → file s k ≢ none
      → (s' : B.State) × (B.remove (key_path l k) s ≡ (ok tt, s'))
        × ((i : Key) → file s' i ≡ put (file s) k none i)
  pub remove-none :
      (s : B.State) (k : Key)
      → file s k ≡ none
      → (s' : B.State) × (B.remove (key_path l k) s ≡ (err not_found, s'))
        × ((i : Key) → file s' i ≡ file s i)
