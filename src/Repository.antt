-- ===== src/Repository.antt =====
-- lib/src/lib.rs, with the parts of lib/src/generation.rs and lib/src/name.rs that list and write:
-- the generations of a repository, its names, and the garbage collection.
pub mod Collect
pub mod Rows
pub mod Stands
pub mod Update
pub mod Stored
pub mod Wipe
pub mod Verify
pub mod Listing
pub mod Opening
use mathlib.Core.List.{reverse}
use rdedup.Base.{
  ℕ, zero, suc, Bool, true, false, ◌&&◌, not, Bytes, Bytes-discrete, codes, length, ltb, ◌==◌,
  if◌then◌else◌, Option, none, some, Result, ok, err, panics, stuck, not_found, already_exists,
  invalid_data, invalid_input, connection_aborted, other, ErrorKind, expect, List, [], ◌∷◌, ◌++◌,
  map, ite, drop, ◌-◌, ok_or,
}
use rdedup.Io.{Io, pure, lift, throw, continue, attempt, ◌>>=◌, ◌>>◌, last}
use rdedup.SgData.{ArcRefs, SgData}
use rdedup.SgData
use rdedup.Generation
use rdedup.Generation.{Generation, Decoders, gen_lt, gen_next, try_from}
use rdedup.Nesting.{FilePath, data_subdir}
use rdedup.Aio.{Backend, Metadata, name_subdir, config_yml_file, config_path}
use rdedup.Name.{Name, Yaml, load_from_any, remove_any, update_generation_to}
use rdedup.Encryption.{Decrypter}
use rdedup.Reading.{data_chunk, read_recursively, Writer, on_world}
use rdedup.Reading.Decode.{Repo}
use rdedup.Reading.Accessors.{update_accessor, default_accessor}

-- `substitute_err_not_found` of lib/src/util/mod.rs.
unfoldable pub substitute_err_not_found {ℓ} : {A : Type ℓ} → Result A → A → Result A
substitute_err_not_found (err not_found) a = ok a
substitute_err_not_found (err already_exists) a = err already_exists
substitute_err_not_found (err invalid_data) a = err invalid_data
substitute_err_not_found (err invalid_input) a = err invalid_input
substitute_err_not_found (err connection_aborted) a = err connection_aborted
substitute_err_not_found (err other) a = err other
substitute_err_not_found (ok b) a = ok b
substitute_err_not_found panics a = panics
substitute_err_not_found stuck a = stuck

-- `Path::file_name` of a path of plain components.
unfoldable pub file_name : FilePath → Option Bytes
file_name path = last path

ends_with : Bytes → Bytes → Bool
ends_with suffix s =
    if ltb (length s) (length suffix)
    then false
    else ite (Bytes-discrete (drop (length s - length suffix) s) suffix) true false

-- What was sorted has `g` put in its place.
insert_gen : Generation → List Generation → List Generation
insert_gen g [] = g ∷ []
insert_gen g (h ∷ gens) =
    let rest = insert_gen g gens in if gen_lt h g then h ∷ rest else g ∷ h ∷ gens

unfoldable pub sort_gens : List Generation → List Generation
unfolding insert_gen
sort_gens [] = []
sort_gens (g ∷ gens) = insert_gen g (sort_gens gens)

-- What stands before the last dot.
before_dot : Bytes → Option Bytes
before_dot [] = none
before_dot (c ∷ s) = elim (before_dot s) [
  | some stem ↦ some (c ∷ stem)
  | none ↦ if c == b'.' then some [] else none
]

-- `Path::file_stem` of a component: a leading dot is no extension.
unfoldable pub file_stem : Bytes → Bytes
unfolding before_dot
file_stem s = elim (before_dot s) [ none ↦ s | some [] ↦ s | some (c ∷ stem) ↦ c ∷ stem ]

-- What the crates `serde_yaml` and `chrono` do with a generation's configuration, which is the time
-- it was created. `too_young created secs now` is `created + Duration::seconds(secs) > now`.
pub record Clock : Type 1 where
  pub Time : Type 0
  pub to_string : Time → Bytes
  pub from_reader : Bytes → Option Time
  pub too_young : Time → ℕ → Time → Bool

module _ (R : ArcRefs) (B : Backend R) (D : Decoders) where
  open B use {State}

  -- `config.yml`, `.lock`, and other files of the root are no generations.
  no_generation : Bytes → Bool
  unfolding Bytes-discrete ends_with
  no_generation item =
      ite (Bytes-discrete item config_yml_file) true
        (ite (Bytes-discrete item (codes ".lock")) true (ends_with (codes ".yml") item))

  cons_gen : Generation → Result (List Generation) → Result (List Generation)
  cons_gen gen (ok gens) = ok (gen ∷ gens)
  cons_gen gen (err e) = err e
  cons_gen gen panics = panics
  cons_gen gen stuck = stuck

  -- A directory without a configuration is a dead generation.
  if_live : Generation → Result Metadata → Result (List Generation) → Result (List Generation)
  unfolding cons_gen
  if_live gen (ok m) rest = cons_gen gen rest
  if_live gen (err e) rest = rest
  if_live gen panics rest = panics
  if_live gen stuck rest = stuck

  if_parsed : State → Result Generation → Result (List Generation) → Result (List Generation)
  unfolding if_live
  if_parsed s (ok gen) rest =
      if_live gen (B.read_metadata (config_path (Generation.to_string gen)) s) rest
  if_parsed s (err e) rest = rest
  if_parsed s panics rest = panics
  if_parsed s stuck rest = stuck

  if_named : State → Option Bytes → Result (List Generation) → Result (List Generation)
  unfolding if_parsed no_generation
  if_named s none rest = rest
  if_named s (some item) rest =
      if no_generation item then rest else if_parsed s (try_from D item) rest

  gens_of : State → List FilePath → Result (List Generation)
  unfolding if_named file_name
  gens_of s [] = ok []
  gens_of s (path ∷ paths) = if_named s (file_name path) (gens_of s paths)

  sorted : Result (List Generation) → Result (List Generation)
  sorted (ok gens) = ok (sort_gens gens)
  sorted (err e) = err e
  sorted panics = panics
  sorted stuck = stuck

  -- Oldest first.
  unfoldable pub read_generations : Io State (List Generation)
  unfolding gens_of sorted
  read_generations = do list ← (λ s. (B.list [] s, s)); (λ s. (sorted (gens_of s list), s))

  abbrev pub strings : List Generation → List Bytes
  strings gens = map Generation.to_string gens

  -- `Name::list`
  stem_of : FilePath → Result Bytes
  unfolding file_name file_stem
  stem_of path = elim (file_name path) [ none ↦ panics | some name ↦ ok (file_stem name) ]

  cons_stem : Result Bytes → Result (List Bytes) → Result (List Bytes)
  cons_stem (ok stem) (ok names) = ok (stem ∷ names)
  cons_stem (ok stem) (err e) = err e
  cons_stem (ok stem) panics = panics
  cons_stem (ok stem) stuck = stuck
  cons_stem (err e) rest = err e
  cons_stem panics rest = panics
  cons_stem stuck rest = stuck

  stems : List FilePath → Result (List Bytes)
  unfolding stem_of cons_stem
  stems [] = ok []
  stems (path ∷ paths) = cons_stem (stem_of path) (stems paths)

  unfoldable pub list : Bytes → Io State (List Bytes)
  unfolding stems
  list gen = do
    paths ← (λ s. (substitute_err_not_found (B.list (gen ∷ name_subdir ∷ []) s) [], s))
    lift (stems paths)

  -- `Name::list_all`, of generations from the newest on.
  list_each : List Bytes → Io State (List Bytes)
  unfolding list
  list_each [] = pure []
  list_each (gen ∷ gens) = do names ← list gen; rest ← list_each gens; pure (names ++ rest)

  unfoldable pub list_all : List Bytes → Io State (List Bytes)
  unfolding list_each
  list_all gens = list_each (reverse gens)

  unfoldable pub list_names : Io State (List Bytes)
  unfolding read_generations
  list_names = do gens ← read_generations; list_all (strings gens)

  unfoldable pub rm : Bytes → Io State (Unit {0})
  unfolding read_generations
  rm name = do gens ← read_generations; remove_any R B name (strings gens)

  module _ (T : Clock) where
    -- `Generation::write`; `created` is the time of the call.
    unfoldable pub write_generation : T.Time → Bytes → Io State (Unit {0})
    write_generation created gen =
        B.write (config_path gen) (SgData.from_single R (T.to_string created)) false

    unfoldable pub load_config : Bytes → Io State T.Time
    load_config gen = do
      sg ← (λ s. (B.read (config_path gen) s, s))
      lift (ok_or invalid_data (T.from_reader (SgData.to_linear_vec R sg)))

    -- `remove_dir_all`, for which a missing directory is as good as removed.
    remove_dir : FilePath → Io State (Unit {0})
    remove_dir path s = let (r, s') = B.remove_dir_all path s in (substitute_err_not_found r tt, s')

    delete_generation : Bytes → Io State (Unit {0})
    unfolding remove_dir
    delete_generation gen = do
      remove_dir (gen ∷ name_subdir ∷ [])
      remove_dir (gen ∷ data_subdir ∷ [])
      B.remove_dir_all (gen ∷ [])

    wipe_loaded : Bytes → ℕ → T.Time → Result T.Time → Io State (Unit {0})
    unfolding delete_generation
    wipe_loaded gen min_age_secs now (ok created) =
        if T.too_young created min_age_secs now then pure tt else delete_generation gen
    wipe_loaded gen min_age_secs now (err not_found) = pure tt
    wipe_loaded gen min_age_secs now (err already_exists) = throw already_exists
    wipe_loaded gen min_age_secs now (err invalid_data) = throw invalid_data
    wipe_loaded gen min_age_secs now (err invalid_input) = throw invalid_input
    wipe_loaded gen min_age_secs now (err connection_aborted) = throw connection_aborted
    wipe_loaded gen min_age_secs now (err other) = throw other
    wipe_loaded gen min_age_secs now panics = lift panics
    wipe_loaded gen min_age_secs now stuck = lift stuck

    unfoldable pub wipe_generation_maybe : Bytes → ℕ → T.Time → Io State (Unit {0})
    unfolding load_config wipe_loaded
    wipe_generation_maybe gen min_age_secs now = do
      config ← attempt (load_config gen)
      wipe_loaded gen min_age_secs now config

  module _ (repo : Repo R) (Y : Yaml) where
    -- A traversal without a writer, over the unit state.
    traverse : List Bytes → Name → Io State (Unit {0})
    traverse gens name s =
        let (r, (s', x)) =
          read_recursively (update_accessor R B repo gens) name.index_level {X = Unit {0}} none
            data_chunk name.digest (s, tt) in
        (r, s')

    unfoldable pub update_name_to : Bytes → Bytes → List Bytes → Io State (Unit {0})
    unfolding traverse
    update_name_to name_str cur_gen gens = do
      name ← load_from_any R B Y name_str gens
      traverse gens name
      update_generation_to R B name_str cur_gen gens

  -- `Repo::read` from the point where the generations are known.
  unfoldable pub read_name :
      Repo R
      → Yaml
      → Decrypter R
      → List Bytes
      → Bytes
      → {X : Type 0} → Writer State X
      → Io (State × X) (Unit {0})
  read_name repo Y decrypter gens name_str writer = do
    name ← on_world (load_from_any R B Y name_str gens)
    read_recursively (default_accessor R B repo (some decrypter) gens) name.index_level
        (some writer) data_chunk name.digest

  unfoldable pub read :
      Repo R
      → Yaml
      → Decrypter R
      → Bytes
      → {X : Type 0} → Writer State X
      → Io (State × X) (Unit {0})
  unfolding read_name read_generations
  read repo Y decrypter name_str writer = do
    gens ← on_world read_generations
    read_name repo Y decrypter (strings gens) name_str writer
