-- ===== src/Repository/Opening.antt =====
-- lib/src/lib.rs and lib/src/config/mod.rs: how a repository is made, opened and given another
-- passphrase. The locks are left out, and the backend is given in place of its address.
pub mod Reopened
use rdedup.Base.{
  ℕ, ◌==◌, ◌≡◌, Bytes, codes, Option, none, some, Result, ok, err, panics, stuck, not_found,
  already_exists, ◌>>=◌, List, [], ◌∷◌, All, if◌then◌else◌, false,
}
use rdedup.Io.{Io}
use rdedup.SgData
use rdedup.SgData.{ArcRefs, SgData, bytes}
use rdedup.Nesting.{FilePath}
use rdedup.Aio.{Backend, config_yml_file}
use rdedup.Config
use rdedup.Config.{PwCrate, from_yaml}
use rdedup.Settings
use rdedup.Settings.{with_pwhash, new_from_settings}
use rdedup.Encryption
use rdedup.Encryption.{Sodium, Encrypter, Decrypter, encrypter, decrypter, change_passphrase_any}
use rdedup.Hashing.{Hashing}
use rdedup.Compression.{Compression, Crates, to_engine}

-- `serde_yaml` on configurations.
pub record ConfigYaml : Type 0 where
  pub to_string : Config.Repo → Bytes
  pub from_reader : Bytes → Option Config.Repo

-- The file of the configuration, beside the generations.
abbrev pub config_file : FilePath
config_file = config_yml_file ∷ []

-- `Repo`, less its address, its log and the threads.
pub record Handle (R : ArcRefs) : Type 0 where
  pub config : Config.Repo
  pub compression : Compression R
  pub hasher : Hashing

module _ (R : ArcRefs) (B : Backend R) (Y : ConfigYaml) (C : Crates) (W : PwCrate)
    (N : Sodium) where
  abbrev pub handle_of : Config.Repo → Handle R
  handle_of config = record {
    config = config;
    compression = to_engine R C config.compression;
    hasher = config.hashing;
  }

  -- `config::Repo::write`
  unfoldable pub write_config : Config.Repo → Io B.State (Unit {0})
  write_config config = B.write config_file (SgData.from_single R (Y.to_string config)) false

  -- `config::Repo::read`
  unfoldable pub read_config : B.State → Result Config.Repo
  read_config s = do
    config_data ← B.read config_file s
    from_yaml (Y.from_reader (SgData.to_linear_vec R config_data))

  -- A listing that fails is taken for an empty one.
  when_listed : Result (List FilePath) → Result (Unit {0})
  when_listed (ok []) = ok tt
  when_listed (ok (path ∷ paths)) = err already_exists
  when_listed (err e) = ok tt
  when_listed panics = panics
  when_listed stuck = stuck

  -- `.` is the directory of the repository, from which the paths go on.
  unfoldable pub ensure_repo_empty_or_new : B.State → Result (Unit {0})
  unfolding when_listed
  ensure_repo_empty_or_new s = when_listed (B.list [] s)

  written : Config.Repo → Result (Unit {0}) × B.State → Result (Handle R) × B.State
  written config (ok u, s) = (ok (handle_of config), s)
  written config (err e, s) = (err e, s)
  written config (panics, s) = (panics, s)
  written config (stuck, s) = (stuck, s)

  made : Result Config.Repo → Io B.State (Handle R)
  unfolding written write_config
  made (ok config) s = written config (write_config config s)
  made (err e) s = (err e, s)
  made panics s = (panics, s)
  made stuck s = (stuck, s)

  -- `salt`, `s₁` and `s₂` are the draws.
  unfoldable pub init :
      Bytes → N.Seed → N.Seed → Result Bytes → Settings.Repo → Io B.State (Handle R)
  unfolding ensure_repo_empty_or_new made
  init salt s₁ s₂ passphrase settings s =
      made
        (ensure_repo_empty_or_new s >>= λ u. new_from_settings W N salt s₁ s₂ passphrase settings) s

  unfoldable pub open_repo : B.State → Result (Handle R)
  unfolding read_config
  open_repo s = do config ← read_config s; ok (handle_of config)

  unfoldable pub unlock_decrypt : Handle R → Result Bytes → Result (Decrypter R)
  unlock_decrypt h pass = decrypter (with_pwhash W N h.config.pwhash) R h.config.encryption pass

  unfoldable pub unlock_encrypt : Handle R → Result (Encrypter R N.Seed)
  unlock_encrypt h = encrypter (with_pwhash W N h.config.pwhash) R h.config.encryption

  -- The configuration in memory is changed before that of the store.
  changed : Result Encryption.Encryption → Io (Handle R × B.State) (Unit {0})
  unfolding write_config
  changed (ok encryption) (h, s) =
      let h' : Handle R = record h { config = record h.config { encryption = encryption } } in
      let (r, s') = write_config h'.config s in (r, (h', s'))
  changed (err e) (h, s) = (err e, (h, s))
  changed panics (h, s) = (panics, (h, s))
  changed stuck (h, s) = (stuck, (h, s))

  unfoldable pub change_passphrase :
      Result Bytes → Result Bytes → Io (Handle R × B.State) (Unit {0})
  unfolding changed
  change_passphrase old_p new_p (h, s) =
      if h.config.version == 0
      then (err not_found, (h, s))
      else changed
          (change_passphrase_any (with_pwhash W N h.config.pwhash) h.config.encryption old_p new_p)
          (h, s)
