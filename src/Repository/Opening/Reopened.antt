-- ===== src/Repository/Opening/Reopened.antt =====
-- A repository that was made, or given another passphrase, is found so when it is opened again.
use rdedup.Encryption.{
  decrypt, Sodium, Encrypter, Decrypter, encrypter, decrypter, change_passphrase_any,
}
use rdedup.Base.{
  if◌then◌else◌, not_found, ◌==◌, ◌≡◌, refl, ◌∙◌, sym, subst, ap, Bytes, Option, some, ok, err, [],
  All, false,
}
use rdedup.SgData
use rdedup.SgData.{ArcRefs, IsArcRef, SgData, bytes}
use rdedup.SgData.Laws.{bytes-from_single, to_linear_vec-eq-bytes}
use rdedup.Aio.{Backend}
use rdedup.Config
use rdedup.Config.{PwCrate, SodiumOxide, derive_key, from_yaml, check_version, repo_version_current}
use rdedup.Settings
use rdedup.Settings.{with_pwhash, from_settings, new_from_settings}
use rdedup.Settings.Valid.{Derives, with_pwhash-IsSodium, Unlocks, new_from_settings-Unlocks}
use rdedup.Encryption
use rdedup.Encryption.Chunks.{IsSodium}
use rdedup.Encryption.Keys.{change_passphrase-unseal}
use rdedup.Compression.{Crates}
use rdedup.Repository.Opening.{
  ConfigYaml, config_file, Handle, handle_of, write_config, read_config, when_listed,
  ensure_repo_empty_or_new, written, made, init, open_repo, unlock_decrypt, unlock_encrypt, changed,
  change_passphrase,
}

-- What the program relies on in `serde_yaml`: a configuration is parsed from its text.
pub record IsConfigYaml (Y : ConfigYaml) : Type 0 where
  pub from_reader-to_string : (c : Config.Repo) → Y.from_reader (Y.to_string c) ≡ some c

-- What it relies on in a backend for the file of the configuration: it is read as it was written,
-- where it can be written.
pub record KeepsConfig (R : ArcRefs) (B : Backend R) : Type 1 where
  pub config_of : B.State → Option Bytes
  pub IsFree : B.State → Type 0
  pub read-config :
      (s : B.State) (b : Bytes)
      → config_of s ≡ some b
      → (sg : SgData R) × (B.read config_file s ≡ ok sg)
        × (bytes R sg ≡ b)
        × All (λ p. R.owner p ≡ R.deref p) sg
  pub write-config :
      (s : B.State) (sg : SgData R)
      → IsFree s
      → (s' : B.State) × (B.write config_file sg false s ≡ (ok tt, s'))
        × (config_of s' ≡ some (bytes R sg))
        × IsFree s'

module _ (R : ArcRefs) (L : IsArcRef R) (B : Backend R) (K : KeepsConfig R B) (Y : ConfigYaml)
    (YL : IsConfigYaml Y) (C : Crates) (W : PwCrate) (N : Sodium) where
  Stored : Config.Repo → B.State → Type 0
  Stored config s = K.config_of s ≡ some (Y.to_string config)

  write_config_lem :
      (config : Config.Repo) (s : B.State)
      → K.IsFree s
      → (s' : B.State) × (write_config R B Y C W N config s ≡ (ok tt, s'))
        × Stored config s'
        × K.IsFree s'
  unfolding write_config Stored
  write_config_lem config s free =
      let (s', run, kept, free') =
        K.write-config s (SgData.from_single R (Y.to_string config)) free in
      (s', run, kept ∙ ap some (bytes-from_single R L (Y.to_string config)), free')

  open_repo_lem :
      (config : Config.Repo) (s : B.State)
      → Stored config s
      → config.version ≡ repo_version_current
      → open_repo R B Y C W N s ≡ ok (handle_of R B Y C W N config)
  unfolding open_repo read_config from_yaml check_version Stored
  open_repo_lem config s stored current =
      let (sg, run, same, whole) = K.read-config s (Y.to_string config) stored in
      let text = to_linear_vec-eq-bytes R L sg whole ∙ same in
      rw (run, text, YL.from_reader-to_string config, current) refl

  module _ (NK : IsSodium N) (p q : Bytes) where
    -- What a passphrase is changed to opens what the old one opened.
    Moved : SodiumOxide → Encryption.Encryption → Encryption.Encryption → Type 0
    Moved so enc enc' =
        (change_passphrase_any (with_pwhash W N so) enc (ok p) (ok q) ≡ ok enc')
        × ((d : Decrypter R) × (decrypter (with_pwhash W N so) R enc (ok p) ≡ ok d)
            × (decrypter (with_pwhash W N so) R enc' (ok q) ≡ ok d))
        × (encrypter (with_pwhash W N so) R enc' ≡ encrypter (with_pwhash W N so) R enc)

    change_passphrase_any-Moved :
        (so : SodiumOxide) (enc : Encryption.Encryption)
        → Derives W so q
        → Unlocks W N NK p so enc
        → (enc' : Encryption.Encryption) × Moved so enc enc'
    unfolding Moved change_passphrase_any decrypter encrypter
    change_passphrase_any-Moved so Encryption.Encryption.no_encryption derives u =
        (Encryption.Encryption.no_encryption, (refl, (_, refl, refl), refl))
    change_passphrase_any-Moved so (Encryption.Encryption.curve25519 c) (k, e, long)
          (sec_key, opens, size) =
        let M = with_pwhash W N so in
        let (c', run, opens', same_pub, same_nonce) =
          change_passphrase-unseal M (with_pwhash-IsSodium W N NK so) c p q k sec_key opens size e
            long in
        (
          Encryption.Encryption.curve25519 c',
          (
            rw run refl,
            (record { decrypt = decrypt M R sec_key }, rw opens refl, rw opens' refl),
            rw same_pub refl,
          ),
        )

    init_lem :
        (salt : Bytes) (s₁ s₂ : N.Seed) (settings : Settings.Repo) (s : B.State)
        (config : Config.Repo)
        → K.IsFree s
        → B.list [] s ≡ ok []
        → new_from_settings W N salt s₁ s₂ (ok p) settings ≡ ok config
        → (s' : B.State) × (init R B Y C W N salt s₁ s₂ (ok p) settings s
            ≡ (ok (handle_of R B Y C W N config), s'))
          × Stored config s'
          × K.IsFree s'
    unfolding init ensure_repo_empty_or_new when_listed made written
    init_lem salt s₁ s₂ settings s config free empty new =
        let (s', run, stored, free') = write_config_lem config s free in
        (s', rw (empty, new, run) refl, stored, free')

    change_lem :
        (config : Config.Repo) (enc : Encryption.Encryption) (s : B.State)
        → K.IsFree s
        → config.version ≡ repo_version_current
        → change_passphrase_any (with_pwhash W N config.pwhash) config.encryption (ok p) (ok q)
          ≡ ok enc
        → let config' : Config.Repo = record config { encryption = enc } in
          (s' : B.State) × (change_passphrase R B Y C W N
              (ok p)
              (ok q)
              (handle_of R B Y C W N config, s)
            ≡ (ok tt, (handle_of R B Y C W N config', s')))
          × Stored config' s'
    unfolding change_passphrase changed
    change_lem config enc s free current moved =
        let config' : Config.Repo = record config { encryption = enc } in
        let (s', run, stored, _) = write_config_lem config' s free in
        let h = handle_of R B Y C W N config in
        let h' = handle_of R B Y C W N config' in
        (
          s',
          ap
                (λ v.
                  if v == 0
                  then (err not_found, (h, s))
                  else changed R B Y C W N
                      (change_passphrase_any (with_pwhash W N config.pwhash) config.encryption
                        (ok p) (ok q))
                      (h, s))
                current
              ∙ ap (λ enc. changed R B Y C W N enc (h, s)) moved
              ∙ ap (λ o. (o.0, (h', o.1))) run,
          stored,
        )

    -- In an empty place a repository is made, whatever the settings, and found so when it is opened.
    -- Its passphrase unlocks it. After the passphrase is changed the repository is found as the
    -- change left it, the new passphrase unlocks it for the same decryption as the old one did
    -- before, and encryption is what it was. Conditions: with the salt and the limits of the new
    -- configuration both passphrases give keys of 32 bytes, a configuration is parsed from its text,
    -- nothing stands in the way of its file, and that is then read as it was written.
    pub init-change_passphrase :
        (salt : Bytes) (s₁ s₂ : N.Seed) (settings : Settings.Repo) (s : B.State)
        → Derives W (from_settings W N settings.pwhash salt) p
        → Derives W (from_settings W N settings.pwhash salt) q
        → K.IsFree s
        → B.list [] s ≡ ok []
        → (h : Handle R) × (s' : B.State) × (init R B Y C W N salt s₁ s₂ (ok p) settings s
            ≡ (ok h, s'))
          × (open_repo R B Y C W N s' ≡ ok h)
          × (d : Decrypter R) × (unlock_decrypt R B Y C W N h (ok p) ≡ ok d)
          × (h' : Handle R) × (t : B.State) × (change_passphrase R B Y C W N (ok p) (ok q) (h, s')
              ≡ (ok tt, (h', t)))
          × (open_repo R B Y C W N t ≡ ok h')
          × (unlock_decrypt R B Y C W N h' (ok q) ≡ ok d)
          × (unlock_encrypt R B Y C W N h' ≡ unlock_encrypt R B Y C W N h)
    unfolding unlock_decrypt unlock_encrypt Moved
    init-change_passphrase salt s₁ s₂ settings s derives-p derives-q free empty =
        let (config, new, (current, pwhash), unlocks) =
          new_from_settings-Unlocks W N NK p settings salt s₁ s₂ derives-p in
        let (enc, (moved, (d, before, after), same)) =
          change_passphrase_any-Moved config.pwhash config.encryption
            (subst (λ so. Derives W so q) (sym pwhash) derives-q) unlocks in
        let (s', run, stored, free') = init_lem salt s₁ s₂ settings s config free empty new in
        let (t, run', stored') = change_lem config enc s' free' current moved in
        let config' : Config.Repo = record config { encryption = enc } in
        (
          handle_of R B Y C W N config,
          s',
          run,
          open_repo_lem config s' stored current,
          d,
          before,
          handle_of R B Y C W N config',
          t,
          run',
          open_repo_lem config' t stored' current,
          after,
          same,
        )
