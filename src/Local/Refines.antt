-- ===== src/Local/Refines.antt =====
-- The local backend keeps what the repository relies on in a backend.
use rdedup.Base.{
  ◌≡◌, ◌≢◌, refl, ◌∙◌, Bool, true, false, ◌⊎◌, inl, inr, Bytes, none, some, Option-cases, ok, err,
  not_found,
}
use rdedup.SgData.{ArcRefs, IsArcRef, SgData, bytes}
use rdedup.Aio.{Layout, Key, key_path, put, IsBackend}
use rdedup.Disk.{set_file, drop_file}
use rdedup.Local
use rdedup.Local.{Walk}
use rdedup.Local.Shapes.{IsHex, dir_shape-key}
use rdedup.Local.Sound.{sound-set, sound-drop}
use rdedup.Local.Files.{stored, put-ext, stored-set, stored-drop, stored-made}
use rdedup.Local.Runs.{rename_lem, rename-missing_lem}
use rdedup.Local.Writes.{write_file_lem, write-kept, write-not_kept}
use rdedup.Local.Reads.{
  read-some_lem, read-none_lem, read_metadata-some_lem, read_metadata-none_lem, not-kept,
  exists-some, remove-some_lem, remove-none_lem,
}
use rdedup.Local.Backends.{SoundDisk, guarded, guarded-sound, local}

module _ (R : ArcRefs) (L : IsArcRef R) (l : Layout) (H : IsHex l) (rand_ext : Bytes)
    (walk : Walk) where
  pub local-rename-some :
      (s : SoundDisk l) (k j : Key) (b : Bytes)
      → stored l s.0 k ≡ some b
      → (s' : SoundDisk l) × (guarded l (Local.rename (key_path l k) (key_path l j)) s
          ≡ (ok tt, s'))
        × ((i : Key) → stored l s'.0 i ≡ put (put (stored l s.0) k none) j (some b) i)
  unfolding stored
  local-rename-some (d, s) k j b e =
      let (d', run, made) = rename_lem l (key_path l k) j b d s e in
      let dropped = drop_file (key_path l k) d' in
      let s' =
        sound-set l (key_path l j) b dropped (sound-drop l (key_path l k) d' made.still_sound)
          (dir_shape-key l j) in
      (
        (set_file (key_path l j) b dropped, s'),
        guarded-sound l (Local.rename (key_path l k) (key_path l j)) d s (ok tt) _ run s',
        λ i.
            stored-set l H j i b dropped
            ∙ put-ext (stored l dropped) (put (stored l d) k none) j i (some b) (λ m.
              stored-drop l H k m d'
              ∙ put-ext (stored l d') (stored l d) k m none
                  (λ n. stored-made l n d d' made.same_files)),
      )

  pub local-rename-none :
      (s : SoundDisk l) (k j : Key)
      → stored l s.0 k ≡ none
      → (s' : SoundDisk l) × (guarded l (Local.rename (key_path l k) (key_path l j)) s
          ≡ (err not_found, s'))
        × ((i : Key) → stored l s'.0 i ≡ stored l s.0 i)
  unfolding stored
  local-rename-none (d, s) k j e =
      let (d', run, made) = rename-missing_lem l (key_path l k) j d s e in
      (
        (d', made.still_sound),
        guarded-sound l (Local.rename (key_path l k) (key_path l j)) d s (err not_found) d' run
            made.still_sound,
        λ i. stored-made l i d d' made.same_files,
      )

  pub local-write-new :
      (s : SoundDisk l) (k : Key) (sg : SgData R) (idempotent : Bool)
      → (stored l s.0 k ≡ none) ⊎ (idempotent ≡ false)
      → (s' : SoundDisk l) × (guarded l (Local.write R rand_ext (key_path l k) sg idempotent) s
          ≡ (ok tt, s'))
        × ((i : Key) → stored l s'.0 i ≡ put (stored l s.0) k (some (bytes R sg)) i)
  local-write-new (d, s) k sg idempotent h =
      let (d', run, s', after) = write_file_lem l R H rand_ext k sg d s in
      (
        (d', s'),
        guarded-sound l (Local.write R rand_ext (key_path l k) sg idempotent) d s (ok tt) d'
            (write-not_kept l R H rand_ext k sg idempotent d (not-kept l k d idempotent s h) ∙ run)
            s',
        after,
      )

  pub local-write-again :
      (s : SoundDisk l) (k : Key) (sg : SgData R)
      → stored l s.0 k ≢ none
      → (s' : SoundDisk l) × (guarded l (Local.write R rand_ext (key_path l k) sg true) s
          ≡ (ok tt, s'))
        × ((i : Key) → stored l s'.0 i ≡ stored l s.0 i)
  local-write-again (d, s) k sg h = elim (Option-cases (stored l d k)) [
    | inl e ↦ absurd (h e)
    | inr (b, e) ↦ (
      (d, s),
      guarded-sound l (Local.write R rand_ext (key_path l k) sg true) d s (ok tt) d
          (write-kept l R H rand_ext k sg d (exists-some l k d b e)) s,
      λ i. refl,
    )
  ]

  pub local-remove-some :
      (s : SoundDisk l) (k : Key)
      → stored l s.0 k ≢ none
      → (s' : SoundDisk l) × (guarded l (Local.remove (key_path l k)) s ≡ (ok tt, s'))
        × ((i : Key) → stored l s'.0 i ≡ put (stored l s.0) k none i)
  local-remove-some (d, s) k h = elim (Option-cases (stored l d k)) [
    | inl e ↦ absurd (h e)
    | inr (b, e) ↦
        let s' = sound-drop l (key_path l k) d s in
        (
          (drop_file (key_path l k) d, s'),
          guarded-sound l (Local.remove (key_path l k)) d s (ok tt) _ (remove-some_lem l k d b e)
              s',
          λ i. stored-drop l H k i d,
        )
  ]

  pub local-remove-none :
      (s : SoundDisk l) (k : Key)
      → stored l s.0 k ≡ none
      → (s' : SoundDisk l) × (guarded l (Local.remove (key_path l k)) s ≡ (err not_found, s'))
        × ((i : Key) → stored l s'.0 i ≡ stored l s.0 i)
  local-remove-none (d, s) k e = (
    (d, s),
    guarded-sound l (Local.remove (key_path l k)) d s (err not_found) d (remove-none_lem l k d s e)
        s,
    λ i. refl,
  )

  abbrev pub local-IsBackend : IsBackend R (local l R rand_ext walk) l
  local-IsBackend = record {
    file = λ s k. stored l s.0 k;
    read-some = λ s k b e. read-some_lem R L l k s.0 b e;
    read-none = λ s k e. read-none_lem R L l k s.0 s.1 e;
    read_metadata-some = λ s k b e. read_metadata-some_lem l k s.0 b e;
    read_metadata-none = λ s k e. read_metadata-none_lem l k s.0 s.1 e;
    rename-some = local-rename-some;
    rename-none = local-rename-none;
    write-new = local-write-new;
    write-again = local-write-again;
    remove-some = local-remove-some;
    remove-none = local-remove-none;
  }
