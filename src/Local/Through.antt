-- ===== src/Local/Through.antt =====
-- The local backend takes every call at the paths of the repository: what it does is what the
-- operation itself does.
use rdedup.Base.{
  ◌≡◌, refl, ◌∙◌, sym, ap, Bool, true, false, Bytes, ◌⊎◌, inl, inr, none, Option-cases, Result, ok,
  err, not_found,
}
use rdedup.Io.{Io}
use rdedup.SgData.{ArcRefs, SgData}
use rdedup.Aio.{Layout, Key, key_path}
use rdedup.Disk.{Disk, drop_file}
use rdedup.Local
use rdedup.Local.Shapes.{IsHex, dir_shape-key}
use rdedup.Local.Sound.{sound, sound-set, sound-drop}
use rdedup.Local.Files.{stored}
use rdedup.Local.Runs.{rename_lem, rename-missing_lem}
use rdedup.Local.Writes.{write_file_lem, write-kept, write-not_kept}
use rdedup.Local.Reads.{not-kept, exists-some, remove-some_lem, remove-none_lem}
use rdedup.Local.Backends.{SoundDisk, guarded, guarded-sound}

module _ (l : Layout) where
  -- The call of the backend returns what the operation does, and leaves the disk that it leaves.
  abbrev pub Through : Io Disk (Unit {0}) → SoundDisk l → Type 0
  Through op s = ((guarded l op s).0 ≡ (op s.0).0) × ((guarded l op s).1.0 ≡ (op s.0).1)

  pub through :
      (op : Io Disk (Unit {0})) (d : Disk) (s : sound l d ≡ true) (r : Result (Unit {0}))
      (d' : Disk)
      → op d ≡ (r, d')
      → sound l d' ≡ true
      → Through op (d, s)
  through op d s r d' run s' =
      let same = guarded-sound l op d s r d' run s' in
      (ap (λ o. o.0) same ∙ sym (ap (λ o. o.0) run), ap (λ o. o.1.0) same ∙ sym (ap (λ o. o.1) run))

  pub rename-Through :
      (s : SoundDisk l) (k j : Key) → Through (Local.rename (key_path l k) (key_path l j)) s
  unfolding stored
  rename-Through (d, s) k j =
      let op = Local.rename (key_path l k) (key_path l j) in
      elim (Option-cases (stored l d k)) [
        | inl e ↦
            let (d', run, made) = rename-missing_lem l (key_path l k) j d s e in
            through op d s (err not_found) d' run made.still_sound
        | inr (b, e) ↦
            let (d', run, made) = rename_lem l (key_path l k) j b d s e in
            let dropped = sound-drop l (key_path l k) d' made.still_sound in
            through op d s (ok tt) _ run (
              sound-set l (key_path l j) b (drop_file (key_path l k) d') dropped
                (dir_shape-key l j))
      ]

  pub remove-Through : (s : SoundDisk l) (k : Key) → Through (Local.remove (key_path l k)) s
  remove-Through (d, s) k =
      let op = Local.remove (key_path l k) in
      elim (Option-cases (stored l d k)) [
        | inl e ↦ through op d s (err not_found) d (remove-none_lem l k d s e) s
        | inr (b, e) ↦
            through op d s (ok tt) _ (remove-some_lem l k d b e) (sound-drop l (key_path l k) d s)
      ]

  module _ (R : ArcRefs) (H : IsHex l) (rand_ext : Bytes) where
    write-not_kept-Through :
        (d : Disk) (s : sound l d ≡ true) (k : Key) (sg : SgData R) (idempotent : Bool)
        → (stored l d k ≡ none) ⊎ (idempotent ≡ false)
        → Through (Local.write R rand_ext (key_path l k) sg idempotent) (d, s)
    write-not_kept-Through d s k sg idempotent h =
        let (d', run, s', after) = write_file_lem l R H rand_ext k sg d s in
        through (Local.write R rand_ext (key_path l k) sg idempotent) d s (ok tt) d'
          (write-not_kept l R H rand_ext k sg idempotent d (not-kept l k d idempotent s h) ∙ run) s'

    pub write-Through :
        (s : SoundDisk l) (k : Key) (sg : SgData R) (idempotent : Bool)
        → Through (Local.write R rand_ext (key_path l k) sg idempotent) s
    write-Through (d, s) k sg false = write-not_kept-Through d s k sg false (inr refl)
    write-Through (d, s) k sg true = elim (Option-cases (stored l d k)) [
      | inl e ↦ write-not_kept-Through d s k sg true (inl e)
      | inr (b, e) ↦
          through (Local.write R rand_ext (key_path l k) sg true) d s (ok tt) d
            (write-kept l R H rand_ext k sg d (exists-some l k d b e)) s
    ]
