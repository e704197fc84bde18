-- ===== src/Local/Directories.antt =====
-- The local backend removes a directory with the files below it, and no other file.
use rdedup.Local.Sound.{sound}
use rdedup.SgData.{SgData, ArcRefs, IsArcRef}
use rdedup.Local.Through.{Through, through, rename-Through, write-Through, remove-Through}
use rdedup.Aio.{
  IsBackend, Layout, Key, gen_config, name_file, chunk, config_path, name_path, key_path,
}
use rdedup.Base.{
  ◌≡◌, refl, ◌∙◌, sym, ap, Bool, true, false, Bool-cases, ◌⊎◌, inl, inr, Bytes, Option, none, some,
  Result, ok, err, not_found, other, ◌∷◌,
}
use rdedup.Nesting.{FilePath, chunk_path}
use rdedup.Disk
use rdedup.Disk.{Disk, file_at, is_dir, is_below, remove_below}
use rdedup.Disk.Removal.{find-off_below, find-off_beside, below-head}
use rdedup.Local
use rdedup.Local.{Walk}
use rdedup.Local.Shapes.{IsHex}
use rdedup.Local.Sound.Removal.{off, sound-off}
use rdedup.Local.Files.{stored}
use rdedup.Local.Backends.{SoundDisk, guarded, guarded-sound, local}
use rdedup.Local.Refines.{local-IsBackend}
use rdedup.Repository.Wipe.{gen_of, IsDirs}

below-gen :
    (l : Layout) (gen : Bytes) (rest : FilePath) (k : Key)
    → is_below (gen ∷ rest) (key_path l k) ≡ true
    → gen_of k ≡ gen
unfolding config_path name_path chunk_path
below-gen l gen rest (gen_config g) e = sym (below-head gen g rest _ e)
below-gen l gen rest (name_file g name) e = sym (below-head gen g rest _ e)
below-gen l gen rest (chunk g digest) e = sym (below-head gen g rest _ e)

module _ (l : Layout) where
  remove_dir_all_lem :
      (path : FilePath) (d : Disk)
      → (r : Result (Unit {0})) × (d' : Disk) × (Local.remove_dir_all path d ≡ (r, d'))
        × ((d' ≡ off path d) ⊎ (d' ≡ d))
  unfolding Local.remove_dir_all Disk.remove_dir_all remove_below
  remove_dir_all_lem path d = by (is_dir path d) (file_at path d)
    where
      by :
          (there : Bool) (file : Option Bytes)
          → (r : Result (Unit {0})) × (d' : Disk) × (remove_below path there file d ≡ (r, d'))
            × ((d' ≡ off path d) ⊎ (d' ≡ d))
      by true file = (ok tt, off path d, refl, inl refl)
      by false (some b) = (err other, d, refl, inr refl)
      by false none = (err not_found, d, refl, inr refl)

  stored-off :
      (gen : Bytes) (rest : FilePath) (d : Disk) (k : Key)
      → (stored l (off (gen ∷ rest) d) k ≡ stored l d k)
        ⊎ ((gen_of k ≡ gen) × (stored l (off (gen ∷ rest) d) k ≡ none))
  unfolding stored
  stored-off gen rest d k = elim (Bool-cases (is_below (gen ∷ rest) (key_path l k))) [
    | inl e ↦ inr (below-gen l gen rest k e, find-off_below (gen ∷ rest) (key_path l k) d.files e)
    | inr e ↦ inl (find-off_beside (gen ∷ rest) (key_path l k) d.files e)
  ]

  remove_dir_all-Through :
      (path : FilePath) (s : SoundDisk l) → Through l (Local.remove_dir_all path) s
  remove_dir_all-Through path (d, s) =
      let op = Local.remove_dir_all path in
      let (r, d', run, after) = remove_dir_all_lem path d in
      through l op d s r d' run
        (elim after [ inl e ↦ ap (sound l) e ∙ sound-off l path d s | inr e ↦ ap (sound l) e ∙ s ])

module _ (R : ArcRefs) (L : IsArcRef R) (l : Layout) (H : IsHex l) (rand_ext : Bytes)
    (walk : Walk) where
  local-removes :
      (gen : Bytes) (rest : FilePath) (s : SoundDisk l) (k : Key)
      → let s' = (guarded l (Local.remove_dir_all (gen ∷ rest)) s).1 in
        (stored l s'.0 k ≡ stored l s.0 k) ⊎ ((gen_of k ≡ gen) × (stored l s'.0 k ≡ none))
  local-removes gen rest (d, s) k =
      let path = gen ∷ rest in
      let op = Local.remove_dir_all path in
      let (r, d', run, after) = remove_dir_all_lem l path d in
      elim after [
        | inl e ↦
            let taken =
              guarded-sound l op d s r (off path d) (run ∙ ap (λ t. (r, t)) e)
                (sound-off l path d s) in
            let same = ap (λ o. stored l o.1.0 k) taken in
            elim (stored-off l gen rest d k) [
              | inl kept ↦ inl (same ∙ kept)
              | inr (of, gone) ↦ inr (of, same ∙ gone)
            ]
        | inr e ↦
            inl
              (ap (λ o. stored l o.1.0 k) (guarded-sound l op d s r d (run ∙ ap (λ t. (r, t)) e) s))
      ]

  local-IsDirs : IsDirs R (local l R rand_ext walk) l (local-IsBackend R L l H rand_ext walk)
  local-IsDirs = record { removes = local-removes }

  -- The local backend is a backend as the repository relies on, where what is stored under a key is
  -- what the file at its path has: on every sound disk each call, at the paths of all keys and on
  -- every branch, returns and does to what is stored as the interface says. A file is read whole and
  -- one that is not there is `NotFound`; a rename moves a file, its new directory made if it is
  -- missing, and changes no other; a write goes through a temporary file that no key has, and leaves
  -- the bytes under the key, unless the file is there and said to be the same; a removal takes one
  -- file, and that of a directory none but files of its generation. What these calls return and the
  -- disk they leave are those of the operations themselves. Conditions: no digit of `hex::encode` is
  -- a `p`, and different bytes have different digits.
  pub local-refines :
      (K : IsBackend R (local l R rand_ext walk) l) × IsDirs R (local l R rand_ext walk) l K
      × ((s : SoundDisk l) (k : Key) → K.file s k ≡ file_at (key_path l k) s.0)
      × ((s : SoundDisk l) (k j : Key) → Through l (Local.rename (key_path l k) (key_path l j)) s)
      × ((s : SoundDisk l) (k : Key) (sg : SgData R) (idempotent : Bool)
          → Through l (Local.write R rand_ext (key_path l k) sg idempotent) s)
      × ((s : SoundDisk l) (k : Key) → Through l (Local.remove (key_path l k)) s)
      × ((s : SoundDisk l) (path : FilePath) → Through l (Local.remove_dir_all path) s)
  unfolding stored
  local-refines = (
    local-IsBackend R L l H rand_ext walk,
    local-IsDirs,
    λ s k. refl,
    rename-Through l,
    write-Through l R H rand_ext,
    remove-Through l,
    λ s path. remove_dir_all-Through l path s,
  )
