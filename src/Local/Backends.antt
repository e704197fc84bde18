-- ===== src/Local/Backends.antt =====
-- lib/src/aio/local.rs as the backend of a repository. Its state is a sound disk: a call is taken
-- where it leaves one, as every call at the path of a key does (Local/Through).
use rdedup.Base.{◌≡◌, refl, ◌∙◌, ap, subst, Bool, true, false, Bytes, Result, err, other}
use rdedup.Io.{Io}
use rdedup.SgData.{ArcRefs}
use rdedup.Aio.{Layout, Backend}
use rdedup.Disk.{Disk}
use rdedup.Local
use rdedup.Local.{Walk}
use rdedup.Local.Sound.{sound, true-ne-false}

module _ (l : Layout) where
  abbrev pub SoundDisk : Type 0
  SoundDisk = (d : Disk) × (sound l d ≡ true)

  sound-IsProp : (d : Disk) → IsProp (sound l d ≡ true)
  sound-IsProp d = hlevel

  keep :
      {A : Type 0} (run : Result A × Disk) (b : Bool)
      → sound l run.1 ≡ b
      → SoundDisk
      → Result A × SoundDisk
  keep (r, d) true e old = (r, (d, e))
  keep (r, d) false e old = (err other, old)

  unfoldable pub guarded : {A : Type 0} → Io Disk A → Io SoundDisk A
  unfolding keep
  guarded op (d, s) = keep (op d) (sound l (op d).1) refl (d, s)

  keep-sound :
      {A : Type 0} (run : Result A × Disk) (b : Bool) (e : sound l run.1 ≡ b) (old : SoundDisk)
      (s : sound l run.1 ≡ true)
      → keep run b e old ≡ (run.0, (run.1, s))
  unfolding keep
  keep-sound (r, d) true e old s = ap (λ p. (r, (d, p))) (sound-IsProp d e s)
  keep-sound (r, d) false e old s = absurd (true-ne-false s e)

  abbrev pack : {A : Type 0} (x : Result A × Disk) → sound l x.1 ≡ true → Result A × SoundDisk
  pack x s = (x.0, (x.1, s))

  same-sound :
      {A : Type 0} (x y : Result A × Disk)
      → x ≡ y
      → (p : sound l x.1 ≡ true) (q : sound l y.1 ≡ true) → pack x p ≡ pack y q
  same-sound x y e p =
      subst (λ y. (q : sound l y.1 ≡ true) → pack x p ≡ pack y q) e
        (λ q. ap (pack x) (sound-IsProp x.1 p q))

  -- A call that leaves a sound disk is taken.
  pub guarded-sound :
      {A : Type 0} (op : Io Disk A) (d : Disk) (s : sound l d ≡ true) (r : Result A) (d' : Disk)
      → op d ≡ (r, d')
      → (s' : sound l d' ≡ true) → guarded op (d, s) ≡ (r, (d', s'))
  unfolding guarded
  guarded-sound op d s r d' run s' =
      keep-sound (op d) (sound l (op d).1) refl (d, s) (ap (λ o. sound l o.1) run ∙ s')
      ∙ same-sound (op d) (r, d') run (ap (λ o. sound l o.1) run ∙ s') s'

  module _ (R : ArcRefs) (rand_ext : Bytes) (walk : Walk) where
    -- `LocalThread`
    abbrev pub local : Backend R
    local = record {
      State = SoundDisk;
      remove_dir_all = λ path. guarded (Local.remove_dir_all path);
      rename = λ src_path dst_path. guarded (Local.rename src_path dst_path);
      write = λ path sg idempotent. guarded (Local.write R rand_ext path sg idempotent);
      read = λ path s. Local.read R path s.0;
      remove = λ path. guarded (Local.remove path);
      read_metadata = λ path s. Local.read_metadata path s.0;
      list = λ path s. Local.list path s.0;
      list_recursively = λ path s. Local.list_recursively walk path s.0;
    }
