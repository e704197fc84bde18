-- ===== src/Local/Sound.antt =====
-- A disk on which every directory is where one may be above the files of a repository, and no file
-- is in such a place.
pub mod Removal
use rdedup.Base.{
  ◌≡◌, refl, ◌∙◌, sym, ap, subst, Bool, true, false, ◌&&◌, not, Bytes, none, some, All, ok, List,
  [], ◌∷◌, ◌++◌, if_pos, if_neg, append_assoc, append-nil, append-nil,
}
use rdedup.Nesting.{FilePath}
use rdedup.Aio.{Layout}
use rdedup.Aio.Pool.{FilePath-discrete, contains}
use rdedup.Disk.{
  Disk, find, without, set_file, drop_file, is_dir, prefixes, make_dir, make_free, make_dirs,
  create_dir_all,
}
use rdedup.Local.Shapes.{dir_shape, Dirs}

pub and-true : (a b : Bool) → a ≡ true → b ≡ true → a && b ≡ true
and-true true b e h = h
and-true false b e h = e

and-left : (a b : Bool) → a && b ≡ true → a ≡ true
and-left true b e = refl
and-left false b e = e

and-right : (a b : Bool) → a && b ≡ true → b ≡ true
and-right true b e = e
and-right false b e = absurd (differ e)
  where
    differ : false ≡ true → ⊥
    differ e = cc e

not-true : (a : Bool) → not a ≡ true → a ≡ false
not-true true e = sym e
not-true false e = refl

pub true-ne-false : {a : Bool} → a ≡ true → a ≡ false → ⊥
true-ne-false e h = cc (e, h)

module _ (l : Layout) where
  dirs_sound : List FilePath → Bool
  dirs_sound [] = true
  dirs_sound (p ∷ dirs) = dir_shape l p && dirs_sound dirs

  files_sound : List (FilePath × Bytes) → Bool
  files_sound [] = true
  files_sound ((p, b) ∷ files) = not (dir_shape l p) && files_sound files

  unfoldable pub sound : Disk → Bool
  unfolding dirs_sound files_sound
  sound d = dirs_sound d.dirs && files_sound d.files

  dirs_sound-contains :
      (p : FilePath) (dirs : List FilePath)
      → dirs_sound dirs ≡ true
      → dir_shape l p ≡ false
      → contains p dirs ≡ false
  unfolding dirs_sound contains
  dirs_sound-contains p [] s f = refl
  dirs_sound-contains p (q ∷ dirs) s f = elim (FilePath-discrete q p) [
    | yes e ↦
        absurd
          (true-ne-false (and-left (dir_shape l q) (dirs_sound dirs) s) (ap (dir_shape l) e ∙ f))
    | no n ↦
        if_neg (FilePath-discrete q p) n true (contains p dirs)
        ∙ dirs_sound-contains p dirs (and-right (dir_shape l q) _ s) f
  ]

  files_sound-find :
      (p : FilePath) (files : List (FilePath × Bytes))
      → files_sound files ≡ true
      → dir_shape l p ≡ true
      → find p files ≡ none
  unfolding files_sound find
  files_sound-find p [] s f = refl
  files_sound-find p ((q, b) ∷ files) s f = elim (FilePath-discrete q p) [
    | yes e ↦ absurd (
        true-ne-false f
          (ap (dir_shape l) (sym e) ∙ not-true (dir_shape l q) (and-left _ (files_sound files) s)))
    | no n ↦
        if_neg (FilePath-discrete q p) n (some b) (find p files)
        ∙ files_sound-find p files (and-right (not (dir_shape l q)) _ s) f
  ]

  files_sound-without :
      (p : FilePath) (files : List (FilePath × Bytes))
      → files_sound files ≡ true
      → files_sound (without p files) ≡ true
  unfolding files_sound without
  files_sound-without p [] s = refl
  files_sound-without p ((q, b) ∷ files) s =
      let rest = files_sound-without p files (and-right (not (dir_shape l q)) _ s) in
      elim (FilePath-discrete q p) [
        | yes e ↦
            subst (λ fs. files_sound fs ≡ true)
              (sym (if_pos (FilePath-discrete q p) e (without p files) _)) rest
        | no n ↦
            subst (λ fs. files_sound fs ≡ true)
              (sym (if_neg (FilePath-discrete q p) n (without p files) _))
              (and-true (not (dir_shape l q)) _ (and-left _ (files_sound files) s) rest)
      ]

  -- Where no directory may be there is none.
  pub sound-not_dir :
      (p : FilePath) (d : Disk) → sound d ≡ true → dir_shape l p ≡ false → is_dir p d ≡ false
  unfolding sound is_dir dir_shape
  sound-not_dir [] d s f = absurd (true-ne-false refl f)
  sound-not_dir (c ∷ p) d s f =
      dirs_sound-contains (c ∷ p) d.dirs (and-left _ (files_sound d.files) s) f

  pub sound-set :
      (p : FilePath) (b : Bytes) (d : Disk)
      → sound d ≡ true
      → dir_shape l p ≡ false
      → sound (set_file p b d) ≡ true
  unfolding sound
  sound-set p b d s f = and-true (dirs_sound d.dirs) _ (and-left _ (files_sound d.files) s) (
      and-true (not (dir_shape l p)) _ (ap not f)
        (files_sound-without p d.files (and-right (dirs_sound d.dirs) _ s)))

  pub sound-drop : (p : FilePath) (d : Disk) → sound d ≡ true → sound (drop_file p d) ≡ true
  unfolding sound
  sound-drop p d s =
      and-true (dirs_sound d.dirs) _ (and-left _ (files_sound d.files) s)
        (files_sound-without p d.files (and-right (dirs_sound d.dirs) _ s))

  -- What the making of directories does.
  pub record Made (d d' : Disk) : Type 0 where
    pub same_files : d'.files ≡ d.files
    pub still_sound : sound d' ≡ true
    pub kept : (p : FilePath) → is_dir p d ≡ true → is_dir p d' ≡ true

  contains-more :
      (p q : FilePath) (dirs : List FilePath)
      → contains p dirs ≡ true
      → contains p (q ∷ dirs) ≡ true
  unfolding contains
  contains-more p q dirs e = elim (FilePath-discrete q p) [
    | yes same ↦ if_pos (FilePath-discrete q p) same true (contains p dirs)
    | no n ↦ if_neg (FilePath-discrete q p) n true (contains p dirs) ∙ e
  ]

  contains-first : (p : FilePath) (dirs : List FilePath) → contains p (p ∷ dirs) ≡ true
  unfolding contains
  contains-first p dirs = if_pos (FilePath-discrete p p) refl true (contains p dirs)

  is_dir-more :
      (p q : FilePath) (d : Disk)
      → is_dir p d ≡ true
      → is_dir p (record d { dirs = q ∷ d.dirs }) ≡ true
  unfolding is_dir
  is_dir-more [] q d e = refl
  is_dir-more (c ∷ p) q d e = contains-more (c ∷ p) q d.dirs e

  is_dir-first : (p : FilePath) (d : Disk) → is_dir p (record d { dirs = p ∷ d.dirs }) ≡ true
  unfolding is_dir
  is_dir-first [] d = refl
  is_dir-first (c ∷ p) d = contains-first (c ∷ p) d.dirs

  make_dir_lem :
      (p : FilePath) (d : Disk)
      → sound d ≡ true
      → dir_shape l p ≡ true
      → (d' : Disk) × (make_dir p d ≡ (ok tt, d')) × Made d d' × (is_dir p d' ≡ true)
  unfolding make_dir make_free sound
  make_dir_lem p d s f =
      let free = files_sound-find p d.files (and-right (dirs_sound d.dirs) _ s) f in
      let (d', run, made, there) = by_there (is_dir p d) refl in
      (d', ap (λ o. make_free p (is_dir p d) o d) free ∙ run, made, there)
    where
      by_there :
          (b : Bool)
          → is_dir p d ≡ b
          → (d' : Disk) × (make_free p b none d ≡ (ok tt, d')) × Made d d' × (is_dir p d' ≡ true)
      by_there true e = (d, refl, record { same_files = refl; still_sound = s; kept = λ q h. h }, e)
      by_there false e = (
        record d { dirs = p ∷ d.dirs },
        refl,
        record {
          same_files = refl;
          still_sound =
              and-true (dir_shape l p && dirs_sound d.dirs) (files_sound d.files)
                (and-true (dir_shape l p) (dirs_sound d.dirs) f
                  (and-left _ (files_sound d.files) s))
                (and-right (dirs_sound d.dirs) _ s);
          kept = λ q h. is_dir-more q p d h;
        },
        is_dir-first p d,
      )

  make_dirs_lem :
      (paths : List FilePath) (d : Disk)
      → sound d ≡ true
      → Dirs l paths
      → (d' : Disk) × (make_dirs paths d ≡ (ok tt, d'))
        × Made d d'
        × All (λ p. is_dir p d' ≡ true) paths
  unfolding make_dirs
  make_dirs_lem [] d s a =
      (d, refl, record { same_files = refl; still_sound = s; kept = λ q h. h }, tt)
  make_dirs_lem (p ∷ paths) d s (f, a) =
      let (d₁, run₁, m₁, there) = make_dir_lem p d s f in
      let (d₂, run₂, m₂, all) = make_dirs_lem paths d₁ m₁.still_sound a in
      (
        d₂,
        rw run₁ run₂,
        record {
          same_files = m₂.same_files ∙ m₁.same_files;
          still_sound = m₂.still_sound;
          kept = λ q h. m₂.kept q (m₁.kept q h);
        },
        (m₂.kept p there, all),
      )

  last_prefix :
      (above p : FilePath) (d : Disk)
      → is_dir above d ≡ true
      → All (λ q. is_dir q d ≡ true) (prefixes above p)
      → is_dir (above ++ p) d ≡ true
  unfolding prefixes
  last_prefix above [] d e a = subst (λ q. is_dir q d ≡ true) (sym (append-nil above)) e
  last_prefix above (c ∷ p) d e (there, a) =
      subst (λ q. is_dir q d ≡ true) (append_assoc above (c ∷ []) p)
        (last_prefix (above ++ (c ∷ [])) p d there a)

  -- All the directories of a path are made, if they may be.
  pub create_dir_all_lem :
      (p : FilePath) (d : Disk)
      → sound d ≡ true
      → Dirs l (prefixes [] p)
      → (d' : Disk) × (create_dir_all p d ≡ (ok tt, d')) × Made d d' × (is_dir p d' ≡ true)
  unfolding create_dir_all is_dir
  create_dir_all_lem p d s a =
      let (d', run, made, all) = make_dirs_lem (prefixes [] p) d s a in
      (d', run, made, last_prefix [] p d' refl all)
