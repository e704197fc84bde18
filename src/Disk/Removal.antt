-- ===== src/Disk/Removal.antt =====
-- What the removal of a directory leaves.
use rdedup.Base.{
  ◌≡◌, refl, ◌∙◌, sym, ap, true, false, Bool-cases, Bytes, Bytes-discrete, none, List, [], ◌∷◌,
  if_neg, inl, inr,
}
use rdedup.Nesting.{FilePath}
use rdedup.Aio.Pool.{FilePath-discrete}
use rdedup.Disk.{find, is_below, files_off}
use rdedup.Disk.Laws.{find-same, find-other}

files_off-below :
    (dir p : FilePath) (b : Bytes) (files : List (FilePath × Bytes))
    → is_below dir p ≡ true
    → files_off dir ((p, b) ∷ files) ≡ files_off dir files
unfolding files_off
files_off-below dir p b files e = rw e refl

files_off-beside :
    (dir p : FilePath) (b : Bytes) (files : List (FilePath × Bytes))
    → is_below dir p ≡ false
    → files_off dir ((p, b) ∷ files) ≡ (p, b) ∷ files_off dir files
unfolding files_off
files_off-beside dir p b files e = rw e refl

-- No file below the directory is left, and every other is.
pub find-off_below :
    (dir p : FilePath) (files : List (FilePath × Bytes))
    → is_below dir p ≡ true
    → find p (files_off dir files) ≡ none
unfolding find files_off
find-off_below dir p [] e = refl
find-off_below dir p ((q, b) ∷ files) e = elim (Bool-cases (is_below dir q)) [
  | inl h ↦ ap (find p) (files_off-below dir q b files h) ∙ find-off_below dir p files e
  | inr h ↦
      ap (find p) (files_off-beside dir q b files h)
      ∙ find-other p q b (files_off dir files)
          (λ same. differ (sym e ∙ ap (is_below dir) (sym same) ∙ h))
      ∙ find-off_below dir p files e
]
  where
    differ : true ≡ false → ⊥
    differ e = cc e

pub find-off_beside :
    (dir p : FilePath) (files : List (FilePath × Bytes))
    → is_below dir p ≡ false
    → find p (files_off dir files) ≡ find p files
unfolding find files_off
find-off_beside dir p [] e = refl
find-off_beside dir p ((q, b) ∷ files) e = elim (FilePath-discrete q p) [
  | yes same ↦
      ap (find p) (files_off-beside dir q b files (ap (is_below dir) same ∙ e))
      ∙ find-same p q b (files_off dir files) same
      ∙ sym (find-same p q b files same)
  | no n ↦
      (elim (Bool-cases (is_below dir q)) [
        | inl h ↦ ap (find p) (files_off-below dir q b files h) ∙ find-off_beside dir p files e
        | inr h ↦
            ap (find p) (files_off-beside dir q b files h)
            ∙ find-other p q b (files_off dir files) n
            ∙ find-off_beside dir p files e
      ])
      ∙ sym (find-other p q b files n)
]

-- What is below a directory begins like it.
pub below-head : (c e : Bytes) (dir path : FilePath) → is_below (c ∷ dir) (e ∷ path) ≡ true → c ≡ e
unfolding is_below
below-head c e dir path h = elim (Bytes-discrete c e) [
  | yes same ↦ same
  | no n ↦ absurd (differ (sym (if_neg (Bytes-discrete c e) n (is_below dir path) false) ∙ h))
]
  where
    differ : false ≡ true → ⊥
    differ e = cc e
