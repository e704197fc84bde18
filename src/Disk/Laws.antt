-- ===== src/Disk/Laws.antt =====
-- What a disk has after a file was set or dropped.
use rdedup.Base.{◌≡◌, ◌≢◌, refl, ◌∙◌, sym, ap, Bytes, none, some, List, [], ◌∷◌, if_pos, if_neg}
use rdedup.Nesting.{FilePath}
use rdedup.Aio.Pool.{FilePath-discrete}
use rdedup.Disk.{Disk, find, without, file_at, set_file, drop_file}

pub find-same :
    (p q : FilePath) (b : Bytes) (files : List (FilePath × Bytes))
    → q ≡ p
    → find p ((q, b) ∷ files) ≡ some b
unfolding find
find-same p q b files e = if_pos (FilePath-discrete q p) e _ _

pub find-other :
    (p q : FilePath) (b : Bytes) (files : List (FilePath × Bytes))
    → q ≢ p
    → find p ((q, b) ∷ files) ≡ find p files
unfolding find
find-other p q b files n = if_neg (FilePath-discrete q p) n _ _

without-same :
    (p q : FilePath) (b : Bytes) (files : List (FilePath × Bytes))
    → q ≡ p
    → without p ((q, b) ∷ files) ≡ without p files
unfolding without
without-same p q b files e = if_pos (FilePath-discrete q p) e _ _

without-other :
    (p q : FilePath) (b : Bytes) (files : List (FilePath × Bytes))
    → q ≢ p
    → without p ((q, b) ∷ files) ≡ (q, b) ∷ without p files
unfolding without
without-other p q b files n = if_neg (FilePath-discrete q p) n _ _

pub find-without :
    (p : FilePath) (files : List (FilePath × Bytes)) → find p (without p files) ≡ none
unfolding find without
find-without p [] = refl
find-without p ((q, b) ∷ files) = elim (FilePath-discrete q p) [
  | yes e ↦ ap (find p) (without-same p q b files e) ∙ find-without p files
  | no n ↦
      ap (find p) (without-other p q b files n)
      ∙ find-other p q b (without p files) n
      ∙ find-without p files
]

pub find-without_other :
    (p q : FilePath) (files : List (FilePath × Bytes))
    → p ≢ q
    → find q (without p files) ≡ find q files
unfolding find without
find-without_other p q [] n = refl
find-without_other p q ((r, b) ∷ files) n = elim (FilePath-discrete r p) [
  | yes e ↦
      ap (find q) (without-same p r b files e)
      ∙ find-without_other p q files n
      ∙ sym (find-other q r b files (λ h. n (sym e ∙ h)))
  | no m ↦ ap (find q) (without-other p r b files m) ∙ (elim (FilePath-discrete r q) [
    | yes e ↦ find-same q r b (without p files) e ∙ sym (find-same q r b files e)
    | no h ↦
        find-other q r b (without p files) h
        ∙ find-without_other p q files n
        ∙ sym (find-other q r b files h)
  ])
]

pub file_at-set : (p : FilePath) (b : Bytes) (d : Disk) → file_at p (set_file p b d) ≡ some b
file_at-set p b d = find-same p p b (without p d.files) refl

pub file_at-set_other :
    (p q : FilePath) (b : Bytes) (d : Disk) → p ≢ q → file_at q (set_file p b d) ≡ file_at q d
file_at-set_other p q b d n =
    find-other q p b (without p d.files) n ∙ find-without_other p q d.files n

pub file_at-drop : (p : FilePath) (d : Disk) → file_at p (drop_file p d) ≡ none
file_at-drop p d = find-without p d.files

pub file_at-drop_other :
    (p q : FilePath) (d : Disk) → p ≢ q → file_at q (drop_file p d) ≡ file_at q d
file_at-drop_other p q d n = find-without_other p q d.files n
