-- ===== src/Aio/Pool/Count.antt =====
-- The set of paths in progress as a list in which paths are counted.
use rdedup.Base.{
  ℕ, suc, ◌+◌, ◌≤◌, ◌≡◌, ◌≢◌, refl, ◌∙◌, sym, ap, subst, true, false, if_pos, if_neg, ite, List, [],
  ◌∷◌, arith,
}
use rdedup.Nesting.{FilePath}
use rdedup.Aio.Pool.{FilePath-discrete, contains, remove_path}

-- How often a path stands in a list.
unfoldable pub count : FilePath → List FilePath → ℕ
count q [] = 0
count q (p ∷ paths) = ite (FilePath-discrete p q) (suc (count q paths)) (count q paths)

pub count-same :
    (p q : FilePath) (paths : List FilePath) → p ≡ q → count q (p ∷ paths) ≡ suc (count q paths)
unfolding count
count-same p q paths e = if_pos (FilePath-discrete p q) e _ _

pub count-other :
    (p q : FilePath) (paths : List FilePath) → p ≢ q → count q (p ∷ paths) ≡ count q paths
unfolding count
count-other p q paths n = if_neg (FilePath-discrete p q) n _ _

pub count-contains :
    (p : FilePath) (paths : List FilePath) → contains p paths ≡ false → count p paths ≡ 0
unfolding contains count
count-contains p [] e = refl
count-contains p (q ∷ paths) e = elim (FilePath-discrete q p) [
  | yes same ↦
      absurd (differ (sym (if_pos (FilePath-discrete q p) same true (contains p paths)) ∙ e))
  | no other ↦
      count-other q p paths other
      ∙ count-contains p paths
          (sym (if_neg (FilePath-discrete q p) other true (contains p paths)) ∙ e)
]
  where
    differ : true ≡ false → ⊥
    differ e = cc e

count-removed : (p : FilePath) (paths : List FilePath) → count p (remove_path p paths) ≡ 0
unfolding remove_path count
count-removed p [] = refl
count-removed p (q ∷ paths) = elim (FilePath-discrete q p) [
  | yes same ↦
      ap (count p) (if_pos (FilePath-discrete q p) same (remove_path p paths) _)
      ∙ count-removed p paths
  | no other ↦
      ap (count p) (if_neg (FilePath-discrete q p) other (remove_path p paths) _)
      ∙ count-other q p (remove_path p paths) other
      ∙ count-removed p paths
]

count-remove_other :
    (p q : FilePath) (paths : List FilePath) → p ≢ q → count q (remove_path p paths) ≡ count q paths
unfolding remove_path count
count-remove_other p q [] n = refl
count-remove_other p q (r ∷ paths) n = elim (FilePath-discrete r p) [
  | yes same ↦
      ap (count q) (if_pos (FilePath-discrete r p) same (remove_path p paths) _)
      ∙ count-remove_other p q paths n
      ∙ sym (count-other r q paths (λ e. n (sym same ∙ e)))
  | no other ↦
      ap (count q) (if_neg (FilePath-discrete r p) other (remove_path p paths) _)
      ∙ (elim (FilePath-discrete r q) [
        | yes here ↦
            count-same r q (remove_path p paths) here
            ∙ ap suc (count-remove_other p q paths n)
            ∙ sym (count-same r q paths here)
        | no there ↦
            count-other r q (remove_path p paths) there
            ∙ count-remove_other p q paths n
            ∙ sym (count-other r q paths there)
      ])
]

-- The paths in progress are those of one thread and `k` others, and none is there twice.
abbrev pub Apart : (FilePath → ℕ) → List FilePath → List FilePath → Type 0
Apart k held paths = (q : FilePath) → (count q paths ≡ k q + count q held) × (count q paths ≤ 1)

pub Apart-insert :
    (k : FilePath → ℕ) (p : FilePath) (held paths : List FilePath)
    → contains p paths ≡ false
    → Apart k held paths
    → Apart k (p ∷ held) (p ∷ paths)
Apart-insert k p held paths free a q = elim (FilePath-discrete p q) [
  | yes e ↦
      let none = subst (λ r. count r paths ≡ 0) e (count-contains p paths free) in
      let (same, most) = a q in
      (
        omega (arith, count-same p q paths e, count-same p q held e, same),
        omega (arith, count-same p q paths e, none),
      )
  | no n ↦
      let (same, most) = a q in
      (
        omega (arith, count-other p q paths n, count-other p q held n, same),
        omega (arith, count-other p q paths n, most),
      )
]

pub Apart-remove :
    (k : FilePath → ℕ) (p : FilePath) (held paths : List FilePath)
    → Apart k (p ∷ held) paths
    → Apart k held (remove_path p paths)
Apart-remove k p held paths a q = elim (FilePath-discrete p q) [
  | yes e ↦
      let gone = subst (λ r. count r (remove_path p paths) ≡ 0) e (count-removed p paths) in
      let (same, most) = a q in
      (omega (arith, gone, same, most, count-same p q held e), omega (arith, gone))
  | no n ↦
      let (same, most) = a q in
      let kept = count-remove_other p q paths n in
      (omega (arith, kept, same, count-other p q held n), omega (arith, kept, most))
]
