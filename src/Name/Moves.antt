-- ===== src/Name/Moves.antt =====
-- `Name::update_generation_to`: a name moves to the current generation.
use mathlib.Core.List.{reverse}
use rdedup.Base.{
  ◌≡◌, ◌≢◌, refl, ◌∙◌, ap, Bytes, Bytes-discrete, Option, none, some, All, ok, List, [], ◌∷◌, ◌++◌,
  ite, if_pos, if_neg,
}
use rdedup.Io.{Io}
use rdedup.SgData.{ArcRefs}
use rdedup.Aio.{Backend, IsBackend, Layout, Key, Key-discrete, name_file, put}
use rdedup.Name.{first_of_gens, rename_to, update_generation_to}
use rdedup.Name.Laws.{first_of_gens-next, first_of_gens-found}

put-cong :
    (f g : Key → Option Bytes) (k : Key) (v : Option Bytes) (j : Key)
    → f j ≡ g j
    → put f k v j ≡ put g k v j
put-cong f g k v j e = ap (ite (Key-discrete k j) v) e

module _ (R : ArcRefs) (B : Backend R) (l : Layout) (K : IsBackend R B l) (name cur : Bytes) where
  rename_walk :
      (gen : Bytes) (raw : Bytes) (newer older : List Bytes) (s : B.State)
      → gen ≢ cur
      → All (λ h. K.file s (name_file h name) ≡ none) newer
      → K.file s (name_file gen name) ≡ some raw
      → (s' : B.State) × (first_of_gens R B (rename_to R B name cur) (newer ++ (gen ∷ older)) s
          ≡ (ok tt, s'))
        × ((i : Key)
            → K.file s' i
              ≡ put (put (K.file s) (name_file gen name) none) (name_file cur name) (some raw) i)
  unfolding rename_to
  rename_walk gen raw [] older s differ absent there =
      let (s', run, moved) = K.rename-some s (name_file gen name) (name_file cur name) raw there in
      (
        s',
        first_of_gens-found R B (rename_to R B name cur) gen older s s' tt (
            ap (λ (f : Io B.State (Unit {0})). f s) (if_neg (Bytes-discrete gen cur) differ _ _)
            ∙ run),
        moved,
      )
  rename_walk gen raw (h ∷ newer) older s differ absent there = elim (Bytes-discrete h cur) [
    | yes same ↦
        let (s', run, moved) = rename_walk gen raw newer older s differ absent.1 there in
        (
          s',
          first_of_gens-next R B (rename_to R B name cur) h (newer ++ (gen ∷ older)) s s
                (ap (λ (f : Io B.State (Unit {0})). f s) (if_pos (Bytes-discrete h cur) same _ _))
              ∙ run,
          moved,
        )
    | no other ↦
        let (s₁, failed, kept) = K.rename-none s (name_file h name) (name_file cur name) absent.0 in
        let (s', run, moved) =
          rename_walk gen raw newer older s₁ differ (All-kept s₁ s kept newer absent.1)
            (kept (name_file gen name) ∙ there) in
        (
          s',
          first_of_gens-next R B (rename_to R B name cur) h (newer ++ (gen ∷ older)) s s₁ (
                ap (λ (f : Io B.State (Unit {0})). f s) (if_neg (Bytes-discrete h cur) other _ _)
                ∙ failed)
              ∙ run,
          λ i.
              moved i
              ∙ put-cong (put (K.file s₁) (name_file gen name) none)
                  (put (K.file s) (name_file gen name) none) (name_file cur name) (some raw) i
                  (put-cong (K.file s₁) (K.file s) (name_file gen name) none i (kept i)),
        )
  ]
    where
      All-kept :
          (s₁ s : B.State)
          → ((i : Key) → K.file s₁ i ≡ K.file s i)
          → (hs : List Bytes) → All (λ h. K.file s (name_file h name) ≡ none) hs
          → All (λ h. K.file s₁ (name_file h name) ≡ none) hs
      All-kept s₁ s kept [] a = tt
      All-kept s₁ s kept (h ∷ hs) a = (kept (name_file h name) ∙ a.0, All-kept s₁ s kept hs a.1)

  -- The newest generation but the current one that has the name gives its file to the current one,
  -- whatever that had under the name; no other file changes.
  pub update_generation_to-moves :
      (gen raw : Bytes) (gen_strings newer older : List Bytes) (s : B.State)
      → reverse gen_strings ≡ cur ∷ (newer ++ (gen ∷ older))
      → gen ≢ cur
      → All (λ h. K.file s (name_file h name) ≡ none) newer
      → K.file s (name_file gen name) ≡ some raw
      → (s' : B.State) × (update_generation_to R B name cur gen_strings s ≡ (ok tt, s'))
        × ((i : Key)
            → K.file s' i
              ≡ put (put (K.file s) (name_file gen name) none) (name_file cur name) (some raw) i)
  unfolding update_generation_to rename_to
  update_generation_to-moves gen raw gen_strings newer older s e differ absent there =
      let (s', run, moved) = rename_walk gen raw newer older s differ absent there in
      (
        s',
        rw e (
            first_of_gens-next R B (rename_to R B name cur) cur (newer ++ (gen ∷ older)) s s
              (ap (λ (f : Io B.State (Unit {0})). f s) (if_pos (Bytes-discrete cur cur) refl _ _))
            ∙ run),
        moved,
      )
