-- ===== src/Repository/Listing.antt =====
-- What the listings of lib/src/lib.rs and lib/src/name.rs depend on.
use rdedup.Base.{
  ◌≡◌, refl, ◌∙◌, ap, inl, inr, Bool, true, false, Bytes, Option, none, some, Option-cases, Result,
  ok, err, panics, stuck, List, [], ◌∷◌, if◌then◌else◌,
}
use rdedup.Io.{continue}
use rdedup.SgData.{ArcRefs}
use rdedup.Nesting.{FilePath}
use rdedup.Aio.{Backend, IsBackend, Layout, gen_config}
use rdedup.Generation
use rdedup.Generation.{Generation, Decoders, try_from}
use rdedup.Repository.{
  file_name, no_generation, if_live, if_parsed, if_named, gens_of, sorted, read_generations,
}

module _ (R : ArcRefs) (B : Backend R) (D : Decoders) where
  -- The generations that are read depend on the listing of the root and on which generations have a
  -- configuration.
  module _ (l : Layout) (K : IsBackend R B l) (s s' : B.State)
      (configs : (gen : Bytes) → K.file s' (gen_config gen) ≡ K.file s (gen_config gen)) where
    if_parsed-same :
        (r : Result Generation) (rest rest' : Result (List Generation))
        → rest' ≡ rest
        → if_parsed R B D s' r rest' ≡ if_parsed R B D s r rest
    unfolding if_parsed if_live
    if_parsed-same (ok gen) rest rest' e =
        elim (Option-cases (K.file s (gen_config (Generation.to_string gen)))) [
          | inl n ↦
              rw
                (
                  K.read_metadata-none s (gen_config (Generation.to_string gen)) n,
                  K.read_metadata-none s' (gen_config (Generation.to_string gen))
                      (configs (Generation.to_string gen) ∙ n),
                )
                e
          | inr (b, h) ↦
              let (m, run) = K.read_metadata-some s (gen_config (Generation.to_string gen)) b h in
              let (m', run') =
                K.read_metadata-some s' (gen_config (Generation.to_string gen)) b
                  (configs (Generation.to_string gen) ∙ h) in
              rw (run, run', e) refl
        ]
    if_parsed-same (err x) rest rest' e = e
    if_parsed-same panics rest rest' e = refl
    if_parsed-same stuck rest rest' e = refl

    if_named-same :
        (item : Option Bytes) (rest rest' : Result (List Generation))
        → rest' ≡ rest
        → if_named R B D s' item rest' ≡ if_named R B D s item rest
    unfolding if_named
    if_named-same none rest rest' e = e
    if_named-same (some item) rest rest' e = by_test (no_generation R B D item)
      where
        by_test :
            (b : Bool)
            → (if b then rest' else if_parsed R B D s' (try_from D item) rest')
              ≡ (if b then rest else if_parsed R B D s (try_from D item) rest)
        by_test true = e
        by_test false = if_parsed-same (try_from D item) rest rest' e

    gens_of-same : (paths : List FilePath) → gens_of R B D s' paths ≡ gens_of R B D s paths
    unfolding gens_of
    gens_of-same [] = refl
    gens_of-same (path ∷ paths) =
        if_named-same (file_name path) (gens_of R B D s paths) (gens_of R B D s' paths)
          (gens_of-same paths)

    pub read_generations-same :
        (gens : List Generation)
        → B.list [] s' ≡ B.list [] s
        → read_generations R B D s ≡ (ok gens, s)
        → read_generations R B D s' ≡ (ok gens, s')
    unfolding read_generations
    read_generations-same gens root e =
        rw root (of_root (B.list [] s))
        ∙ ap (λ (run : Result (List Generation) × B.State). (run.0, s')) e
      where
        of_root :
            (r : Result (List FilePath))
            → continue (r, s') (λ paths t. (sorted R B D (gens_of R B D t paths), t))
              ≡ ((continue (r, s) (λ paths t. (sorted R B D (gens_of R B D t paths), t))).0, s')
        of_root (ok paths) = ap (λ g. (sorted R B D g, s')) (gens_of-same paths)
        of_root (err x) = refl
        of_root panics = refl
        of_root stuck = refl
