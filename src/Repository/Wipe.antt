-- ===== src/Repository/Wipe.antt =====
-- `Repo::wipe_generation_maybe` of lib/src/lib.rs: what the deletion of a generation leaves.
use rdedup.Base.{
  Bool-cases, Option-cases, ℕ, ◌≡◌, ◌≢◌, refl, ◌∙◌, sym, subst, ◌⊎◌, inl, inr, Bool, true, false,
  Bytes, Option, none, some, Result, ok, err, panics, stuck, not_found, already_exists,
  invalid_data, invalid_input, connection_aborted, other, List, [], ◌∷◌, ◌++◌, ok_or, if◌then◌else◌,
}
use mathlib.Core.Option.{some-ne-none}
use rdedup.Io.{Io, continue, attempted}
use rdedup.SgData
use rdedup.SgData.{ArcRefs, IsArcRef, SgData}
use rdedup.SgData.Laws.{to_linear_vec-eq-bytes}
use rdedup.Encryption.{Decrypter}
use rdedup.Nesting.{FilePath, data_subdir}
use rdedup.Aio.{
  Backend, IsBackend, Layout, Key, gen_config, name_file, chunk, config_path, name_subdir,
}
use rdedup.Generation.{Decoders}
use rdedup.Name.{Name, Yaml}
use rdedup.Reading.{data_chunk}
use rdedup.Reading.Decode.{Repo}
use rdedup.Repository.{
  Clock, load_config, remove_dir, delete_generation, wipe_loaded, wipe_generation_maybe,
}
use rdedup.Repository.Stands.{Stands}
use rdedup.Repository.Rows.{Distinct, Distinct-before, All-at, drop_last, In-prefix, In-front}
use rdedup.Store.{IsRepo, In, Good, Tree-map}

abbrev pub gen_of : Key → Bytes
gen_of (gen_config g) = g
gen_of (name_file g name) = g
gen_of (chunk g digest) = g

-- What the program relies on in `remove_dir_all`, whatever it returns: files go only, and only those
-- below the directory.
pub record IsDirs (R : ArcRefs) (B : Backend R) (l : Layout) (K : IsBackend R B l) : Type 0 where
  pub removes :
      (gen : Bytes) (rest : FilePath) (s : B.State) (k : Key)
      → let s' = (B.remove_dir_all (gen ∷ rest) s).1 in
        (K.file s' k ≡ K.file s k) ⊎ ((gen_of k ≡ gen) × (K.file s' k ≡ none))

module _ (R : ArcRefs) (L : IsArcRef R) (B : Backend R) (D : Decoders) (T : Clock) (l : Layout)
    (K : IsBackend R B l) (KD : IsDirs R B l K) where
  abbrev Removes : Bytes → B.State → B.State → Type 0
  Removes gen s s' =
      (k : Key) → (K.file s' k ≡ K.file s k) ⊎ ((gen_of k ≡ gen) × (K.file s' k ≡ none))

  Removes-trans :
      (gen : Bytes) (s t u : B.State) → Removes gen s t → Removes gen t u → Removes gen s u
  Removes-trans gen s t u f g k = elim (g k) [
    | inl e ↦ elim (f k) [ inl e' ↦ inl (e ∙ e') | inr (here, gone) ↦ inr (here, e ∙ gone) ]
    | inr gone ↦ inr gone
  ]

  continue-Removes :
      (gen : Bytes) (s : B.State) (run : Result (Unit {0}) × B.State)
      (f : Unit {0} → Io B.State (Unit {0}))
      → Removes gen s run.1
      → ((u : Unit {0}) (t : B.State) → Removes gen t (f u t).1)
      → Removes gen s (continue run f).1
  continue-Removes gen s (ok u, t) f first next = Removes-trans gen s t (f u t).1 first (next u t)
  continue-Removes gen s (err e, t) f first next = first
  continue-Removes gen s (panics, t) f first next = first
  continue-Removes gen s (stuck, t) f first next = first

  delete_generation-Removes :
      (gen : Bytes) (s : B.State) → Removes gen s (delete_generation R B D T gen s).1
  unfolding delete_generation remove_dir
  delete_generation-Removes gen s =
      let dir : (rest : FilePath) (t : B.State)
          → Removes gen t (remove_dir R B D T (gen ∷ rest) t).1 =
        λ rest t. KD.removes gen rest t in
      continue-Removes gen s (remove_dir R B D T (gen ∷ name_subdir ∷ []) s)
        (λ _ t.
          continue (remove_dir R B D T (gen ∷ data_subdir ∷ []) t)
            (λ _. B.remove_dir_all (gen ∷ [])))
        (dir (name_subdir ∷ []) s)
        (λ _ t.
          continue-Removes gen t (remove_dir R B D T (gen ∷ data_subdir ∷ []) t)
            (λ _. B.remove_dir_all (gen ∷ [])) (dir (data_subdir ∷ []) t)
            (λ _ u. KD.removes gen [] u))

  loaded-Removes :
      (gen : Bytes) (min_age_secs : ℕ) (now : T.Time) (r : Result T.Time) (s : B.State)
      → Removes gen s (wipe_loaded R B D T gen min_age_secs now r s).1
  unfolding wipe_loaded
  loaded-Removes gen min_age_secs now (ok created) s = by_age (T.too_young created min_age_secs now)
    where
      by_age :
          (young : Bool)
          → Removes gen s
              ((if young then (λ (s : B.State). (ok tt, s)) else delete_generation R B D T gen) s).1
      by_age true = λ k. inl refl
      by_age false = delete_generation-Removes gen s
  loaded-Removes gen min_age_secs now (err not_found) s = λ k. inl refl
  loaded-Removes gen min_age_secs now (err already_exists) s = λ k. inl refl
  loaded-Removes gen min_age_secs now (err invalid_data) s = λ k. inl refl
  loaded-Removes gen min_age_secs now (err invalid_input) s = λ k. inl refl
  loaded-Removes gen min_age_secs now (err connection_aborted) s = λ k. inl refl
  loaded-Removes gen min_age_secs now (err other) s = λ k. inl refl
  loaded-Removes gen min_age_secs now panics s = λ k. inl refl
  loaded-Removes gen min_age_secs now stuck s = λ k. inl refl

  -- Loading a configuration changes nothing.
  load_config-state :
      (gen : Bytes) (s : B.State) → (r : Result T.Time) × (load_config R B D T gen s ≡ (r, s))
  unfolding load_config
  load_config-state gen s = go (B.read (config_path gen) s) refl
    where
      go :
          (found : Result (SgData R))
          → B.read (config_path gen) s ≡ found
          → (r : Result T.Time) × (load_config R B D T gen s ≡ (r, s))
      go (ok sg) e = (ok_or invalid_data (T.from_reader (SgData.to_linear_vec R sg)), rw e refl)
      go (err x) e = (err x, rw e refl)
      go panics e = (panics, rw e refl)
      go stuck e = (stuck, rw e refl)

  after_load :
      (gen : Bytes) (min_age_secs : ℕ) (now : T.Time) (r : Result T.Time) (s : B.State)
      → Removes gen s (continue (attempted (r, s)) (wipe_loaded R B D T gen min_age_secs now)).1
  after_load gen min_age_secs now (ok created) s =
      loaded-Removes gen min_age_secs now (ok created) s
  after_load gen min_age_secs now (err e) s = loaded-Removes gen min_age_secs now (err e) s
  after_load gen min_age_secs now panics s = λ k. inl refl
  after_load gen min_age_secs now stuck s = λ k. inl refl

  wipe-Removes :
      (gen : Bytes) (min_age_secs : ℕ) (now : T.Time) (s : B.State)
      → Removes gen s (wipe_generation_maybe R B D T gen min_age_secs now s).1
  unfolding wipe_generation_maybe
  wipe-Removes gen min_age_secs now s =
      let (r, same) = load_config-state gen s in rw same (after_load gen min_age_secs now r s)

  -- The configuration that is stored for a generation gives a time, and by that it is old enough.
  abbrev pub IsOld : Bytes → ℕ → T.Time → B.State → Type 0
  IsOld gen min_age_secs now s =
      (raw : Bytes) × (created : T.Time) × (K.file s (gen_config gen) ≡ some raw)
      × (T.from_reader raw ≡ some created)
      × (T.too_young created min_age_secs now ≡ false)

  wipe_loaded-IsOld :
      (gen raw : Bytes) (min_age_secs : ℕ) (now : T.Time) (s : B.State)
      → K.file s (gen_config gen) ≡ some raw
      → (o : Option T.Time) → T.from_reader raw ≡ o
      → ((continue
            (attempted (ok_or invalid_data o, s))
            (wipe_loaded R B D T gen min_age_secs now)).1
          ≡ s)
        ⊎ IsOld gen min_age_secs now s
  unfolding wipe_loaded
  wipe_loaded-IsOld gen raw min_age_secs now s there none parsed = inl refl
  wipe_loaded-IsOld gen raw min_age_secs now s there (some created) parsed =
      elim (Bool-cases (T.too_young created min_age_secs now)) [
        | inl young ↦ inl (rw young refl)
        | inr old ↦ inr (raw, created, there, parsed, old)
      ]

  -- Only a generation that is old enough is touched: whatever the configuration that is stored for
  -- the generation, none and a damaged one included, and however the run ends, nothing at all is
  -- changed unless the configuration gives a time by which the generation is not too young.
  pub wipe_generation_maybe-IsOld :
      (gen : Bytes) (min_age_secs : ℕ) (now : T.Time) (s : B.State)
      → ((wipe_generation_maybe R B D T gen min_age_secs now s).1 ≡ s)
        ⊎ IsOld gen min_age_secs now s
  unfolding wipe_generation_maybe load_config wipe_loaded
  wipe_generation_maybe-IsOld gen min_age_secs now s =
      elim (Option-cases (K.file s (gen_config gen))) [
        | inl missing ↦ inl (rw (K.read-none s (gen_config gen) missing) refl)
        | inr (raw, there) ↦
            let (sg, run, same, whole) = K.read-some s (gen_config gen) raw there in
            rw (run, to_linear_vec-eq-bytes R L sg whole ∙ same)
              (wipe_loaded-IsOld gen raw min_age_secs now s there (T.from_reader raw) refl)
      ]

module _ (R : ArcRefs) (L : IsArcRef R) (B : Backend R) (D : Decoders) (T : Clock) (repo : Repo R)
    (P : IsRepo R repo) (K : IsBackend R B repo.layout) (KD : IsDirs R B repo.layout K)
    (decrypter : Option (Decrypter R)) (Y : Yaml) where
  module _ (oldest : Bytes) (min_age_secs : ℕ) (now : T.Time) (s : B.State) where
    abbrev wiped : B.State
    wiped = (wipe_generation_maybe R B D T oldest min_age_secs now s).1

    gone : Removes R L B D T repo.layout K KD oldest s wiped
    gone = wipe-Removes R L B D T repo.layout K KD oldest min_age_secs now s

    kept : (k : Key) → gen_of k ≢ oldest → K.file wiped k ≡ K.file s k
    kept k far = elim (gone k) [ inl same ↦ same | inr (here, none') ↦ absurd (far here) ]

  apart :
      (oldest : Bytes) (front : List Bytes)
      → Distinct (front ++ (oldest ∷ []))
      → (g : Bytes) → In g front
      → g ≢ oldest
  apart oldest front distinct g i =
      (All-at (λ h. In h (front ++ (oldest ∷ [])) × (h ≢ oldest)) g front
        (Distinct-before oldest front [] distinct) i).1

  -- A generation's deletion, whether it ends, is refused for the age, or breaks off with an error at
  -- any point of it: a name that stands in another generation still stands, with its content, in
  -- what is left of the generations, and a good repository is good after it. The generation is the
  -- last of the list, newest first, in which no generation is twice.
  pub wipe_generation_maybe-keeps :
      (oldest : Bytes) (front : List Bytes) (min_age_secs : ℕ) (now : T.Time) (s : B.State)
      → Distinct (front ++ (oldest ∷ []))
      → let s' = (wipe_generation_maybe R B D T oldest min_age_secs now s).1 in
        (Good R B repo P K decrypter s → Good R B repo P K decrypter s')
        × ((name : Bytes) (n : Name) (c : Bytes)
            → (st : Stands R L B repo P K decrypter Y (front ++ (oldest ∷ [])) s name n c)
            → st.gen ≢ oldest
            → Stands R L B repo P K decrypter Y front s' name n c)
  wipe_generation_maybe-keeps oldest front min_age_secs now s distinct = (
    λ good g d r e. elim (gone oldest min_age_secs now s (chunk g d)) [
      | inl same ↦ good g d r (sym same ∙ e)
      | inr (here, none') ↦ absurd (some-ne-none r (sym e ∙ none'))
    ],
    λ name n c st differ.
        let (rest, cut) = drop_last st.gen oldest st.newer st.older front (sym st.split) differ in
        let (raw, there, parsed) = st.here in
        record {
          newer = st.newer;
          gen = st.gen;
          older = rest;
          split = cut;
          here = (
            raw,
            kept oldest min_age_secs now s (name_file st.gen name) (λ e. differ e) ∙ there,
            parsed,
          );
          only = λ h i far. elim (gone oldest min_age_secs now s (name_file h name)) [
            | inl same ↦ same ∙ st.only h (In-front h oldest front i) far
            | inr (here, none') ↦ none'
          ];
          tree =
              Tree-map R B repo P K decrypter (st.newer ++ (st.gen ∷ []))
                (st.newer ++ (st.gen ∷ [])) s (wiped oldest min_age_secs now s)
                (λ d (g, i, r, e). (
                  g,
                  i,
                  r,
                  kept oldest min_age_secs now s (chunk g d) (
                        apart oldest front distinct g
                          (subst (In g) (sym cut) (In-prefix g st.gen st.newer rest i)))
                      ∙ e,
                ))
                n.index_level data_chunk n.digest c st.tree;
        },
  )
