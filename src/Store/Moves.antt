-- ===== src/Store/Moves.antt =====
-- Finding a chunk in the generations, and moving it to the newest one.
use mathlib.Core.Option.{some-ne-none}
use rdedup.Base.{
  ◌≡◌, ◌≢◌, refl, ◌∙◌, sym, ap, inl, inr, Bytes, Bytes-discrete, length, Option, none, some,
  Option-cases, Result, ok, err, not_found, List, [], ◌∷◌, subst, if_pos, if_neg,
}
use rdedup.SgData.{ArcRefs}
use rdedup.Encryption.{Decrypter}
use rdedup.Nesting.{FilePath, chunk_path, get_path-eq}
use rdedup.Aio.{Backend, IsBackend, Key, Key-discrete, chunk, name_file, gen_config, put}
use rdedup.Reading.Decode.{Repo}
use rdedup.Reading.Accessors.{chunk_rel_path_by_digest, found_or, find_in_gens, move_to_cur}
use rdedup.Store.{IsRepo, In, put_self, put_ne, Good, Keeps, Keeps-refl}

module _ (R : ArcRefs) (B : Backend R) (repo : Repo R) (P : IsRepo R repo)
    (K : IsBackend R B repo.layout) where
  abbrev pub path_of : Bytes → Bytes → FilePath
  path_of gen digest = chunk_path repo.layout.hex_encode repo.layout.levels gen digest

  pub chunk_rel_path-eq :
      (digest gen : Bytes)
      → length digest ≡ 32
      → chunk_rel_path_by_digest repo.layout digest gen ≡ ok (path_of gen digest)
  unfolding chunk_rel_path_by_digest
  chunk_rel_path-eq digest gen h =
      get_path-eq repo.layout.hex_encode repo.layout.levels gen digest P.length-hex h P.levels-le

  -- What a look at the chunk's file in a generation tells.
  abbrev pub Looks : {A : Type 0} → (Bytes → A → Type 0) → Result A → Option Bytes → Type 0
  Looks {A} Q r (some raw) = (a : A) × (r ≡ ok a) × Q raw a
  Looks Q r none = r ≡ err not_found

  module _ (s : B.State) (digest : Bytes) (size : length digest ≡ 32) where
    -- The search finds the newest generation that has the chunk.
    pub find_in_gens_lem :
        {A : Type 0} (look : FilePath → B.State → Result A) (Q : Bytes → A → Type 0)
        → ((gen : Bytes) → Looks Q (look (path_of gen digest) s) (K.file s (chunk gen digest)))
        → (gens : List Bytes) → (gen : Bytes) → In gen gens
        → K.file s (chunk gen digest) ≢ none
        → (g : Bytes) × (raw : Bytes) × (a : A) × In g gens
          × (K.file s (chunk g digest) ≡ some raw)
          × Q raw a
          × (find_in_gens R B repo look digest gens s ≡ (ok (some (a, g)), s))
    unfolding find_in_gens found_or
    find_in_gens_lem look Q looks [] gen here there = absurd here
    find_in_gens_lem look Q looks (g ∷ gens) gen here there =
        elim (Option-cases (K.file s (chunk g digest))) [
          | inl e ↦
              let missing = subst (Looks Q (look (path_of g digest) s)) e (looks g) in
              let later : In gen gens = elim here [
                | inl same ↦ absurd (there (subst (λ h. K.file s (chunk h digest) ≡ none) same e))
                | inr later ↦ later
              ] in
              let (g', raw, a, in', e', q, run) =
                find_in_gens_lem look Q looks gens gen later there in
              (
                g',
                raw,
                a,
                inr in',
                e',
                q,
                rw (chunk_rel_path-eq digest g size, missing, found_or) run,
              )
          | inr (raw, e) ↦
              let (a, found, q) = subst (Looks Q (look (path_of g digest) s)) e (looks g) in
              (
                g,
                raw,
                a,
                inl refl,
                e,
                q,
                rw (chunk_rel_path-eq digest g size, found, found_or) refl,
              )
        ]

  -- Moving a chunk to the newest generation keeps the repository.
  module _ (decrypter : Option (Decrypter R)) (cur : Bytes) (gens : List Bytes) (s s' : B.State)
      (digest gen raw : Bytes) (there : K.file s (chunk gen digest) ≡ some raw)
      (moved : (k : Key)
        → K.file s' k
          ≡ put (put (K.file s) (chunk gen digest) none) (chunk cur digest) (some raw) k) where
    pub at_cur : K.file s' (chunk cur digest) ≡ some raw
    at_cur =
        moved (chunk cur digest)
        ∙ put_self (put (K.file s) (chunk gen digest) none) (chunk cur digest) (some raw)

    elsewhere :
        (k : Key) → (chunk cur digest ≢ k) → (chunk gen digest ≢ k) → K.file s' k ≡ K.file s k
    elsewhere k a b =
        moved k
        ∙ put_ne (put (K.file s) (chunk gen digest) none) (chunk cur digest) (some raw) k a
        ∙ put_ne (K.file s) (chunk gen digest) none k b

    other_digest : (g d : Bytes) → digest ≢ d → K.file s' (chunk g d) ≡ K.file s (chunk g d)
    other_digest g d n = elsewhere (chunk g d) (λ e. n (cc e)) (λ e. n (cc e))

    moved-Good : Good R B repo P K decrypter s → Good R B repo P K decrypter s'
    moved-Good good g d r e = elim (Key-discrete (chunk cur digest) (chunk g d)) [
      | yes same ↦ good gen d r (
          subst (λ x. K.file s (chunk gen x) ≡ some raw) (cc same) there
          ∙ sym at_cur
          ∙ ap (K.file s') same
          ∙ e)
      | no other ↦ elim (Key-discrete (chunk gen digest) (chunk g d)) [
        | yes old ↦ absurd (
            some-ne-none r (
              sym e
              ∙ moved (chunk g d)
              ∙ put_ne (put (K.file s) (chunk gen digest) none) (chunk cur digest) (some raw)
                  (chunk g d) other
              ∙ subst (λ k. put (K.file s) (chunk gen digest) none k ≡ none) old
                  (put_self (K.file s) (chunk gen digest) none)))
        | no unmoved ↦ good g d r (sym (elsewhere (chunk g d) other unmoved) ∙ e)
      ]
    ]

    pub moved-Keeps : Keeps R B repo P K decrypter cur s s'
    moved-Keeps = record {
      good = moved-Good;
      has = λ gens d (g, in', r, e). elim (Bytes-discrete digest d) [
        | yes same ↦
            (cur, inl refl, raw, subst (λ x. K.file s' (chunk cur x) ≡ some raw) same at_cur)
        | no differ ↦ (g, in', r, other_digest g d differ ∙ e)
      ];
      names = λ g n. elsewhere (name_file g n) (λ e. cc e) (λ e. cc e);
      configs = λ g. elsewhere (gen_config g) (λ e. cc e) (λ e. cc e);
    }

  module _ (decrypter : Option (Decrypter R)) (cur : Bytes) (gens : List Bytes) where
    pub move_to_cur_lem :
        (s : B.State) (digest gen raw : Bytes)
        → length digest ≡ 32
        → K.file s (chunk gen digest) ≡ some raw
        → (s' : B.State) × (move_to_cur R B repo digest cur gen s ≡ (ok tt, s'))
          × Keeps R B repo P K decrypter cur s s'
          × (K.file s' (chunk cur digest) ≡ some raw)
    unfolding move_to_cur
    move_to_cur_lem s digest gen raw size there = elim (Bytes-discrete cur gen) [
      | yes same ↦ (
        s,
        if_pos (Bytes-discrete cur gen) same (ok tt, s) _,
        Keeps-refl R B repo P K decrypter cur s,
        rw same there,
      )
      | no differ ↦
          let (s', run, moved) = K.rename-some s (chunk gen digest) (chunk cur digest) raw there in
          (
            s',
            if_neg (Bytes-discrete cur gen) differ (ok tt, s) _
                ∙ rw (chunk_rel_path-eq digest gen size, chunk_rel_path-eq digest cur size, run)
                    refl,
            moved-Keeps decrypter cur gens s s' digest gen raw there moved,
            at_cur decrypter cur gens s s' digest gen raw there moved,
          )
    ]
