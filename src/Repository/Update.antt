-- ===== src/Repository/Update.antt =====
-- `Repo::update_name_to` of lib/src/lib.rs: the collection moves a name and its chunks.
use mathlib.Core.List.{reverse}
use rdedup.Base.{
  ◌≡◌, ◌≢◌, refl, ◌∙◌, sym, ap, subst, Bytes, Bytes-discrete, Option, none, some, All, ok, List, [],
  ◌∷◌, ◌++◌,
}
use rdedup.SgData.{ArcRefs, IsArcRef}
use rdedup.Encryption.{Decrypter}
use rdedup.Aio.{Backend, IsBackend, Key, chunk, name_file, gen_config, put}
use rdedup.Generation.{Decoders}
use rdedup.Name.{Name, Yaml}
use rdedup.Name.Laws.{NoName, load_from_any-eq}
use rdedup.Name.Moves.{update_generation_to-moves}
use rdedup.Reading.{data_chunk}
use rdedup.Reading.Decode.{Repo}
use rdedup.Reading.Update.{read_recursively-update}
use rdedup.Repository.{update_name_to, traverse}
use rdedup.Repository.Stands.{Stands, Stands-Tree, Stands-newer, Stands-kept}
use rdedup.Repository.Rows.{Distinct, All-In-map, starts_other}
use rdedup.Store.{IsRepo, Good, Has, Keeps, Tree-map, put_self, put_ne}

module _ (R : ArcRefs) (L : IsArcRef R) (B : Backend R) (D : Decoders) (repo : Repo R)
    (P : IsRepo R repo) (K : IsBackend R B repo.layout) (decrypter : Option (Decrypter R))
    (Y : Yaml) (gen_strings : List Bytes) (cur : Bytes) (older : List Bytes)
    (newest : reverse gen_strings ≡ cur ∷ older) (distinct : Distinct (cur ∷ older)) where
  abbrev Live : B.State → Bytes → Name → Bytes → Type 0
  Live s name n c = Stands R L B repo P K decrypter Y (cur ∷ older) s name n c

  -- The move of a name's file, after a traversal that keeps the repository.
  module _ (s s₁ s' : B.State) (keeps : Keeps R B repo P K decrypter cur s s₁)
      (name gen raw : Bytes)
      (moved : (i : Key)
        → K.file s' i
          ≡ put (put (K.file s₁) (name_file gen name) none) (name_file cur name) (some raw) i) where
    elsewhere :
        (i : Key) → name_file cur name ≢ i → name_file gen name ≢ i → K.file s' i ≡ K.file s₁ i
    elsewhere i a b =
        moved i
        ∙ put_ne (put (K.file s₁) (name_file gen name) none) (name_file cur name) (some raw) i a
        ∙ put_ne (K.file s₁) (name_file gen name) none i b

    same_chunk : (g d : Bytes) → K.file s' (chunk g d) ≡ K.file s₁ (chunk g d)
    same_chunk g d = elsewhere (chunk g d) (λ e. cc e) (λ e. cc e)

    same_name :
        (g other : Bytes)
        → other ≢ name
        → K.file s' (name_file g other) ≡ K.file s (name_file g other)
    same_name g other differ =
        elsewhere (name_file g other) (λ e. differ (cc e)) (λ e. differ (cc e))
        ∙ keeps.names g other

    kept-Good : Good R B repo P K decrypter s → Good R B repo P K decrypter s'
    kept-Good good g d r e = keeps.good good g d r (sym (same_chunk g d) ∙ e)

    kept-Has :
        (gens : List Bytes) (d : Bytes)
        → Has R B repo P K decrypter gens s₁ d
        → Has R B repo P K decrypter gens s' d
    kept-Has gens d (g, i, r, e) = (g, i, r, same_chunk g d ∙ e)

    kept-Live :
        (other : Bytes) (m : Name) (b : Bytes) → other ≢ name → Live s other m b → Live s' other m b
    kept-Live other m b differ st =
        Stands-kept R L B repo P K decrypter Y cur older s s'
          (λ gens d has. kept-Has (cur ∷ gens) d (keeps.has gens d has)) other m b
          (λ g. same_name g other differ) st

  moved_file :
      (f : Key → Option Bytes) (name gen raw h : Bytes)
      → h ≢ cur
      → (h ≢ gen → f (name_file h name) ≡ none)
      → put (put f (name_file gen name) none) (name_file cur name) (some raw) (name_file h name)
        ≡ none
  moved_file f name gen raw h differ absent =
      put_ne (put f (name_file gen name) none) (name_file cur name) (some raw) (name_file h name)
        (λ e. differ (cc e))
      ∙ (elim (Bytes-discrete h gen) [
        | yes same ↦
            subst (λ g. put f (name_file g name) none (name_file h name) ≡ none) same
              (put_self f (name_file h name) none)
        | no other ↦
            put_ne f (name_file gen name) none (name_file h name) (λ e. other (cc e)) ∙ absent other
      ])

  -- A name that stands in an older generation, moved by the collection in a good repository: the
  -- operation ends without an error, and after it the name stands in the newest generation with the
  -- same content, all its chunks in that generation, and in no other; every other name that stands
  -- in the repository still stands with its content, the repository is good, and the
  -- configurations of the generations and the files of all other names are as they were.
  pub update_name_to-keeps :
      (s : B.State) (name : Bytes) (n : Name) (c : Bytes)
      → Good R B repo P K decrypter s
      → (st : Live s name n c) → st.gen ≢ cur
      → (s' : B.State) × (update_name_to R B D repo Y name cur gen_strings s ≡ (ok tt, s'))
        × ((st' : Live s' name n c) × (st'.gen ≡ cur))
        × ((other : Bytes) (m : Name) (b : Bytes)
            → other ≢ name
            → Live s other m b
            → Live s' other m b)
        × Good R B repo P K decrypter s'
        × ((gen : Bytes) → K.file s' (gen_config gen) ≡ K.file s (gen_config gen))
        × ((gen other : Bytes)
            → other ≢ name
            → K.file s' (name_file gen other) ≡ K.file s (name_file gen other))
  unfolding update_name_to traverse
  update_name_to-keeps s name n c good st differ =
      let (raw, there, parsed) = st.here in
      let absent = Stands-newer R L B repo P K decrypter Y (cur ∷ older) s name n c distinct st in
      let loaded =
        load_from_any-eq R L B repo.layout K Y name st.gen n gen_strings st.newer st.older s
          (newest ∙ st.split) absent st.here in
      let (s₁, traversed, keeps, tree) =
        read_recursively-update R B repo P K decrypter gen_strings cur older newest n.index_level
          n.digest c s good (Stands-Tree R L B repo P K decrypter Y (cur ∷ older) s name n c st) in
      let (more, first) = starts_other cur st.gen older st.newer st.older st.split differ in
      let (s', renamed, moved) =
        update_generation_to-moves R B repo.layout K name cur st.gen raw gen_strings more st.older
          s₁ (newest ∙ st.split ∙ ap (λ xs. xs ++ (st.gen ∷ st.older)) first) differ
          (All-In-map {Q = NoName R L B repo.layout K Y name s} (λ h e. keeps.names h name ∙ e) more
            (subst (All (NoName R L B repo.layout K Y name s)) first absent).1)
          (keeps.names st.gen name ∙ there) in
      (
        s',
        rw (loaded, traversed, renamed) refl,
        (
          record {
            newer = [];
            gen = cur;
            older = older;
            split = refl;
            here = (
              raw,
              moved (name_file cur name)
                  ∙ put_self (put (K.file s₁) (name_file st.gen name) none) (name_file cur name)
                      (some raw),
              parsed,
            );
            only = λ h i far.
                moved (name_file h name)
                ∙ moved_file (K.file s₁) name st.gen raw h far
                    (λ apart. keeps.names h name ∙ st.only h i apart);
            tree =
                Tree-map R B repo P K decrypter (cur ∷ []) (cur ∷ []) s₁ s'
                  (kept-Has s s₁ s' keeps name st.gen raw moved (cur ∷ [])) n.index_level data_chunk
                  n.digest c tree;
          },
          refl,
        ),
        kept-Live s s₁ s' keeps name st.gen raw moved,
        kept-Good s s₁ s' keeps name st.gen raw moved good,
        λ g.
            elsewhere s s₁ s' keeps name st.gen raw moved (gen_config g) (λ e. cc e) (λ e. cc e)
            ∙ keeps.configs g,
        same_name s s₁ s' keeps name st.gen raw moved,
      )
