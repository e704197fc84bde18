-- ===== src/Repository/Stands.antt =====
-- What it means that a name stands in a repository, and what keeps it standing.
use rdedup.Base.{◌≡◌, ◌≢◌, ◌∙◌, sym, subst, inl, inr, Bytes, Option, All, List, [], ◌∷◌, ◌++◌}
use rdedup.SgData.{ArcRefs, IsArcRef}
use rdedup.Encryption.{Decrypter}
use rdedup.Aio.{Backend, IsBackend, name_file}
use rdedup.Name.{Name, Yaml}
use rdedup.Name.Laws.{NameAt, NoName}
use rdedup.Reading.{data_chunk}
use rdedup.Reading.Decode.{Repo}
use rdedup.Repository.Rows.{Distinct, Distinct-before, All-In-map, starts}
use rdedup.Store.{IsRepo, In, Has, Tree, Tree-map}

module _ (R : ArcRefs) (L : IsArcRef R) (B : Backend R) (repo : Repo R) (P : IsRepo R repo)
    (K : IsBackend R B repo.layout) (decrypter : Option (Decrypter R)) (Y : Yaml) where
  -- Of the generations `gens`, newest first, one alone has the name; the chunks of its address are in
  -- that generation or in newer ones, and its content is `c`.
  pub record Stands (gens : List Bytes) (s : B.State) (name : Bytes) (n : Name) (c : Bytes)
      : Type 0 where
    pub newer : List Bytes
    pub gen : Bytes
    pub older : List Bytes
    pub split : gens ≡ newer ++ (gen ∷ older)
    pub here : NameAt R L B repo.layout K Y gen name n s
    pub only : (h : Bytes) → In h gens → h ≢ gen → NoName R L B repo.layout K Y name s h
    pub tree :
        Tree R B repo P K decrypter (newer ++ (gen ∷ [])) s n.index_level data_chunk n.digest c

  Has-wider :
      (s : B.State) (xs ys : List Bytes) (g digest : Bytes)
      → Has R B repo P K decrypter (xs ++ (g ∷ [])) s digest
      → Has R B repo P K decrypter (xs ++ (g ∷ ys)) s digest
  Has-wider s xs ys g digest (h, i, raw, e) = (h, wider xs i, raw, e)
    where
      wider : (xs : List Bytes) → In h (xs ++ (g ∷ [])) → In h (xs ++ (g ∷ ys))
      wider [] (inl e) = inl e
      wider [] (inr i) = absurd i
      wider (x ∷ xs) (inl e) = inl e
      wider (x ∷ xs) (inr i) = inr (wider xs i)

  -- The address of a name stands in the row of all generations.
  pub Stands-Tree :
      (gens : List Bytes) (s : B.State) (name : Bytes) (n : Name) (c : Bytes)
      → Stands gens s name n c
      → Tree R B repo P K decrypter gens s n.index_level data_chunk n.digest c
  Stands-Tree gens s name n c st =
      subst (λ gs. Tree R B repo P K decrypter gs s n.index_level data_chunk n.digest c)
        (sym st.split)
        (Tree-map R B repo P K decrypter (st.newer ++ (st.gen ∷ []))
          (st.newer ++ (st.gen ∷ st.older)) s s (Has-wider s st.newer st.older st.gen) n.index_level
          data_chunk n.digest c st.tree)

  -- The generations that are newer than that of a name do not have it.
  pub Stands-newer :
      (gens : List Bytes) (s : B.State) (name : Bytes) (n : Name) (c : Bytes)
      → Distinct gens
      → (st : Stands gens s name n c) → All (NoName R L B repo.layout K Y name s) st.newer
  Stands-newer gens s name n c d st =
      All-In-map (λ h (i, differ). st.only h (subst (In h) (sym st.split) i) differ) st.newer
        (Distinct-before st.gen st.newer st.older (subst Distinct st.split d))

  -- A name goes on standing where its files stay and no chunk of a row from the newest generation
  -- goes.
  pub Stands-kept :
      (cur : Bytes) (older : List Bytes) (s s' : B.State)
      → ((gens : List Bytes) (d : Bytes)
          → Has R B repo P K decrypter (cur ∷ gens) s d
          → Has R B repo P K decrypter (cur ∷ gens) s' d)
      → (name : Bytes) (n : Name) (c : Bytes)
      → ((g : Bytes) → K.file s' (name_file g name) ≡ K.file s (name_file g name))
      → Stands (cur ∷ older) s name n c
      → Stands (cur ∷ older) s' name n c
  Stands-kept cur older s s' has name n c files st =
      let (more, e) = starts cur st.gen older st.newer st.older st.split in
      let (raw, there, parsed) = st.here in
      record {
        newer = st.newer;
        gen = st.gen;
        older = st.older;
        split = st.split;
        here = (raw, files st.gen ∙ there, parsed);
        only = λ h i far. files h ∙ st.only h i far;
        tree =
            Tree-map R B repo P K decrypter (st.newer ++ (st.gen ∷ [])) (st.newer ++ (st.gen ∷ []))
              s s'
              (λ d at.
                subst (λ gs. Has R B repo P K decrypter gs s' d) (sym e)
                  (has more d (subst (λ gs. Has R B repo P K decrypter gs s d) e at)))
              n.index_level data_chunk n.digest c st.tree;
      }
