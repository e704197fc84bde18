-- ===== src/Repository/Stored.antt =====
-- `Repo::write` of lib/src/lib.rs, and what it stores read back by `Repo::read`.
use mathlib.Core.List.{reverse}
use rdedup.Base.{
  ℕ, zero, suc, ◌*◌, ◌^◌, ◌≤◌, ◌≡◌, ◌≢◌, ◌∙◌, sym, ap, inl, inr, Bytes, length, concat, some, ok,
  List, [], ◌∷◌, ◌++◌, arith,
}
use rdedup.Io.{Io, pure, ◌>>=◌, ◌>>◌}
use rdedup.SgData.{ArcRefs, IsArcRef}
use rdedup.Encryption.{Encrypter, Decrypter}
use rdedup.Chunking.{Chunking, IsChunking}
use rdedup.Aio.{Backend, IsBackend, chunk, name_file}
use rdedup.Generation
use rdedup.Generation.{Generation, Decoders, gen_first}
use rdedup.Name.{Name, Yaml}
use rdedup.Name.Laws.{NoName, IsYaml, load_from_any-write_as}
use rdedup.Reading.{DataType, data_chunk}
use rdedup.Reading.Decode.{Repo}
use rdedup.Reading.Stream.{sink}
use rdedup.Reading.Recursion.{read_recursively-sink}
use rdedup.Store.{IsRepo, IsCipher, Good, Has, Tree, Tree-map, put_ne}
use rdedup.Writing.{Pool, write_as_name}
use rdedup.Writing.Level.{IsPool}
use rdedup.Writing.Address.{KnownLevels, chunk_and_write_data-Tree}
use rdedup.Repository.{Clock, read_generations, strings, write_generation, read_name}
use rdedup.Repository.Stands.{Stands, Stands-kept}

module _ (R : ArcRefs) (B : Backend R) (D : Decoders) (T : Clock) (C : Chunking) (repo : Repo R)
    (engine : C.Engine) {Seed : Type 0} (encrypter : Encrypter R Seed) (pool : Pool R Seed)
    (Y : Yaml) where
  -- The first write to a repository begins its first generation, with the random number `rand`.
  or_first : ℕ → T.Time → List Generation → Io B.State (List Generation)
  unfolding write_generation
  or_first rand created [] = do
    write_generation R B D T created (Generation.to_string (gen_first rand))
    pure (gen_first rand ∷ [])
  or_first rand created (gen ∷ gens) = pure (gen ∷ gens)

  unfoldable pub write : ℕ → T.Time → Bytes → List Bytes → Io B.State (Unit {0})
  unfolding or_first read_generations
  write rand created name_str input = do
    found ← read_generations R B D
    gens ← or_first rand created found
    write_as_name R B C repo engine encrypter pool (strings R B D gens) Y name_str input

module _ (R : ArcRefs) (L : IsArcRef R) (B : Backend R) (C : Chunking) (KC : IsChunking C)
    (repo : Repo R) (P : IsRepo R repo) (K : IsBackend R B repo.layout) (engine : C.Engine)
    {Seed : Type 0} (e : Encrypter R Seed) (d : Decrypter R) (KE : IsCipher R e d)
    (pool : Pool R Seed) (KP : IsPool R pool) (D : Decoders) (Y : Yaml) (KY : IsYaml Y)
    (gen_strings : List Bytes) (cur : Bytes) (older : List Bytes)
    (newest : reverse gen_strings ≡ cur ∷ older) where
  abbrev Live : B.State → Bytes → Name → Bytes → Type 0
  Live s name n c = Stands R L B repo P K (some d) Y (cur ∷ older) s name n c

  Tree-length :
      (gens : List Bytes) (s : B.State) (level : ℕ) (t : DataType) (digest c : Bytes)
      → Tree R B repo P K (some d) gens s level t digest c
      → length digest ≡ 32
  Tree-length gens s zero t digest c (known, h, there) = ap length (sym h) ∙ P.length-hash c
  Tree-length gens s (suc level) t digest c (cs, ec, leaves, tree) =
      Tree-length gens s level _ digest _ tree

  -- Data of at most 64 * 2^57 bytes, written under a name that the newest generation of a good
  -- repository does not have: the write ends without an error, and in the state after it reading
  -- the name gives the reader exactly the data, and ends without an error. The repository is good
  -- again, and every other name that stands in it still stands with its content. The contents of
  -- the chunks of all levels are known ones.
  pub write_as_name-read_name :
      (name : Bytes) (input : List Bytes) (s : B.State)
      → Good R B repo P K (some d) s
      → length (concat input) ≤ 64 * 2 ^ 57
      → KnownLevels R L B C KC repo P K engine e d KE pool KP gen_strings cur older newest 58 input
          data_chunk
      → NoName R L B repo.layout K Y name s cur
      → (s' : B.State) × (write_as_name R B C repo engine e pool gen_strings Y name input s
          ≡ (ok tt, s'))
        × ((x : Bytes)
            → (s'' : B.State) × (read_name R B D repo Y d gen_strings name sink (s', x)
                ≡ (ok tt, (s'', x ++ concat input))))
        × Good R B repo P K (some d) s'
        × ((other : Bytes) (m : Name) (b : Bytes)
            → other ≢ name
            → Live s other m b
            → Live s' other m b)
  unfolding write_as_name read_name
  write_as_name-read_name name input s good fits known absent =
      let (n, s₁, stored, keeps, tree, le) =
        chunk_and_write_data-Tree R L B C KC repo P K engine e d KE pool KP gen_strings cur older
          newest 57 input data_chunk s fits (omega arith) known in
      let (s', named, files, loaded) =
        load_from_any-write_as R L B repo.layout K Y KY n name cur gen_strings older s₁ newest
          (Tree-length (cur ∷ []) s₁ n.index_level data_chunk n.digest (concat input) tree)
          (keeps.names cur name ∙ absent) in
      let same_chunk : (g h : Bytes) → K.file s' (chunk g h) ≡ K.file s₁ (chunk g h) = λ g h.
        files (chunk g h) ∙ put_ne (K.file s₁) (name_file cur name) _ (chunk g h) (λ q. cc q) in
      let has' : (gens : List Bytes) (h : Bytes)
          → Has R B repo P K (some d) gens s₁ h
          → Has R B repo P K (some d) gens s' h =
        λ gens h (g, i, raw, there). (g, i, raw, same_chunk g h ∙ there) in
      let good' : Good R B repo P K (some d) s' =
        λ g h raw there. keeps.good good g h raw (sym (same_chunk g h) ∙ there) in
      let wide =
        Tree-map R B repo P K (some d) (cur ∷ []) (cur ∷ older) s₁ s'
          (λ h has. has' (cur ∷ older) h (wider h has)) n.index_level data_chunk n.digest
          (concat input) tree in
      (
        s',
        rw (stored, newest) named,
        λ x.
            let (s'', run, k, tree'') =
              read_recursively-sink R B repo P K (some d) gen_strings cur older newest n.index_level
                data_chunk n.digest (concat input) s' x good' wide in
            (s'', rw loaded run),
        good',
        λ other m b differ st.
            Stands-kept R L B repo P K (some d) Y cur older s s'
              (λ gens h has. has' (cur ∷ gens) h (keeps.has gens h has)) other m b
              (λ g.
                files (name_file g other)
                ∙ put_ne (K.file s₁) (name_file cur name) _ (name_file g other) (λ q. differ (cc q))
                ∙ keeps.names g other)
              st,
      )
    where
      wider :
          {t : B.State} (h : Bytes)
          → Has R B repo P K (some d) (cur ∷ []) t h
          → Has R B repo P K (some d) (cur ∷ older) t h
      wider h (g, inl same, raw, there) = (g, inl same, raw, there)
      wider h (g, inr i, raw, there) = absurd i
