-- ===== src/Store.antt =====
-- What a repository holds, seen through the files of its backend, and what keeps it: the vocabulary
-- in which the operations on chunks are specified.
pub mod Moves
pub mod Writes
use rdedup.Base.{
  ◌*◌, ℕ, zero, suc, ◌≤◌, ◌≡◌, ◌≢◌, refl, ◌∙◌, sym, ◌⊎◌, inl, inr, Bytes, length, Option, none,
  some, Result, ok, List, [], ◌∷◌, map, concat, All, ite, if_pos, if_neg,
}
use rdedup.SgData.{ArcRefs, SgData, bytes}
use rdedup.Encryption.{Encrypter, Decrypter}
use rdedup.Compression.{IsCompression}
use rdedup.Aio.{Backend, IsBackend, Key, Key-discrete, chunk, name_file, gen_config, put}
use rdedup.Reading.{DataType, index, data_chunk}
use rdedup.Reading.Decode.{Repo, decode}

-- The engines of a repository. `hash` is the digest of bytes; `Known` are the contents that occur, as
-- data or as an index, and no two of them, or of the two kinds, share a digest.
pub record IsRepo (R : ArcRefs) (repo : Repo R) : Type 1 where
  pub hash : Bytes → Bytes
  pub calculate_digest-eq : (sg : SgData R) → repo.calculate_digest sg ≡ ok (hash (bytes R sg))
  pub length-hash : (b : Bytes) → length (hash b) ≡ 32
  pub compression : IsCompression R repo.compression
  pub length-hex : (b : Bytes) → length (repo.layout.hex_encode b) ≡ 2 * length b
  pub levels-le : repo.layout.levels ≤ 32
  pub Known : DataType → Bytes → Type 0
  pub no_collision :
      (t u : DataType) (b c : Bytes) → Known t b → Known u c → hash b ≡ hash c → (t ≡ u) × (b ≡ c)

-- An encrypter and the decrypter of the same key.
pub record IsCipher (R : ArcRefs) {Seed : Type 0} (e : Encrypter R Seed) (d : Decrypter R)
    : Type 0 where
  pub decrypt-encrypt :
      (seed : Seed) (buf : SgData R) (digest : Bytes)
      → length digest ≡ 32
      → (z : SgData R) × (e.encrypt seed buf digest ≡ ok z)
        × ((z' : SgData R)
            → bytes R z' ≡ bytes R z
            → (b : SgData R) × (d.decrypt z' digest ≡ ok b) × (bytes R b ≡ bytes R buf))

-- One of the generations of a list.
abbrev pub In : Bytes → List Bytes → Type 0
In g [] = ⊥
In g (h ∷ hs) = (h ≡ g) ⊎ In g hs

pub put_self : (f : Key → Option Bytes) (k : Key) (v : Option Bytes) → put f k v k ≡ v
put_self f k v = if_pos (Key-discrete k k) refl v (f k)

pub put_ne :
    (f : Key → Option Bytes) (k : Key) (v : Option Bytes) (j : Key) → k ≢ j → put f k v j ≡ f j
put_ne f k v j h = if_neg (Key-discrete k j) h v (f j)

module _ (R : ArcRefs) (B : Backend R) (repo : Repo R) (P : IsRepo R repo)
    (K : IsBackend R B repo.layout) (decrypter : Option (Decrypter R)) where
  -- What is stored as `raw` under a digest reads as the content `c`, in whatever pieces it comes.
  abbrev pub Decodes : DataType → Bytes → Bytes → Bytes → Type 0
  Decodes t digest raw c =
      (sg : SgData R)
      → bytes R sg ≡ raw
      → (p : SgData R) × (decode R repo decrypter t sg digest ≡ ok p) × (bytes R p ≡ c)

  -- Every stored chunk is a known content under its digest.
  abbrev pub Good : B.State → Type 0
  Good s =
      (gen digest raw : Bytes)
      → K.file s (chunk gen digest) ≡ some raw
      → (t : DataType) × (c : Bytes) × P.Known t c × (P.hash c ≡ digest) × Decodes t digest raw c

  -- A chunk is stored in one of the generations.
  abbrev pub Has : List Bytes → B.State → Bytes → Type 0
  Has gens s digest =
      (gen : Bytes) × In gen gens × (raw : Bytes) × (K.file s (chunk gen digest) ≡ some raw)

  -- What an operation on chunks does to a repository with the newest generation `cur`: it stays good,
  -- no chunk goes, not from `cur` and not from any row of generations that `cur` heads, and names and
  -- generations stay as they are.
  pub record Keeps (cur : Bytes) (s s' : B.State) : Type 0 where
    pub good : Good s → Good s'
    pub has :
        (gens : List Bytes) (digest : Bytes)
        → Has (cur ∷ gens) s digest
        → Has (cur ∷ gens) s' digest
    pub names : (gen name : Bytes) → K.file s' (name_file gen name) ≡ K.file s (name_file gen name)
    pub configs : (gen : Bytes) → K.file s' (gen_config gen) ≡ K.file s (gen_config gen)

  pub Keeps-refl : (cur : Bytes) (s : B.State) → Keeps cur s s
  Keeps-refl cur s = record {
    good = λ g. g;
    has = λ gs d h. h;
    names = λ g n. refl;
    configs = λ g. refl;
  }

  pub Keeps-trans : (cur : Bytes) {s t u : B.State} → Keeps cur s t → Keeps cur t u → Keeps cur s u
  Keeps-trans cur a b = record {
    good = λ g. b.good (a.good g);
    has = λ gs d h. b.has gs d (a.has gs d h);
    names = λ g n. b.names g n ∙ a.names g n;
    configs = λ g. b.configs g ∙ a.configs g;
  }

  -- The content `c` of an address: a chunk of its type, or an index whose content names chunks that
  -- make up `c`.
  abbrev pub Leaf : List Bytes → B.State → DataType → Bytes → Bytes → Type 0
  Leaf gens s t digest c = P.Known t c × (P.hash c ≡ digest) × Has gens s digest

  abbrev pub Tree : List Bytes → B.State → ℕ → DataType → Bytes → Bytes → Type 0
  Tree gens s zero t digest c = Leaf gens s t digest c
  Tree gens s (suc level) t digest c =
      (cs : List Bytes) × (concat cs ≡ c)
      × All (λ b. Leaf gens s t (P.hash b) b) cs
      × Tree gens s level index digest (concat (map P.hash cs))

  -- A content that stands in one state and row of generations stands in another that has its chunks.
  module _ (gens gens' : List Bytes) (s s' : B.State)
      (f : (digest : Bytes) → Has gens s digest → Has gens' s' digest) where
    pub All-Leaf-map :
        (t : DataType) (cs : List Bytes)
        → All (λ b. Leaf gens s t (P.hash b) b) cs
        → All (λ b. Leaf gens' s' t (P.hash b) b) cs
    All-Leaf-map t [] a = tt
    All-Leaf-map t (c ∷ cs) ((known, e, h), a) = ((known, e, f (P.hash c) h), All-Leaf-map t cs a)

    pub Tree-map :
        (level : ℕ) (t : DataType) (digest c : Bytes)
        → Tree gens s level t digest c
        → Tree gens' s' level t digest c
    Tree-map zero t digest c (known, e, h) = (known, e, f digest h)
    Tree-map (suc level) t digest c (cs, e, a, h) =
        (cs, e, All-Leaf-map t cs a, Tree-map level index digest (concat (map P.hash cs)) h)
