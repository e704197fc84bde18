-- ===== src/Writing/Address.antt =====
-- lib/src/lib.rs: `chunk_and_write_data_thread` over all levels.
use mathlib.Core.List.{reverse}
use native.Mathlib.Nat.{pow-suc}
use rdedup.Base.{
  ℕ, zero, suc, ◌+◌, ◌-◌, ◌*◌, ◌^◌, ◌≤◌, ◌<◌, ◌≡◌, ◌≢◌, refl, ◌∙◌, sym, ap, subst, Bytes, length,
  length-append, concat, map, All, some, Result, ok, List, [], ◌∷◌, append-nil, arith, add_u32-eq,
}
use rdedup.SgData.{ArcRefs, IsArcRef, SgData, bytes}
use rdedup.Encryption.{Encrypter, Decrypter}
use rdedup.Chunking.{Chunking, IsChunking, all_chunks}
use rdedup.Chunking
use rdedup.Aio.{Backend, IsBackend}
use rdedup.Name.{Name}
use rdedup.Io.{Io}
use rdedup.Reading.{DataType, index}
use rdedup.Reading.Decode.{Repo}
use rdedup.Store.{IsRepo, IsCipher, Leaf, Tree, Keeps, Keeps-trans}
use rdedup.Writing.{Pool, raise_level, address_of, chunk_and_write_data}
use rdedup.Writing.Level.{IsPool, Held, write_level_lem}

pow-le : (n d : ℕ) → 2 ^ n ≤ 2 ^ (n + d)
pow-le n zero = subst (λ m. 2 ^ n ≤ 2 ^ m) (zero_lem n) (omega arith)
  where
    zero_lem : (n : ℕ) → n ≡ n + 0
    zero_lem n = omega arith
pow-le n (suc d) =
    let step : suc (n + d) ≡ n + suc d = omega arith in
    subst (λ m. 2 ^ n ≤ 2 ^ m) step (omega (arith, pow-le n d, pow-suc 2 (n + d)))

small : (n : ℕ) → suc n < 58 → 64 * 2 ^ suc n + 1 < 2 ^ 64
small n h =
    let top : suc n + (57 - suc n) ≡ 57 = omega (arith, h) in
    let most : 2 ^ suc n ≤ 2 ^ 57 =
      subst (λ m. 2 ^ suc n ≤ 2 ^ m) top (pow-le (suc n) (57 - suc n)) in
    omega (arith, most)

module _ (R : ArcRefs) (L : IsArcRef R) (B : Backend R) (C : Chunking) (KC : IsChunking C)
    (repo : Repo R) (P : IsRepo R repo) (K : IsBackend R B repo.layout) (engine : C.Engine)
    {Seed : Type 0} (e : Encrypter R Seed) (d : Decrypter R) (KE : IsCipher R e d)
    (pool : Pool R Seed) (KP : IsPool R pool) (gen_strings : List Bytes) (cur : Bytes)
    (older : List Bytes) (newest : reverse gen_strings ≡ cur ∷ older) where
  abbrev pub hash_of : SgData R → Bytes
  hash_of sg = P.hash (bytes R sg)

  -- The contents of the chunks of all levels are known ones.
  abbrev pub KnownLevels : ℕ → List Bytes → DataType → Type 0
  KnownLevels zero input t = Unit
  KnownLevels (suc fuel) input t =
      (sgs : List (SgData R))
      → all_chunks R C (length (concat input) + 2) (Chunking.new R C input engine) ≡ ok sgs
      → All (λ sg. P.Known t (bytes R sg)) sgs
        × ((2 ≤ length sgs) → KnownLevels fuel (map hash_of sgs) index)

  abbrev Stands : B.State → DataType → Bytes → Type 0
  Stands s t c = Leaf R B repo P K (some d) (cur ∷ []) s t (P.hash c) c

  leaves :
      (t : DataType) (s s' : B.State)
      → Keeps R B repo P K (some d) cur s s'
      → (sgs : List (SgData R)) → All (λ sg. P.Known t (bytes R sg)) sgs
      → All (Held R L B C KC repo P K engine e d KE pool KP gen_strings cur older newest s) sgs
      → All (Stands s' t) (map (bytes R) sgs)
  leaves t s s' k [] known held = tt
  leaves t s s' k (sg ∷ sgs) known held =
      ((known.0, refl, k.has [] (hash_of sg) held.0), leaves t s s' k sgs known.1 held.1)

  digests-eq : (sgs : List (SgData R)) → map hash_of sgs ≡ map P.hash (map (bytes R) sgs)
  digests-eq [] = refl
  digests-eq (sg ∷ sgs) = ap (λ l. hash_of sg ∷ l) (digests-eq sgs)

  length-digests : (sgs : List (SgData R)) → length (concat (map hash_of sgs)) ≡ 32 * length sgs
  length-digests [] = refl
  length-digests (sg ∷ sgs) = omega (
    arith,
    length-append (hash_of sg) (concat (map hash_of sgs)),
    P.length-hash (bytes R sg),
    length-digests sgs,
  )

  -- The call gives an address that has the input as its content in the state after it.
  abbrev pub Addressed : ℕ → List Bytes → DataType → B.State → Result Name × B.State → Type 0
  Addressed n input t s run =
      (address : Name) × (s' : B.State) × (run ≡ (ok address, s'))
      × Keeps R B repo P K (some d) cur s s'
      × Tree R B repo P K (some d) (cur ∷ []) s' address.index_level t address.digest (concat input)
      × (address.index_level ≤ n)

  after_level :
      (n : ℕ) (input : List Bytes) (t : DataType) (s s₁ : B.State) (sgs : List (SgData R))
      → concat (map (bytes R) sgs) ≡ concat input
      → sgs ≢ []
      → Keeps R B repo P K (some d) cur s s₁
      → All (Held R L B C KC repo P K engine e d KE pool KP gen_strings cur older newest s₁) sgs
      → All (λ sg. P.Known t (bytes R sg)) sgs
      → (write_index : List Bytes → Io B.State Name)
      → ((2 ≤ length sgs)
          → (k : ℕ) × (n ≡ suc k)
            × Addressed k (map hash_of sgs) index s₁ (write_index (map hash_of sgs) s₁))
      → n < 58
      → Addressed n input t s
          (address_of R B C repo engine e pool gen_strings (map hash_of sgs) write_index s₁)
  unfolding address_of raise_level
  after_level n input t s s₁ [] same some_chunk k held known write_index next low =
      absurd (some_chunk refl)
  after_level n input t s s₁ (sg ∷ []) same some_chunk k held known write_index next low = (
    record { digest = hash_of sg; index_level = 0 },
    s₁,
    refl,
    k,
    subst (λ c. Tree R B repo P K (some d) (cur ∷ []) s₁ 0 t (hash_of sg) c)
        (sym (append-nil (bytes R sg)) ∙ same) (known.0, refl, held.0),
    omega arith,
  )
  after_level n input t s s₁ (sg ∷ sg' ∷ sgs) same some_chunk k held known write_index next low =
      let all = sg ∷ sg' ∷ sgs in
      let (m, en, (address, s₂, run, k₂, tree, le)) = next (omega arith) in
      let up = add_u32-eq address.index_level 1 (omega (arith, le, low, en)) in
      (
        record address { index_level = suc address.index_level },
        s₂,
        rw run (ap (λ l. (ok (record address { index_level = l }), s₂)) (up ∙ omega arith)),
        Keeps-trans R B repo P K (some d) cur k k₂,
        (
          map (bytes R) all,
          same,
          leaves t s₁ s₂ k₂ all known held,
          subst
              (λ l.
                Tree R B repo P K (some d) (cur ∷ []) s₂ address.index_level index address.digest
                  (concat l))
              (digests-eq all) tree,
        ),
        omega (arith, le, en),
      )

  -- Data of at most 64 * 2^n bytes, `n` below 58, are written in at most n + 1 levels: the levels
  -- come to an end without an error, the repository keeps what it had, and the address that comes
  -- out has the data as its content, all in the newest generation, over at most `n` levels of index. The contents of the chunks of
  -- all levels are known ones.
  pub chunk_and_write_data-Tree :
      (n : ℕ) (input : List Bytes) (t : DataType) (s : B.State)
      → length (concat input) ≤ 64 * 2 ^ n
      → n < 58
      → KnownLevels (suc n) input t
      → Addressed n input t s
          (chunk_and_write_data R B C repo engine e pool gen_strings (suc n) input t s)
  unfolding chunk_and_write_data
  chunk_and_write_data-Tree zero input t s fits low known =
      let (sgs, s₁, run, same, some_chunk, sized, k, held, cut, few) =
        write_level_lem R L B C KC repo P K engine e d KE pool KP gen_strings cur older newest 0 t
          input s (omega (arith, fits)) (λ sgs cut. (known sgs cut).0) in
      rw run (
        after_level zero input t s s₁ sgs same some_chunk k held (known sgs cut).0 _
          (λ two. absurd (omega (arith, two, few, fits))) low)
  chunk_and_write_data-Tree (suc n) input t s fits low known =
      let (sgs, s₁, run, same, some_chunk, sized, k, held, cut, few) =
        write_level_lem R L B C KC repo P K engine e d KE pool KP gen_strings cur older newest
          (suc n) t input s (omega (arith, fits, small n low)) (λ sgs cut. (known sgs cut).0) in
      rw run (
        after_level (suc n) input t s s₁ sgs same some_chunk k held (known sgs cut).0 _
          (λ two. (
            n,
            refl,
            chunk_and_write_data-Tree n (map hash_of sgs) index s₁
                (omega (arith, length-digests sgs, two, few, fits, pow-suc 2 n))
                (omega (arith, low)) ((known sgs cut).1 two),
          ))
          low)
