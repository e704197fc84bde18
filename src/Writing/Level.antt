-- ===== src/Writing/Level.antt =====
-- lib/src/lib.rs: one level of `chunk_and_write_data_thread`.
use rdedup.Base.{
  ◌⊎◌, inl, inr, ℕ, suc, ◌+◌, ◌*◌, ◌^◌, ◌≤◌, ◌<◌, ◌≡◌, refl, ap, subst, ◌≢◌, Bytes, length,
  length-append, length-map, concat, map, All, some, ok, List, [], ◌∷◌, add_u64, arith,
}
use mathlib.Core.List.{reverse, Permᴰ}
use mathlib.Core.List.Permᴰ as Perms
use rdedup.SgData.{ArcRefs, IsArcRef, SgData, bytes}
use rdedup.Encryption.{Encrypter, Decrypter}
use rdedup.Chunking.{Chunking, IsChunking, all_chunks}
use rdedup.Chunking
use rdedup.Chunking.Stream.{all_chunks-new, contents, Sized, IsNonempty}
use rdedup.Sorting.{enumerate, drain}
use rdedup.Sorting
use rdedup.Sorting.Order.{drain-enumerate}
use rdedup.Aio.{Backend, IsBackend}
use rdedup.Reading.{DataType}
use rdedup.Reading.Decode.{Repo}
use rdedup.Processing.Encode.{Message}
use rdedup.Processing.Stores.{process-Has}
use rdedup.Store.{IsRepo, IsCipher, Has, Keeps, Keeps-refl, Keeps-trans}
use rdedup.Writing.{Pool, messages, process_all, write_level}

All-Permᴰ {ℓ κ} : {A : Type ℓ} (Q : A → Type κ) {xs ys : List A} → Permᴰ xs ys → All Q xs → All Q ys
All-Permᴰ Q Permᴰ.nil a = tt
All-Permᴰ Q (Permᴰ.cons e p) a = (subst Q e a.0, All-Permᴰ Q p a.1)
All-Permᴰ Q (Permᴰ.swap e f) a = (subst Q f a.1.0, (subst Q e a.0, a.1.1))
All-Permᴰ Q (Permᴰ.trans p q) a = All-Permᴰ Q q (All-Permᴰ Q p a)

-- What the pool is relied on for: each message is handled once.
abbrev pub IsPool : (R : ArcRefs) {Seed : Type 0} → Pool R Seed → Type 0
IsPool R {Seed} pool = (level : ℕ) (ms : List (Message R Seed)) → Permᴰ ms (pool.order level ms)

Sized-length :
    (R : ArcRefs) (sgs : List (SgData R))
    → Sized R sgs
    → 64 * length sgs ≤ length (contents R sgs) + 64
Sized-length R [] z = omega arith
Sized-length R (sg ∷ []) z = omega arith
Sized-length R (sg ∷ sg' ∷ sgs) z = omega (
  arith,
  z.0,
  Sized-length R (sg' ∷ sgs) z.1,
  length-append (bytes R sg) (contents R (sg' ∷ sgs)),
)

-- If none is empty, the last one has a byte too.
Sized-Nonempty :
    (R : ArcRefs) (sgs : List (SgData R))
    → Sized R sgs
    → All (IsNonempty R) sgs
    → 64 * length sgs ≤ length (contents R sgs) + 63
Sized-Nonempty R [] z a = omega arith
Sized-Nonempty R (sg ∷ []) z a = omega (arith, a.0, length-append (bytes R sg) [])
Sized-Nonempty R (sg ∷ sg' ∷ sgs) z a = omega (
  arith,
  z.0,
  Sized-Nonempty R (sg' ∷ sgs) z.1 a.1,
  length-append (bytes R sg) (contents R (sg' ∷ sgs)),
)

-- The number of chunks of a stream of that size.
abbrev pub Few : ℕ → ℕ → Type 0
Few chunks size = (64 * chunks ≤ size + 63) ⊎ (chunks ≤ 1)

pub Sized-Few :
    (R : ArcRefs) (sgs : List (SgData R)) (stream : Bytes)
    → contents R sgs ≡ stream
    → Sized R sgs
    → All (IsNonempty R) sgs ⊎ (stream ≡ [])
    → Few (length sgs) (length stream)
Sized-Few R sgs stream e z (inl a) = inl (omega (arith, Sized-Nonempty R sgs z a, ap length e))
Sized-Few R sgs stream e z (inr nil) =
    inr (omega (arith, Sized-length R sgs z, ap length e, ap length nil))

module _ (R : ArcRefs) (L : IsArcRef R) (B : Backend R) (C : Chunking) (KC : IsChunking C)
    (repo : Repo R) (P : IsRepo R repo) (K : IsBackend R B repo.layout) (engine : C.Engine)
    {Seed : Type 0} (e : Encrypter R Seed) (d : Decrypter R) (KE : IsCipher R e d)
    (pool : Pool R Seed) (KP : IsPool R pool) (gen_strings : List Bytes) (cur : Bytes)
    (older : List Bytes) (newest : reverse gen_strings ≡ cur ∷ older) where
  abbrev pub digest_of : SgData R → Bytes
  digest_of sg = P.hash (bytes R sg)

  abbrev pub Held : B.State → SgData R → Type 0
  Held s sg = Has R B repo P K (some d) (cur ∷ []) s (digest_of sg)

  abbrev pub IsKnown : DataType → SgData R → Type 0
  IsKnown t sg = P.Known t (bytes R sg)

  answer : Message R Seed → ℕ × Bytes
  answer m = (m.id, digest_of m.sg)

  All-Held-mono :
      {s s' : B.State}
      → Keeps R B repo P K (some d) cur s s'
      → (ms : List (Message R Seed)) → All (λ m. Held s m.sg) ms
      → All (λ m. Held s' m.sg) ms
  All-Held-mono k [] a = tt
  All-Held-mono k (m ∷ ms) a = (k.has [] (digest_of m.sg) a.0, All-Held-mono k ms a.1)

  process_all_lem :
      (ms : List (Message R Seed)) (s : B.State)
      → All (λ m. IsKnown m.data_type m.sg) ms
      → (s' : B.State) × (process_all R B C repo engine e pool gen_strings ms s
          ≡ (ok (map answer ms), s'))
        × Keeps R B repo P K (some d) cur s s'
        × All (λ m. Held s' m.sg) ms
  unfolding process_all answer
  process_all_lem [] s a = (s, refl, Keeps-refl R B repo P K (some d) cur s, tt)
  process_all_lem (m ∷ ms) s a =
      let (s₁, run₁, k₁, has₁) =
        process-Has R B repo P K e d KE cur older gen_strings newest s m a.0 in
      let (s₂, run₂, k₂, has₂) = process_all_lem ms s₁ a.1 in
      (
        s₂,
        rw (run₁, run₂) refl,
        Keeps-trans R B repo P K (some d) cur k₁ k₂,
        (k₂.has [] (digest_of m.sg) has₁, has₂),
      )

  module _ (level : ℕ) (t : DataType) where
    abbrev sent : ℕ → List (SgData R) → List (Message R Seed)
    sent n sgs = messages R B C repo engine e pool gen_strings level t (enumerate n sgs)

    sent-answer :
        (n : ℕ) (sgs : List (SgData R)) → map answer (sent n sgs) ≡ enumerate n (map digest_of sgs)
    unfolding messages enumerate answer
    sent-answer n [] = refl
    sent-answer n (sg ∷ sgs) = ap (λ l. (n, digest_of sg) ∷ l) (sent-answer (add_u64 n 1) sgs)

    sent-IsKnown :
        (n : ℕ) (sgs : List (SgData R))
        → All (IsKnown t) sgs
        → All (λ m. IsKnown m.data_type m.sg) (sent n sgs)
    unfolding messages enumerate
    sent-IsKnown n [] a = tt
    sent-IsKnown n (sg ∷ sgs) a = (a.0, sent-IsKnown (add_u64 n 1) sgs a.1)

    sent-Held :
        (n : ℕ) (sgs : List (SgData R)) (s : B.State)
        → All (λ m. Held s m.sg) (sent n sgs)
        → All (Held s) sgs
    unfolding messages enumerate
    sent-Held n [] s a = tt
    sent-Held n (sg ∷ sgs) s a = (a.0, sent-Held (add_u64 n 1) sgs s a.1)

    sorted_lem :
        (sgs : List (SgData R)) (ms : List (Message R Seed))
        → Permᴰ (sent 0 sgs) ms
        → length sgs < 2 ^ 64
        → drain (suc (length sgs)) (Sorting.new (map answer ms)) ≡ ok (map digest_of sgs)
    sorted_lem sgs ms perm few =
        subst (λ n. drain (suc n) (Sorting.new (map answer ms)) ≡ ok (map digest_of sgs))
          (length-map digest_of sgs)
          (drain-enumerate (map digest_of sgs) (map answer ms)
            (subst (λ l. Permᴰ l (map answer ms)) (sent-answer 0 sgs) (Perms.map answer perm))
            (omega (arith, few, length-map digest_of sgs)))

    pub write_level_lem :
        (input : List Bytes) (s : B.State)
        → length (concat input) + 1 < 2 ^ 64
        → ((sgs : List (SgData R))
            → all_chunks R C (length (concat input) + 2) (Chunking.new R C input engine) ≡ ok sgs
            → All (IsKnown t) sgs)
        → (sgs : List (SgData R)) × (s' : B.State) × (write_level R B C repo engine e pool
              gen_strings level input t s
            ≡ (ok (map digest_of sgs), s'))
          × (contents R sgs ≡ concat input)
          × (sgs ≢ [])
          × Sized R sgs
          × Keeps R B repo P K (some d) cur s s'
          × All (Held s') sgs
          × (all_chunks R C (length (concat input) + 2) (Chunking.new R C input engine) ≡ ok sgs)
          × Few (length sgs) (length (concat input))
    unfolding write_level
    write_level_lem input s b known =
        let (sgs, cut, same, sized, some_chunk, full) = all_chunks-new R L C KC input engine b in
        let perm = KP level (sent 0 sgs) in
        let (s', run, k, has) =
          process_all_lem (pool.order level (sent 0 sgs)) s
            (All-Permᴰ (λ m. IsKnown m.data_type m.sg) perm (sent-IsKnown 0 sgs (known sgs cut))) in
        let few : length sgs < 2 ^ 64 =
          omega (arith, b, Sized-length R sgs sized, ap length same) in
        let sorted : drain (suc (length sgs))
              (Sorting.new (map answer (pool.order level (sent 0 sgs))))
            ≡ ok (map digest_of sgs) =
          sorted_lem sgs (pool.order level (sent 0 sgs)) perm few in
        (
          sgs,
          s',
          rw (cut, run, sorted) refl,
          same,
          some_chunk,
          sized,
          k,
          sent-Held 0 sgs s' (All-Permᴰ (λ m. Held s' m.sg) (Perms.symm perm) has),
          cut,
          Sized-Few R sgs (concat input) same sized full,
        )

    -- One level of writing: the input, of fewer than 2^64 - 1 bytes, is cut into chunks that make it
    -- up, whatever order the pool handles them in their digests come out in the order of the chunks,
    -- and the repository keeps what it had and then has every chunk in its newest generation. The contents of all chunks are
    -- known ones.
    pub write_level-Has :
        (input : List Bytes) (s : B.State)
        → length (concat input) + 1 < 2 ^ 64
        → ((sgs : List (SgData R))
            → all_chunks R C (length (concat input) + 2) (Chunking.new R C input engine) ≡ ok sgs
            → All (IsKnown t) sgs)
        → (sgs : List (SgData R)) × (s' : B.State) × (write_level R B C repo engine e pool
              gen_strings level input t s
            ≡ (ok (map digest_of sgs), s'))
          × (contents R sgs ≡ concat input)
          × (sgs ≢ [])
          × Sized R sgs
          × Keeps R B repo P K (some d) cur s s'
          × All (Held s') sgs
    write_level-Has input s b known =
        let (sgs, s', run, same, some_chunk, sized, k, held, rest, few) =
          write_level_lem input s b known in
        (sgs, s', run, same, some_chunk, sized, k, held)
