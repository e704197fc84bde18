-- ===== src/Reading/Recursion.antt =====
-- `read_recursively` of lib/src/reading.rs: an address is read back to its content.
use mathlib.Core.List.{reverse, map-append}
use rdedup.Base.{
  ℕ, zero, suc, ◌<◌, ◌≡◌, refl, ◌∙◌, sym, ap, subst, Bytes, length, length-append, append-nil,
  concat, concat-append, map, All, Option, some, Result, ok, List, [], ◌∷◌, ◌++◌, arith,
}
use rdedup.SgData.{ArcRefs}
use rdedup.Encryption.{Decrypter}
use rdedup.Aio.{Backend, IsBackend}
use rdedup.Reading.{DataType, index, Writer, ChunkAccessor, translate, read_recursively, on_data}
use rdedup.Reading.Decode.{Repo}
use rdedup.Reading.Accessors.{default_read, default_accessor}
use rdedup.Reading.Stream.{sink, sink-Accepts}
use rdedup.Reading.Visits.{Cur, IsMono, Visits, writer-Visits}
use rdedup.Reading.Tree.{append-cancel, Translated, Translated-IsMono, translate-Accepts}
use rdedup.Store.{IsRepo, Good, Keeps, Keeps-refl, Leaf, Tree}

module _ (R : ArcRefs) (B : Backend R) (repo : Repo R) (P : IsRepo R repo)
    (K : IsBackend R B repo.layout) (decrypter : Option (Decrypter R)) (gen_strings : List Bytes)
    (cur : Bytes) (older : List Bytes) (newest : reverse gen_strings ≡ cur ∷ older) where
  -- When all digests were given, all chunks were dealt with.
  all_done :
      (cs done todo : List Bytes) (buf : Bytes)
      → done ++ todo ≡ cs
      → concat (map P.hash done) ++ buf ≡ concat (map P.hash cs)
      → length buf < 32
      → done ≡ cs
  all_done cs done [] buf e eb lt = sym (append-nil done) ∙ e
  all_done cs done (c ∷ todo) buf e eb lt =
      let left : concat (map P.hash done) ++ buf
          ≡ concat (map P.hash done) ++ concat (map P.hash (c ∷ todo)) =
        eb
        ∙ ap (λ l. concat (map P.hash l)) (sym e)
        ∙ ap concat (map-append P.hash done (c ∷ todo))
        ∙ concat-append (map P.hash done) (map P.hash (c ∷ todo)) in
      let same =
        ap length
          (append-cancel (concat (map P.hash done)) buf (concat (map P.hash (c ∷ todo))) left) in
      absurd (
        omega
          (arith, lt, same, P.length-hash c, length-append (P.hash c) (concat (map P.hash todo))))

  module _ (s₀ : B.State) (good : Good R B repo P K decrypter s₀) (A : ChunkAccessor B.State)
      (reads : (X : Type 0) (w : Writer B.State X) (digest : Bytes)
        → A.read_chunk_into w digest index
          ≡ default_read R B repo decrypter gen_strings w digest index) where
    moved_leaves :
        (t : DataType) (s : B.State) (cs : List Bytes)
        → All (λ c. Leaf R B repo P K decrypter (cur ∷ older) s₀ t (P.hash c) c) cs
        → All (Cur R B repo P K decrypter gen_strings cur older newest s₀ s) cs
        → All (λ c. Leaf R B repo P K decrypter (cur ∷ []) s t (P.hash c) c) cs
    moved_leaves t s [] leaves here = tt
    moved_leaves t s (c ∷ cs) ((known, h, there), leaves) (at_cur, here) =
        ((known, h, at_cur), moved_leaves t s cs leaves here)

    -- After an address every chunk of its content was dealt with, and the address stands in the
    -- newest generation alone.
    abbrev pub Visited :
        {X : Type 0}
        → ℕ
        → DataType
        → Bytes
        → Bytes
        → (B.State → X → List Bytes → Type 0)
        → B.State
        → Result (Unit {0}) × (B.State × X)
        → Type 0
    Visited {X} level t digest c Out s run =
        (s' : B.State) × (x' : X) × (run ≡ (ok tt, (s', x')))
        × Keeps R B repo P K decrypter cur s s'
        × Tree R B repo P K decrypter (cur ∷ []) s' level t digest c
        × ((cs : List Bytes) × (concat cs ≡ c) × Out s' x' cs)

    pub read_lem :
        (level : ℕ) {X : Type 0} (o : Option (Writer B.State X)) (t : DataType) (digest c : Bytes)
        (Out : B.State → X → List Bytes → Type 0)
        → Tree R B repo P K decrypter (cur ∷ older) s₀ level t digest c
        → Visits R B repo P K decrypter gen_strings cur older newest s₀ A o t c Out
        → IsMono R B repo P K decrypter gen_strings cur older newest s₀ Out
        → (s : B.State) (x : X) → Keeps R B repo P K decrypter cur s₀ s
        → Out s x []
        → Visited level t digest c Out s (read_recursively A level o t digest (s, x))
    unfolding read_recursively
    read_lem zero o t digest c Out (known, h, there) visits mono s x k out =
        let leaf =
          subst (λ d. Leaf R B repo P K decrypter (cur ∷ older) s₀ t d c) (sym h)
            (known, h, there) in
        let (s', x', run, k', here, out') = visits s x [] c [] (append-nil c) leaf k out in
        (
          s',
          x',
          ap (λ d. on_data A o t d (s, x)) (sym h) ∙ run,
          k',
          subst (λ d. Leaf R B repo P K decrypter (cur ∷ []) s' t d c) h (known, refl, here),
          (c ∷ [], append-nil c, out'),
        )
    read_lem (suc level) o t digest c Out (cs, ec, leaves, tree) visits mono s x k out =
        let visits' =
          subst (λ c. Visits R B repo P K decrypter gen_strings cur older newest s₀ A o t c Out)
            (sym ec) visits in
        let (s', (x', buf), run, k', tree', (ds, ed, (done, todo, e, eb, lt, here, out'))) =
          read_lem level (some (translate A o t)) index digest (concat (map P.hash cs))
            (λ s y l.
              Translated R B repo P K decrypter gen_strings cur older newest s₀ Out cs s y
                (concat l))
            tree
            (writer-Visits R B repo P K decrypter gen_strings cur older newest s₀ good A
              (translate A o t) index (concat (map P.hash cs))
              (Translated R B repo P K decrypter gen_strings cur older newest s₀ Out cs)
              (reads _ (translate A o t))
              (translate-Accepts R B repo P K decrypter gen_strings cur older newest s₀ A o t Out cs
                visits' leaves)
              (Translated-IsMono R B repo P K decrypter gen_strings cur older newest s₀ A o t Out cs
                visits' leaves mono))
            (λ s s' y l.
              Translated-IsMono R B repo P K decrypter gen_strings cur older newest s₀ A o t Out cs
                visits' leaves mono s s' y (concat l))
            s (x, []) k ([], cs, refl, refl, omega arith, tt, out) in
        let all = all_done cs done todo buf e (eb ∙ ed) lt in
        (
          s',
          x',
          rw run refl,
          k',
          (
            cs,
            ec,
            moved_leaves t s' cs leaves (
                subst (All (Cur R B repo P K decrypter gen_strings cur older newest s₀ s')) all
                  here),
            tree',
          ),
          (cs, ec, subst (Out s' x') all out'),
        )

  abbrev accessor : ChunkAccessor B.State
  accessor = default_accessor R B repo decrypter gen_strings

  default_reads :
      {X : Type 0} (w : Writer B.State X) (t : DataType) (digest : Bytes)
      → accessor.read_chunk_into w digest t ≡ default_read R B repo decrypter gen_strings w digest t
  unfolding default_accessor
  default_reads w t digest = refl

  -- What stands under an address is read, of any level, without an error: the writer is given the
  -- content the address has in a good repository, the repository keeps what it has, and all chunks of
  -- the address are in the newest generation after it.
  pub read_recursively-sink :
      (level : ℕ) (t : DataType) (digest c : Bytes) (s : B.State) (x : Bytes)
      → Good R B repo P K decrypter s
      → Tree R B repo P K decrypter (cur ∷ older) s level t digest c
      → (s' : B.State) × (read_recursively accessor level (some sink) t digest (s, x)
          ≡ (ok tt, (s', x ++ c)))
        × Keeps R B repo P K decrypter cur s s'
        × Tree R B repo P K decrypter (cur ∷ []) s' level t digest c
  read_recursively-sink level t digest c s x good tree =
      let (s', x', run, k, tree', (cs, ec, out)) =
        read_lem s good accessor (λ X w digest. default_reads w index digest) level (some sink) t
          digest c (λ s y l. y ≡ x ++ concat l) tree
          (writer-Visits R B repo P K decrypter gen_strings cur older newest s good accessor sink t
            c (λ s y b. y ≡ x ++ b) (default_reads sink t)
            (sink-Accepts R B repo P K decrypter cur s x c) (λ s s' y b k out. out))
          (λ s s' y l k out. out) s x (Keeps-refl R B repo P K decrypter cur s)
          (sym (append-nil x)) in
      (s', run ∙ ap (λ y. (ok tt, (s', y))) (out ∙ ap (λ q. x ++ q) ec), k, tree')
