-- ===== src/Reading/Tree.antt =====
-- The translator of an index, given the digests of chunks in any pieces, has each chunk dealt with.
use mathlib.Core.List.{reverse, map-append}
use rdedup.Base.{
  ℕ, zero, suc, ◌+◌, ◌-◌, ◌≤◌, ◌<◌, ◌≡◌, refl, ◌∙◌, sym, ap, subst, Bytes, length, length-append,
  length-take, length-drop, take, drop, take-append-drop, append_assoc, append-nil, concat,
  concat-append, map, All, All-append, Option, Result, ok, List, [], ◌∷◌, ◌++◌, Bool-cases, ltb,
  inl, inr, arith,
}
use rdedup.SgData.{ArcRefs}
use rdedup.Encryption.{Decrypter}
use rdedup.Aio.{Backend, IsBackend}
use rdedup.Reading.{DataType, Writer, ChunkAccessor, on_data, translate, translate_loop}
use rdedup.Reading.Decode.{Repo}
use rdedup.Reading.Stream.{split_eq, Accepts}
use rdedup.Reading.Visits.{Cur, IsMono, Visits}
use rdedup.Store.{IsRepo, Keeps, Keeps-refl, Keeps-trans, Leaf}

All-middle {ℓ κ} :
    {A : Type ℓ} (Q : A → Type κ) (xs : List A) (y : A) (ys : List A) → All Q (xs ++ (y ∷ ys)) → Q y
All-middle Q [] y ys a = a.0
All-middle Q (x ∷ xs) y ys a = All-middle Q xs y ys a.1

pub append-cancel : (xs ys zs : Bytes) → xs ++ ys ≡ xs ++ zs → ys ≡ zs
append-cancel xs ys zs e = (split_eq xs xs ys zs refl e).1

module _ (R : ArcRefs) (B : Backend R) (repo : Repo R) (P : IsRepo R repo)
    (K : IsBackend R B repo.layout) (decrypter : Option (Decrypter R)) (gen_strings : List Bytes)
    (cur : Bytes) (older : List Bytes) (newest : reverse gen_strings ≡ cur ∷ older)
    (s₀ : B.State) where
  abbrev pub digests : List Bytes → Bytes
  digests cs = concat (map P.hash cs)

  abbrev Here : B.State → Bytes → Type 0
  Here s c = Cur R B repo P K decrypter gen_strings cur older newest s₀ s c

  pub digests-append : (xs ys : List Bytes) → digests (xs ++ ys) ≡ digests xs ++ digests ys
  digests-append xs ys = rw map-append (concat-append (map P.hash xs) (map P.hash ys))

  pub All-Here-mono :
      {s s' : B.State}
      → Keeps R B repo P K decrypter cur s s'
      → (cs : List Bytes) → All (Here s) cs
      → All (Here s') cs
  All-Here-mono k [] a = tt
  All-Here-mono k (c ∷ cs) a = (k.has [] (P.hash c) a.0, All-Here-mono k cs a.1)

  -- The digests that are done make up what was given with the buffer behind them, and their chunks
  -- were dealt with.
  abbrev pub Translated :
      {X : Type 0}
      → (B.State → X → List Bytes → Type 0)
      → List Bytes
      → B.State
      → X × Bytes
      → Bytes
      → Type 0
  Translated Out cs s (x, buf) b =
      (done todo : List Bytes) × (done ++ todo ≡ cs)
      × (digests done ++ buf ≡ b)
      × (length buf < 32)
      × All (Here s) done
      × Out s x done

  module _ {X : Type 0} (A : ChunkAccessor B.State) (w : Option (Writer B.State X)) (t : DataType)
      (Out : B.State → X → List Bytes → Type 0) (cs : List Bytes)
      (visits : Visits R B repo P K decrypter gen_strings cur older newest s₀ A w t (concat cs) Out)
      (leaves : All (λ c. Leaf R B repo P K decrypter (cur ∷ older) s₀ t (P.hash c) c) cs) where
    abbrev pub Takes : B.State → Result (Unit {0}) × (B.State × (X × Bytes)) → Bytes → Type 0
    Takes s run b =
        (s' : B.State) × (x' : X × Bytes) × (run ≡ (ok tt, (s', x')))
        × Keeps R B repo P K decrypter cur s s'
        × Translated Out cs s' x' b

    -- A digest that is complete is that of the next chunk.
    one_digest :
        (s : B.State) (x : X) (done : List Bytes) (c : Bytes) (todo : List Bytes)
        → done ++ (c ∷ todo) ≡ cs
        → Keeps R B repo P K decrypter cur s₀ s
        → All (Here s) done
        → Out s x done
        → (s' : B.State) × (x' : X) × (on_data A w t (P.hash c) (s, x) ≡ (ok tt, (s', x')))
          × Keeps R B repo P K decrypter cur s s'
          × All (Here s') (done ++ (c ∷ []))
          × Out s' x' (done ++ (c ∷ []))
    one_digest s x done c todo e k here out =
        let leaf =
          All-middle (λ c. Leaf R B repo P K decrypter (cur ∷ older) s₀ t (P.hash c) c) done c todo
            (subst (λ l. All (λ c. Leaf R B repo P K decrypter (cur ∷ older) s₀ t (P.hash c) c) l)
              (sym e) leaves) in
        let (s', x', run, k', cur', out') = visits s x done c todo (ap concat e) leaf k out in
        (
          s',
          x',
          run,
          k',
          All-append (Here s') done (c ∷ []) (All-Here-mono k' done here) (cur', tt),
          out',
        )

    -- The next digest of the stream.
    next_digest :
        (done todo : List Bytes) (buf b p r : Bytes)
        → done ++ todo ≡ cs
        → digests done ++ buf ≡ b
        → b ++ (p ++ r) ≡ digests cs
        → buf ++ (p ++ r) ≡ digests todo
    next_digest done todo buf b p r e eb es =
        append-cancel (digests done) (buf ++ (p ++ r)) (digests todo) (
          sym (append_assoc (digests done) buf (p ++ r))
          ∙ ap (λ q. q ++ (p ++ r)) eb
          ∙ es
          ∙ ap digests (sym e)
          ∙ digests-append done todo)

    -- What does not fill a digest goes to the buffer.
    small_piece :
        (s : B.State) (x : X) (buf b p : Bytes)
        → length buf + length p < 32
        → Translated Out cs s (x, buf) b
        → Translated Out cs s (x, buf ++ p) (b ++ p)
    small_piece s x buf b p l (done, todo, e, eb, lt, here, out) = (
      done,
      todo,
      e,
      sym (append_assoc (digests done) buf p) ∙ ap (λ q. q ++ p) eb,
      omega (arith, length-append buf p),
      here,
      out,
    )

    pieces : (n : ℕ) (b p r : Bytes) → (b ++ take n p) ++ (drop n p ++ r) ≡ b ++ (p ++ r)
    pieces n b p r =
        append_assoc b (take n p) (drop n p ++ r)
        ∙ ap (λ q. b ++ q)
            (sym (append_assoc (take n p) (drop n p) r) ∙ ap (λ q. q ++ r) (take-append-drop n p))

    -- A full buffer is the digest of the next chunk.
    full_digest :
        (done todo : List Bytes) (buf b p r : Bytes)
        → done ++ todo ≡ cs
        → digests done ++ buf ≡ b
        → b ++ (p ++ r) ≡ digests cs
        → length buf < 32
        → 32 ≤ length buf + length p
        → (c : Bytes) × (todo' : List Bytes) × (todo ≡ c ∷ todo')
          × (buf ++ take (32 - length buf) p ≡ P.hash c)
    full_digest done [] buf b p r e eb es lt l =
        let nothing = ap length (next_digest done [] buf b p r e eb es) in
        absurd (omega (arith, nothing, length-append buf (p ++ r), length-append p r))
    full_digest done (c ∷ todo') buf b p r e eb es lt l =
        let n = 32 - length buf in
        let (same, rest) =
          split_eq (buf ++ take n p) (P.hash c) (drop n p ++ r) (digests todo')
            (omega (arith, length-append buf (take n p), length-take n p, P.length-hash c))
            (pieces n buf p r ∙ next_digest done (c ∷ todo') buf b p r e eb es) in
        (c, todo', refl, same)

    -- The digests behind a full one.
    after_digest :
        (done : List Bytes) (c : Bytes) (buf b d : Bytes)
        → digests done ++ buf ≡ b
        → buf ++ d ≡ P.hash c
        → digests (done ++ (c ∷ [])) ++ [] ≡ b ++ d
    after_digest done c buf b d eb h =
        append-nil (digests (done ++ (c ∷ [])))
        ∙ digests-append done (c ∷ [])
        ∙ ap (λ q. digests done ++ q) (append-nil (P.hash c) ∙ sym h)
        ∙ sym (append_assoc (digests done) buf d)
        ∙ ap (λ q. q ++ d) eb

    translate_loop_lem :
        (fuel : ℕ) (s : B.State) (x : X) (buf b p r : Bytes)
        → length p < fuel
        → Keeps R B repo P K decrypter cur s₀ s
        → Translated Out cs s (x, buf) b
        → b ++ (p ++ r) ≡ digests cs
        → Takes s (translate_loop A fuel w t p (s, (x, buf))) (b ++ p)
    unfolding translate_loop
    translate_loop_lem zero s x buf b p r f k inv es = absurd (omega arith)
    translate_loop_lem (suc fuel) s x buf b p r f k (done, todo, e, eb, lt, here, out) es =
        elim (Bool-cases (ltb (length buf + length p) 32)) [
          | inl l ↦ (
            s,
            (x, buf ++ p),
            rw l refl,
            Keeps-refl R B repo P K decrypter cur s,
            small_piece s x buf b p (ground (arith, l)) (done, todo, e, eb, lt, here, out),
          )
          | inr l ↦
              let n = 32 - length buf in
              let big : 32 ≤ length buf + length p = ground (arith, l) in
              let (c, todo', et, same) = full_digest done todo buf b p r e eb es lt big in
              let e' = ap (λ q. done ++ q) (sym et) ∙ e in
              let (s₁, x₁, run, k₁, here₁, out₁) = one_digest s x done c todo' e' k here out in
              let (s₂, x₂, run₂, k₂, inv₂) =
                translate_loop_lem fuel s₁ x₁ [] (b ++ take n p) (drop n p) r
                  (omega (arith, big, length-drop n p, f))
                  (Keeps-trans R B repo P K decrypter cur k k₁)
                  (
                    done ++ (c ∷ []),
                    todo',
                    append_assoc done (c ∷ []) todo' ∙ e',
                    after_digest done c buf b (take n p) eb same,
                    omega arith,
                    here₁,
                    out₁,
                  )
                  (pieces n b p r ∙ es) in
              (
                s₂,
                x₂,
                rw (l, same, run) run₂,
                Keeps-trans R B repo P K decrypter cur k₁ k₂,
                subst (Translated Out cs s₂ x₂)
                    (append_assoc b (take n p) (drop n p) ∙ ap (λ q. b ++ q) (take-append-drop n p))
                    inv₂,
              )
        ]

    -- The translator of an index takes the stream of digests in any pieces.
    pub translate-Accepts :
        Accepts R B repo P K decrypter cur s₀ (translate A w t) (digests cs) (Translated Out cs)
    unfolding translate
    translate-Accepts s (x, buf) b [] r k inv e = (
      s,
      (x, buf),
      refl,
      Keeps-refl R B repo P K decrypter cur s,
      subst (Translated Out cs s (x, buf)) (sym (append-nil b)) inv,
    )
    translate-Accepts s (x, buf) b (q ∷ p) r k inv e =
        translate_loop_lem (suc (length (q ∷ p))) s x buf b (q ∷ p) r (omega arith) k inv e

    pub Translated-IsMono :
        IsMono R B repo P K decrypter gen_strings cur older newest s₀ Out
        → IsMono R B repo P K decrypter gen_strings cur older newest s₀ (Translated Out cs)
    Translated-IsMono mono s s' (x, buf) b k (done, todo, e, eb, lt, here, out) =
        (done, todo, e, eb, lt, All-Here-mono k done here, mono s s' x done k out)
