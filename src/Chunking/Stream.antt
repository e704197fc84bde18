-- ===== src/Chunking/Stream.antt =====
-- The chunks of a whole stream.
use rdedup.Base.{
  ℕ, zero, suc, ◌+◌, ◌≤◌, ◌<◌, ◌^◌, ◌≡◌, refl, ◌∙◌, ap, sym, ◌≢◌, ◌⊎◌, inl, inr, Option, none, some,
  List, [], ◌∷◌, ◌++◌, Result, ok, err, panics, stuck, add_u64-eq, Bytes, length, length-append,
  concat, map, All, arith,
}
use rdedup.SgData.{ArcRefs, IsArcRef, SgData, bytes}
use rdedup.Chunking.{Chunking, IsChunking, Chunker, new, next, after_next, cons_chunk, all_chunks}
use rdedup.Chunking.Next.{remaining, Returns, NextSpec, next_lem}

module _ (R : ArcRefs) where
  -- Every chunk but the last has 64 bytes or more.
  abbrev pub Sized : List (SgData R) → Type 0
  Sized [] = Unit
  Sized (sg ∷ []) = Unit
  Sized (sg ∷ sg' ∷ sgs) = (64 ≤ length (bytes R sg)) × Sized (sg' ∷ sgs)

  abbrev pub contents : List (SgData R) → Bytes
  contents sgs = concat (map (bytes R) sgs)

  abbrev pub IsNonempty : SgData R → Type 0
  IsNonempty sg = 0 < length (bytes R sg)

  eq-nil_of_contents : (sgs : List (SgData R)) → All IsNonempty sgs → contents sgs ≡ [] → sgs ≡ []
  eq-nil_of_contents [] a e = refl
  eq-nil_of_contents (sg ∷ sgs) a e =
      absurd (omega (arith, a.0, ap length e, length-append (bytes R sg) (contents sgs)))

cons-ne-nil {ℓ} : {A : Type ℓ} (x : A) (xs : List A) → x ∷ xs ≢ []
cons-ne-nil x xs e = cc

-- One more call of `next` if nothing was returned yet.
abbrev first : ℕ → ℕ
first zero = 1
first (suc n) = 0

first-pos : (k : ℕ) → first (k + 1) ≡ 0
first-pos k = ground arith

module _ (R : ArcRefs) (L : IsArcRef R) (C : Chunking) (K : IsChunking C) where
  -- What the loop gives from a state of the chunker on.
  abbrev pub Cuts : Chunker R C → Result (List (SgData R)) → Type 0
  Cuts c r =
      (sgs : List (SgData R)) × (r ≡ ok sgs)
      × (contents R sgs ≡ remaining R C c)
      × Sized R sgs
      × (All (IsNonempty R) sgs ⊎ (remaining R C c ≡ []))
      × (c.chunks_returned ≡ 0 → sgs ≢ [])
      × (c.chunks_returned ≢ 0 → All (IsNonempty R) sgs)

  Sized-cons :
      (sg : SgData R) (sgs : List (SgData R)) (rest : Bytes)
      → (64 ≤ length (bytes R sg)) ⊎ (rest ≡ [])
      → All (IsNonempty R) sgs
      → contents R sgs ≡ rest
      → Sized R sgs
      → Sized R (sg ∷ sgs)
  Sized-cons sg [] rest s a e z = tt
  Sized-cons sg (sg' ∷ sgs) rest (inl big) a e z = (big, z)
  Sized-cons sg (sg' ∷ sgs) rest (inr done) a e z =
      absurd (cons-ne-nil sg' sgs (eq-nil_of_contents R (sg' ∷ sgs) a (e ∙ done)))

  IsNonempty-or :
      (b : Bytes) (rest : Bytes) → (64 ≤ length b) ⊎ (rest ≡ []) → (0 < length b) ⊎ (b ++ rest ≡ [])
  IsNonempty-or [] rest (inl big) = absurd (omega arith)
  IsNonempty-or [] rest (inr done) = inr done
  IsNonempty-or (x ∷ b) rest s = inl (omega arith)

  cons_chunk_lem :
      (c c' : Chunker R C) (sg : SgData R) (r : Result (List (SgData R)))
      → Returns R C c (some sg) c'
      → c'.chunks_returned ≢ 0
      → Cuts c' r
      → Cuts c (cons_chunk R C sg r)
  unfolding cons_chunk
  cons_chunk_lem c c' sg r s more (sgs, e, same, sized, full, fresh, all) = (
    sg ∷ sgs,
    ap (cons_chunk R C sg) e,
    ap (λ t. bytes R sg ++ t) same ∙ s.0,
    Sized-cons sg sgs (remaining R C c') s.2 (all more) same sized,
    elim (IsNonempty-or (bytes R sg) (remaining R C c') s.2) [
      | inl pos ↦ inl (pos, all more)
      | inr nothing ↦ inr (sym s.0 ∙ nothing)
    ],
    λ z n. cons-ne-nil sg sgs n,
    λ nz. (elim s.3 [ inl pos ↦ pos | inr z ↦ absurd (nz z) ], all more),
  )

  -- The next call has less left to return.
  next_bounds :
      (fuel : ℕ) (c c' : Chunker R C) (sg : SgData R)
      → Returns R C c (some sg) c'
      → length (remaining R C c) + first c.chunks_returned < suc fuel
      → c.chunks_returned + length (remaining R C c) + 1 < 2 ^ 64
      → (c'.chunks_returned ≢ 0)
        × (length (remaining R C c') + first c'.chunks_returned < fuel)
        × (c'.chunks_returned + length (remaining R C c') + 1 < 2 ^ 64)
  next_bounds fuel c c' sg s f b =
      let one_more : c'.chunks_returned ≡ c.chunks_returned + 1 =
        s.1 ∙ add_u64-eq c.chunks_returned 1 (omega arith) in
      let later : first c'.chunks_returned ≡ 0 = rw one_more (first-pos c.chunks_returned) in
      let split : length (remaining R C c) ≡ length (bytes R sg) + length (remaining R C c') =
        sym (ap length s.0) ∙ length-append (bytes R sg) (remaining R C c') in
      elim s.3 [
        | inl pos ↦ (omega arith, omega arith, omega arith)
        | inr z ↦
            let once : first c.chunks_returned ≡ 1 = rw z refl in
            elim s.2 [
              | inl big ↦ (omega arith, omega arith, omega arith)
              | inr done ↦ let none_left = ap length done in (omega arith, omega arith, omega arith)
            ]
      ]

  all_chunks_lem :
      (fuel : ℕ) (c : Chunker R C)
      → length (remaining R C c) + first c.chunks_returned < fuel
      → c.chunks_returned + length (remaining R C c) + 1 < 2 ^ 64
      → Cuts c (all_chunks R C fuel c)
  unfolding all_chunks
  all_chunks_lem zero c f b = absurd (omega arith)
  all_chunks_lem (suc fuel) c f b = go (next R C c) (next_lem R L C K c) (all_chunks_lem fuel)
    where
      go :
          (p : Result (Option (SgData R)) × Chunker R C)
          → NextSpec R C c p
          → ((c' : Chunker R C)
              → length (remaining R C c') + first c'.chunks_returned < fuel
              → c'.chunks_returned + length (remaining R C c') + 1 < 2 ^ 64
              → Cuts c' (all_chunks R C fuel c'))
          → Cuts c (after_next R C p (all_chunks R C fuel))
      go (ok none, c') s ih = ([], refl, sym s.0, tt, inl tt, λ z. absurd (s.2 z), λ z. tt)
      go (ok (some sg), c') s ih =
          let (more, f', b') = next_bounds fuel c c' sg s f b in
          cons_chunk_lem c c' sg (all_chunks R C fuel c') s more (ih c' f' b')
      go (err e, c') s ih = absurd s
      go (panics, c') s ih = absurd s
      go (stuck, c') s ih = absurd s

  -- A fresh chunker over buffers of fewer than 2^64 - 1 bytes together returns, within as many
  -- rounds as there are bytes and two, at least one chunk. The chunks together are the stream, every
  -- one but the last has 64 bytes or more, and none is empty unless the stream is.
  pub all_chunks-new :
      (iter : List Bytes) (g : C.Engine)
      → length (concat iter) + 1 < 2 ^ 64
      → (sgs : List (SgData R)) × (all_chunks R C (length (concat iter) + 2) (new R C iter g)
          ≡ ok sgs)
        × (contents R sgs ≡ concat iter)
        × Sized R sgs
        × (sgs ≢ [])
        × (All (IsNonempty R) sgs ⊎ (concat iter ≡ []))
  unfolding new
  all_chunks-new iter g b =
      let (sgs, e, same, sized, full, fresh, all) =
        all_chunks_lem (length (concat iter) + 2) (new R C iter g) (omega arith) (omega arith) in
      (sgs, e, same, sized, fresh refl, full)
