-- ===== src/Chunking/Next.antt =====
-- What one call of `next` does: no byte is lost or moved, and it ends.
use rdedup.Base.{
  subst, ℕ, zero, suc, ◌+◌, ◌-◌, ◌≤◌, ◌<◌, ◌≡◌, refl, ◌∙◌, ap, sym, ◌≢◌, ◌⊎◌, inl, inr, leb, ◌==◌,
  Bool-cases, Option, none, some, List, [], ◌∷◌, ◌++◌, Result, ok, err, panics, stuck, add_u64,
  Bytes, length, length-append, concat, take, take-append, drop-append, append_assoc, append-nil,
  arith,
}
use rdedup.SgData.{ArcRefs, IsArcRef, SgData, bytes}
use rdedup.SgData
use rdedup.SgData.Laws.{bytes-push_arcref, len-eq-length}
use rdedup.Chunking.{
  Chunking, IsChunking, Chunker, Round, returns, continues, on_edge, on_found, at_end, on_buf,
  take_buf, rest_of, round, next_loop, next, pending_bytes, pending_size, sizes, to_scan,
}

module _ (R : ArcRefs) (C : Chunking) where
  -- The bytes that are still to be returned, in order.
  abbrev pub remaining : Chunker R C → Bytes
  remaining c = bytes R c.incomplete_chunk ++ (pending_bytes R C c.pending ++ concat c.iter)

  -- What a returned value says of the states before and after it. A chunk has 64 bytes, or is the
  -- last one; an empty chunk is the only one.
  abbrev pub Returns : Chunker R C → Option (SgData R) → Chunker R C → Type 0
  Returns c none c' = (remaining c ≡ []) × (remaining c' ≡ []) × (c.chunks_returned ≢ 0)
  Returns c (some sg) c' =
      (bytes R sg ++ remaining c' ≡ remaining c)
      × (c'.chunks_returned ≡ add_u64 c.chunks_returned 1)
      × ((64 ≤ length (bytes R sg)) ⊎ (remaining c' ≡ []))
      × ((0 < length (bytes R sg)) ⊎ (c.chunks_returned ≡ 0))

  abbrev pub NextSpec : Chunker R C → Result (Option (SgData R)) × Chunker R C → Type 0
  NextSpec c (ok r, c') = Returns c r c'
  NextSpec c (err e, c') = ⊥
  NextSpec c (panics, c') = ⊥
  NextSpec c (stuck, c') = ⊥

  abbrev RoundSpec : Chunker R C → Round R C → Type 0
  RoundSpec c (returns r c') = Returns c r c'
  RoundSpec c (continues c') =
      (remaining c' ≡ remaining c)
      × (to_scan R C c' < to_scan R C c)
      × (c'.chunks_returned ≡ c.chunks_returned)

length-pos {ℓ} : {A : Type ℓ} (xs : List A) → length xs ≡ 0 → xs ≡ []
length-pos [] h = refl
length-pos (x ∷ xs) h = absurd (omega arith)

module _ (R : ArcRefs) (L : IsArcRef R) (C : Chunking) (K : IsChunking C) where
  deref-head :
      (buf : R.Ref) (last rest : Bytes)
      → last ++ rest ≡ R.deref buf
      → R.deref (R.slice 0 (length last) buf) ≡ last
  deref-head buf last rest e =
      L.deref-slice 0 (length last) buf
      ∙ rw (← e) (take-append last rest (length last - 0) (omega arith))

  pending_bytes-rest_of :
      (buf : R.Ref) (last rest : Bytes)
      → last ++ rest ≡ R.deref buf
      → pending_bytes R C (rest_of R C buf last rest) ≡ rest
  pending_bytes-rest_of buf last [] e = refl
  pending_bytes-rest_of buf last (b ∷ rest) e =
      L.deref-slice (length last) (length (R.deref buf)) buf
      ∙ rw (← e) (
          rw (drop-append last (b ∷ rest) (length last) refl) (
            ap (take _) (sym (append-nil (b ∷ rest)))
            ∙ take-append (b ∷ rest) [] (length (last ++ b ∷ rest) - length last)
                (omega (arith, length-append last (b ∷ rest)))))

  pending_size-rest_of :
      (buf : R.Ref) (last rest : Bytes)
      → last ++ rest ≡ R.deref buf
      → 0 < length last
      → pending_size R C (rest_of R C buf last rest) ≤ length (R.deref buf)
  pending_size-rest_of buf last [] e pos = omega arith
  pending_size-rest_of buf last (b ∷ rest) e pos = omega (
    arith,
    ap length (pending_bytes-rest_of buf last (b ∷ rest) e),
    ap length e,
    length-append last (b ∷ rest),
  )

  remaining-edge :
      (inc : SgData R) (buf : R.Ref) (last rest X : Bytes)
      → last ++ rest ≡ R.deref buf
      → bytes R (SgData.push_arcref R inc (R.slice 0 (length last) buf))
          ++ (pending_bytes R C (rest_of R C buf last rest) ++ X)
        ≡ bytes R inc ++ (R.deref buf ++ X)
  remaining-edge inc buf last rest X e =
      rw (bytes-push_arcref, deref-head buf last rest e, pending_bytes-rest_of buf last rest e, ← e)
        (simp append_assoc)

  module _ (c₀ : Chunker R C) (c : Chunker R C) (buf : R.Ref)
      (e₀ : remaining R C c₀ ≡ bytes R c.incomplete_chunk ++ (R.deref buf ++ concat c.iter))
      (n₀ : c.chunks_returned ≡ c₀.chunks_returned)
      (s₀ : length (R.deref buf) + sizes R C c.iter < to_scan R C c₀) where
    on_edge_lem :
        (last rest : Bytes)
        → last ++ rest ≡ R.deref buf
        → 0 < length last
        → RoundSpec R C c₀ (on_edge R C buf last rest c)
    unfolding on_edge
    on_edge_lem last rest e pos =
        let chunk = SgData.push_arcref R c.incomplete_chunk (R.slice 0 (length last) buf) in
        let same = remaining-edge c.incomplete_chunk buf last rest (concat c.iter) e in
        elim (Bool-cases (leb 64 (SgData.len R chunk))) [
          | inl big ↦
              let long : 64 ≤ length (bytes R chunk) = ground (arith, big, len-eq-length R chunk) in
              rw big (same ∙ sym e₀, ap (λ n. add_u64 n 1) n₀, inl long, inl (omega (arith, long)))
          | inr small ↦
              rw small (same ∙ sym e₀, omega (arith, pending_size-rest_of buf last rest e pos), n₀)
        ]

    on_found_lem :
        (found : Option (Bytes × Bytes))
        → ((last rest : Bytes)
            → found ≡ some (last, rest)
            → (last ++ rest ≡ R.deref buf) × (0 < length last))
        → c.pending ≡ none
        → RoundSpec R C c₀ (on_found R C buf found c)
    unfolding on_found
    on_found_lem (some (last, rest)) split p =
        on_edge_lem last rest (split last rest refl).0 (split last rest refl).1
    on_found_lem none split p = (
      rw (p, bytes-push_arcref)
          (append_assoc (bytes R c.incomplete_chunk) (R.deref buf) (concat c.iter) ∙ sym e₀),
      rw p (omega arith),
      n₀,
    )

  at_end_lem :
      (c : Chunker R C)
      → remaining R C c ≡ bytes R c.incomplete_chunk
      → c.pending ≡ none
      → c.iter ≡ []
      → RoundSpec R C c (at_end R C c)
  unfolding at_end SgData.is_empty
  at_end_lem c e p i = elim (Bool-cases (SgData.len R c.incomplete_chunk == 0)) [
    | inl nothing ↦
        let none_left : bytes R c.incomplete_chunk ≡ [] =
          length-pos (bytes R c.incomplete_chunk)
            (ground (arith, nothing, len-eq-length R c.incomplete_chunk)) in
        rw nothing (elim (Bool-cases (c.chunks_returned == 0)) [
          | inl first ↦
              let zero_yet : c.chunks_returned ≡ 0 = ground (arith, first) in
              rw first (refl, rw zero_yet refl, inr (e ∙ none_left), inr zero_yet)
          | inr more ↦ rw more (e ∙ none_left, e ∙ none_left, ground (arith, more))
        ])
    | inr some_left ↦ rw some_left (
      rw (p, i) refl,
      refl,
      inr (rw (p, i) refl),
      inl (ground (arith, some_left, len-eq-length R c.incomplete_chunk)),
    )
  ]

  round_lem : (c : Chunker R C) → RoundSpec R C c (round R C c)
  unfolding round
  round_lem c = on_buf_lem c.pending c.iter refl refl
    where
      on_buf_lem :
          (p : Option R.Ref) (i : List Bytes)
          → c.pending ≡ p
          → c.iter ≡ i
          → RoundSpec R C c (on_buf R C (take_buf R C p i) c)
      on_buf_lem (some buf) i ep ei =
          let (engine, found) = C.find_chunk c.chunking (R.deref buf) in
          on_found_lem c (record c { iter = i; pending = none; chunking = engine }) buf
            (rw (ep, ei)) refl (rw (ep, ei) (omega arith)) found
            (λ last rest h. K.splits c.chunking (R.deref buf) h) refl
      on_buf_lem none [] ep ei =
          at_end_lem c (rw (ep, ei) (append-nil (bytes R c.incomplete_chunk))) ep ei
      on_buf_lem none (v ∷ iter) ep ei =
          let (engine, found) = C.find_chunk c.chunking (R.deref (R.new v)) in
          on_found_lem c (record c { iter = iter; pending = none; chunking = engine }) (R.new v)
            (rw (ep, ei, L.deref-new v)) refl
            (rw (ep, ei) (omega (arith, ap length (L.deref-new v)))) found
            (λ last rest h. K.splits c.chunking (R.deref (R.new v)) h) refl

  Returns-cong :
      (c c₁ : Chunker R C) (r : Option (SgData R)) (c' : Chunker R C)
      → remaining R C c₁ ≡ remaining R C c
      → c₁.chunks_returned ≡ c.chunks_returned
      → Returns R C c₁ r c'
      → Returns R C c r c'
  Returns-cong c c₁ none c' e n h = (sym e ∙ h.0, h.1, λ z. h.2 (n ∙ z))
  Returns-cong c c₁ (some sg) c' e n h = (
    h.0 ∙ e,
    h.1 ∙ ap (λ k. add_u64 k 1) n,
    h.2,
    subst (λ k. (0 < length (bytes R sg)) ⊎ (k ≡ 0)) n h.3,
  )

  NextSpec-cong :
      (c c₁ : Chunker R C) (p : Result (Option (SgData R)) × Chunker R C)
      → remaining R C c₁ ≡ remaining R C c
      → c₁.chunks_returned ≡ c.chunks_returned
      → NextSpec R C c₁ p
      → NextSpec R C c p
  NextSpec-cong c c₁ (ok r, c') e n h = Returns-cong c c₁ r c' e n h
  NextSpec-cong c c₁ (err x, c') e n h = h
  NextSpec-cong c c₁ (panics, c') e n h = h
  NextSpec-cong c c₁ (stuck, c') e n h = h

  next_loop_lem :
      (fuel : ℕ) (c : Chunker R C) → to_scan R C c < fuel → NextSpec R C c (next_loop R C fuel c)
  unfolding next_loop
  next_loop_lem zero c h = absurd (omega arith)
  next_loop_lem (suc fuel) c h = go (round R C c) (round_lem c) (next_loop_lem fuel)
    where
      go :
          (r : Round R C)
          → RoundSpec R C c r
          → ((c' : Chunker R C) → to_scan R C c' < fuel → NextSpec R C c' (next_loop R C fuel c'))
          → NextSpec R C c
              (elim r [ returns x c' ↦ (ok x, c') | continues c' ↦ next_loop R C fuel c' ])
      go (returns x c') s ih = s
      go (continues c') s ih = NextSpec-cong c c' _ s.0 s.2 (ih c' (omega arith))

  -- A call of `next` returns, and what it returns are the next bytes of the stream.
  pub next_lem : (c : Chunker R C) → NextSpec R C c (next R C c)
  unfolding next
  next_lem c = next_loop_lem (suc (to_scan R C c)) c (omega arith)
