-- ===== src/SgData/Laws.antt =====
-- Scattered data and its linear forms have the same bytes.
use rdedup.Base.{
  take, drop, ◌-◌, ℕ, ◌+◌, ◌≡◌, refl, ◌∙◌, ap, sym, List, [], ◌∷◌, ◌++◌, Bytes, length,
  length-append, concat, All, append_assoc, append-nil, arith,
}
use rdedup.SgData.{
  ArcRefs, IsArcRef, SgData, from_many, from_single, sum_len, len, push_vec, push_arcref,
  write_parts, to_linear, to_linear_vec, bytes,
}

module _ (R : ArcRefs) where
  open R use {Ref, new, deref, owner}

  pub bytes-append : (xs ys : SgData R) → bytes R (xs ++ ys) ≡ bytes R xs ++ bytes R ys
  bytes-append [] ys = refl
  bytes-append (x ∷ xs) ys =
      ap (λ r. deref x ++ r) (bytes-append xs ys)
      ∙ sym (append_assoc (deref x) (bytes R xs) (bytes R ys))

  pub bytes-push_arcref :
      (sg : SgData R) (r : Ref) → bytes R (push_arcref R sg r) ≡ bytes R sg ++ deref r
  unfolding push_arcref
  bytes-push_arcref sg r =
      bytes-append sg (r ∷ []) ∙ ap (λ t. bytes R sg ++ t) (append-nil (deref r))

  write_parts-eq : (v : Bytes) (sg : SgData R) → write_parts R v sg ≡ v ++ bytes R sg
  unfolding write_parts
  write_parts-eq v [] = sym (append-nil v)
  write_parts-eq v (p ∷ ps) =
      write_parts-eq (v ++ deref p) ps ∙ append_assoc v (deref p) (bytes R ps)

  sum_len-eq : (n : ℕ) (sg : SgData R) → sum_len R n sg ≡ n + length (bytes R sg)
  unfolding sum_len
  sum_len-eq n [] = omega arith
  sum_len-eq n (p ∷ ps) =
      omega (arith, sum_len-eq (n + length (deref p)) ps, length-append (deref p) (bytes R ps))

  -- `len` is the number of bytes.
  pub len-eq-length : (sg : SgData R) → len R sg ≡ length (bytes R sg)
  unfolding len
  len-eq-length sg = omega (arith, sum_len-eq 0 sg)

module _ (R : ArcRefs) (L : IsArcRef R) where
  pub bytes-from_many : (v : List Bytes) → bytes R (from_many R v) ≡ concat v
  unfolding from_many
  bytes-from_many [] = refl
  bytes-from_many (x ∷ xs) = rw (L.deref-new x) (ap (λ r. x ++ r) (bytes-from_many xs))

  pub bytes-from_single : (v : Bytes) → bytes R (from_single R v) ≡ v
  unfolding from_single
  bytes-from_single v = bytes-from_many (v ∷ []) ∙ append-nil v

  pub bytes-push_vec : (sg : SgData R) (v : Bytes) → bytes R (push_vec R sg v) ≡ bytes R sg ++ v
  unfolding push_vec
  bytes-push_vec sg v = bytes-append R sg (R.new v ∷ []) ∙ rw (L.deref-new v, append-nil v)

  -- The linear form has the bytes of the scattered one, in order, however many parts there are.
  pub deref-to_linear : (sg : SgData R) → R.deref (to_linear R sg) ≡ bytes R sg
  unfolding to_linear
  deref-to_linear [] = L.deref-new []
  deref-to_linear (p ∷ []) = sym (append-nil (R.deref p))
  deref-to_linear (p ∷ q ∷ ps) = L.deref-new _ ∙ write_parts-eq R [] (p ∷ q ∷ ps)

  -- `to_linear_vec` gives the bytes if every part is the whole of its owner.
  pub to_linear_vec-eq-bytes :
      (sg : SgData R) → All (λ p. R.owner p ≡ R.deref p) sg → to_linear_vec R sg ≡ bytes R sg
  unfolding to_linear_vec
  to_linear_vec-eq-bytes [] h = refl
  to_linear_vec-eq-bytes (p ∷ []) h = h.0 ∙ sym (append-nil (R.deref p))
  to_linear_vec-eq-bytes (p ∷ q ∷ ps) h = write_parts-eq R [] (p ∷ q ∷ ps)

  pub from_many-IsWhole : (v : List Bytes) → All (λ p. R.owner p ≡ R.deref p) (from_many R v)
  unfolding from_many
  from_many-IsWhole [] = tt
  from_many-IsWhole (x ∷ xs) = (L.owner-new x ∙ sym (L.deref-new x), from_many-IsWhole xs)

  -- Data made of whole vectors comes back as their bytes in one vector.
  pub to_linear_vec-from_many : (v : List Bytes) → to_linear_vec R (from_many R v) ≡ concat v
  to_linear_vec-from_many v =
      to_linear_vec-eq-bytes (from_many R v) (from_many-IsWhole v) ∙ bytes-from_many v

  -- Scattered data of one part, a slice of a vector, has the bytes of the slice, but `to_linear_vec`
  -- gives the whole vector.
  pub to_linear_vec-slice :
      (v : Bytes) (i j : ℕ)
      → (bytes R (R.slice i j (R.new v) ∷ []) ≡ take (j - i) (drop i v))
        × (to_linear_vec R (R.slice i j (R.new v) ∷ []) ≡ v)
  unfolding to_linear_vec
  to_linear_vec-slice v i j = (
    append-nil (R.deref (R.slice i j (R.new v)))
        ∙ L.deref-slice i j (R.new v)
        ∙ ap (λ x. take (j - i) (drop i x)) (L.deref-new v),
    L.owner-slice i j (R.new v) ∙ L.owner-new v,
  )
