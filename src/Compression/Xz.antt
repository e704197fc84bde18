-- ===== src/Compression/Xz.antt =====
-- The loops of `Xz2` write everything, though a call may take nothing.
use native.Mathlib.Nat.{mul-le-mul_right}
use rdedup.Base.{
  ℕ, zero, suc, ◌+◌, ◌-◌, ◌*◌, ◌<◌, ◌≤◌, ◌≡◌, ◌≢◌, refl, ◌∙◌, sym, ap, subst, ◌⊎◌, inl, inr, true,
  false, Bool-cases, ltb, Bytes, length, length-drop, take, drop, take-append-drop, ok, ◌>>=◌, List,
  [], ◌∷◌, ◌++◌, append_assoc, append-nil, arith,
}
use rdedup.SgData
use rdedup.SgData.{ArcRefs, IsArcRef, SgData, bytes}
use rdedup.Compression.{Lzma, unwrap, write_from, rounds, write_parts, xz_run}
use rdedup.Compression.Streams.{Takes, write_parts-Takes}

-- What the program relies on in a writer of `lzma`: a write takes a front of what it is given, and
-- nothing only so often in a row, while it hands out what it has pending.
pub record IsLzma (lz : Lzma) (Accepts : Bytes → Type 0) (Gives : Bytes → Bytes → Type 0)
    : Type 0 where
  pub start : lz.State
  pub new-ok : lz.new ≡ ok start
  pub written : lz.State → Bytes
  pub start-nil : written start ≡ []
  pub pending : lz.State → ℕ
  pub pending-le : (s : lz.State) → pending s ≤ lz.patience
  pub write-takes :
      (s : lz.State) (x : Bytes)
      → x ≢ []
      → Accepts (written s ++ x)
      → (n : ℕ) × (s' : lz.State) × (lz.write s x ≡ ok (n, s'))
        × (n ≤ length x)
        × (written s' ≡ written s ++ take n x)
        × ((0 < n) ⊎ (pending s' < pending s))
  pub front : (x y : Bytes) → Accepts (x ++ y) → Accepts x
  pub finish-Gives : (s : lz.State) (out : Bytes) → Gives (written s) out → lz.finish s ≡ ok out

drop-nil : {A : Type 0} (n : ℕ) → drop {A = A} n [] ≡ []
drop-nil zero = refl
drop-nil (suc n) = refl

pub drop-drop : {A : Type 0} (i n : ℕ) (xs : List A) → drop (i + n) xs ≡ drop n (drop i xs)
drop-drop zero n xs = ap (λ m. drop m xs) (omega arith)
drop-drop (suc i) n [] = drop-nil (suc i + n) ∙ sym (drop-nil n)
drop-drop (suc i) n (x ∷ xs) =
    let next : suc i + n ≡ suc (i + n) = omega arith in
    ap (λ m. drop m (x ∷ xs)) next ∙ drop-drop i n xs

nil-length : (xs : Bytes) → length xs ≡ 0 → xs ≡ []
nil-length [] e = refl
nil-length (x ∷ xs) e = absurd (omega (arith, e))

ltb-true : (m n : ℕ) → ltb m n ≡ true → m < n
ltb-true m n e = ground (arith, e)

ltb-false : (m n : ℕ) → ltb m n ≡ false → n ≤ m
ltb-false m n e = ground (arith, e)

-- The measure of the loop goes down.
measure :
    (k k' p a b fuel : ℕ)
    → a ≤ p
    → (k' < k) ⊎ ((k' ≡ k) × (a < b))
    → k * suc p + b < suc fuel
    → k' * suc p + a < fuel
measure k k' p a b fuel h (inl less) lt = omega (arith, h, lt, mul-le-mul_right (suc p) less)
measure k k' p a b fuel h (inr (same, less)) lt = omega (arith, ap (λ m. m * suc p) same, less, lt)

module _ (lz : Lzma) (Accepts : Bytes → Type 0) (Gives : Bytes → Bytes → Type 0)
    (Z : IsLzma lz Accepts Gives) where
  write_from-more :
      (fuel : ℕ) (s : lz.State) (index : ℕ) (part : Bytes)
      → ltb index (length part) ≡ true
      → write_from lz (suc fuel) s index part
        ≡ (unwrap (lz.write s (drop index part)) >>= λ t. write_from lz fuel t.1 (index + t.0) part)
  unfolding write_from
  write_from-more fuel s index part e = rw (write_from, e) refl

  write_from-done :
      (fuel : ℕ) (s : lz.State) (index : ℕ) (part : Bytes)
      → ltb index (length part) ≡ false
      → write_from lz (suc fuel) s index part ≡ ok s
  unfolding write_from
  write_from-done fuel s index part e = rw (write_from, e) refl

  write_from_lem :
      (fuel : ℕ) (s : lz.State) (index : ℕ) (part : Bytes)
      → Accepts (Z.written s ++ drop index part)
      → (length part - index) * suc lz.patience + Z.pending s < fuel
      → (s' : lz.State) × (write_from lz fuel s index part ≡ ok s')
        × (Z.written s' ≡ Z.written s ++ drop index part)
  unfolding write_from
  write_from_lem zero s index part a h = absurd (omega (arith, h))
  write_from_lem (suc fuel) s index part a h = elim (Bool-cases (ltb index (length part))) [
    | inl e ↦
        let x = drop index part in
        let more = ltb-true index (length part) e in
        let len = length-drop index part in
        let (n, s₁, run₁, most, w₁, progress) =
          Z.write-takes s x (λ q. absurd (omega (arith, more, len, ap length q))) a in
        let split =
          append_assoc (Z.written s) (take n x) (drop n x)
          ∙ ap (λ t. Z.written s ++ t) (take-append-drop n x) in
        let rest =
          ap (λ t. Z.written s₁ ++ t) (drop-drop index n part)
          ∙ ap (λ w. w ++ drop n x) w₁
          ∙ split in
        let less : (length part - (index + n) < length part - index)
            ⊎ ((length part - (index + n) ≡ length part - index) × (Z.pending s₁ < Z.pending s)) =
          elim progress [
            | inl some_taken ↦ inl (omega (arith, some_taken, more))
            | inr p ↦ by_taken n (length part) index p more
          ] in
        let (s₂, run₂, w₂) =
          write_from_lem fuel s₁ (index + n) part (subst Accepts (sym rest) a)
            (measure _ _ lz.patience _ _ fuel (Z.pending-le s₁) less h) in
        (
          s₂,
          write_from-more fuel s index part e
              ∙ ap (λ r. unwrap r >>= λ t. write_from lz fuel t.1 (index + t.0) part) run₁
              ∙ run₂,
          w₂ ∙ rest,
        )
    | inr e ↦
        let none_left =
          nil-length (drop index part)
            (omega (arith, ltb-false index (length part) e, length-drop index part)) in
        (
          s,
          write_from-done fuel s index part e,
          sym (append-nil (Z.written s)) ∙ ap (λ t. Z.written s ++ t) (sym none_left),
        )
  ]
    where
      by_taken :
          {P : Type 0} (n len index : ℕ)
          → P
          → index < len
          → (len - (index + n) < len - index) ⊎ ((len - (index + n) ≡ len - index) × P)
      by_taken zero len index p more = inr (omega arith, p)
      by_taken (suc n) len index p more = inl (omega (arith, more))

  part-Takes : Takes (λ s x. write_from lz (rounds lz x) s 0 x) Z.written Accepts
  part-Takes = record {
    takes = λ s x a.
        write_from_lem (rounds lz x) s 0 x a
          (enough (length x) lz.patience (Z.pending s) (Z.pending-le s));
    front = Z.front;
  }
    where
      enough : (len p b : ℕ) → b ≤ p → (len - 0) * suc p + b < suc (suc len * suc p)
      enough len p b h =
          let same : len - 0 ≡ len = omega arith in omega (arith, h, ap (λ m. m * suc p) same)

  -- All the parts are written, and the result is that of the whole.
  pub xz_run_lem :
      (R : ArcRefs) (buf : SgData R) (out : Bytes)
      → Accepts (bytes R buf)
      → Gives (bytes R buf) out
      → xz_run R lz buf ≡ ok (SgData.from_single R out)
  unfolding xz_run
  xz_run_lem R buf out a g =
      let all = ap (λ x. x ++ bytes R buf) Z.start-nil in
      let (s, run, w) =
        write_parts-Takes R _ Z.written Accepts part-Takes Z.start buf
          (subst Accepts (sym all) a) in
      ap
        (λ r. unwrap r >>= λ t.
          write_parts R (λ t x. write_from lz (rounds lz x) t 0 x) t buf >>= λ t'.
          unwrap (lz.finish t') >>= λ o. ok (SgData.from_single R o))
        Z.new-ok
      ∙ ap (λ r. r >>= λ t'. unwrap (lz.finish t') >>= λ o. ok (SgData.from_single R o)) run
      ∙ ap (λ r. unwrap r >>= λ o. ok (SgData.from_single R o))
          (Z.finish-Gives s out (subst (λ x. Gives x out) (sym (w ∙ all)) g))
