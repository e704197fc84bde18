-- ===== src/Compression/Parts.antt =====
-- `SGReader` of lib/src/compression.rs hands out the bytes of scattered data.
use Prim.Native.Nat.{min}
use rdedup.Base.{
  ℕ, zero, suc, ◌+◌, ◌<◌, ◌≤◌, ◌≡◌, refl, ◌∙◌, sym, ap, subst, false, ltb, Bytes, length,
  length-drop, length-take, take, drop, take-append-drop, Result, ok, [], ◌∷◌, ◌++◌, append_assoc,
  arith,
}
use rdedup.SgData.{ArcRefs, SgData, bytes}
use rdedup.Input.{Reader}
use rdedup.Compression.{SgReader, on_slice, at_part, read_loop, sg_reader, new_reader}
use rdedup.Compression.Xz.{drop-drop}

-- A reader that gives all it has: each read into a buffer that is not empty gives the next bytes, and
-- none only at the end.
pub record GivesAll (r : Reader) (start : r.State) (b : Bytes) : Type 1 where
  pub Mine : r.State → Type 0
  pub left : r.State → Bytes
  pub start-Mine : Mine start
  pub start-left : left start ≡ b
  pub reads :
      (n : ℕ) (s : r.State)
      → 0 < n
      → Mine s
      → (x : Bytes) × (s' : r.State) × (r.read n s ≡ (ok x, s'))
        × Mine s'
        × (x ++ left s' ≡ left s)
        × (length x ≤ n)
        × (x ≡ [] → left s ≡ [])

module _ (R : ArcRefs) where
  -- The part that is read lies before its end.
  InPart : SgData R → ℕ → Type 0
  InPart [] offset = Unit
  InPart (p ∷ ps) offset = offset ≤ length (R.deref p)

  rest_of : SgData R → ℕ → Bytes
  rest_of [] offset = []
  rest_of (p ∷ ps) offset = drop offset (R.deref p) ++ bytes R ps

  Mine : SgReader R → Type 0
  unfolding InPart
  Mine s = InPart (drop s.parts_i s.parts) s.part_offset

  left : SgReader R → Bytes
  unfolding rest_of
  left s = rest_of (drop s.parts_i s.parts) s.part_offset

  Gives : ℕ → SgReader R → Result Bytes × SgReader R → Type 0
  unfolding Mine left
  Gives n s run =
      (x : Bytes) × (s' : SgReader R) × (run ≡ (ok x, s'))
      × Mine s'
      × (x ++ left s' ≡ left s)
      × (length x ≤ n)
      × (x ≡ [] → left s ≡ [])

  rest_of-start : (ps : SgData R) → rest_of ps 0 ≡ bytes R ps
  unfolding rest_of
  rest_of-start [] = refl
  rest_of-start (p ∷ ps) = refl

  InPart-start : (ps : SgData R) → InPart ps 0
  unfolding InPart
  InPart-start [] = tt
  InPart-start (p ∷ ps) = omega arith

  drop-next :
      (i : ℕ) (xs : SgData R) (y : R.Ref) (ys : SgData R)
      → drop i xs ≡ y ∷ ys
      → drop (i + 1) xs ≡ ys
  drop-next i xs y ys e = drop-drop i 1 xs ∙ ap (drop 1) e

  -- An empty slice: the next part has the same bytes left.
  Gives-next :
      (n : ℕ) (s t : SgReader R) (run : Result Bytes × SgReader R)
      → left t ≡ left s
      → Gives n t run
      → Gives n s run
  unfolding Gives
  Gives-next n s t run same (x, s', e, mine, split, most, end) =
      (x, s', e, mine, split ∙ same, most, λ q. sym same ∙ end q)

  on_slice-Gives :
      (n : ℕ) (s : SgReader R) (p : R.Ref) (ps : SgData R) (cur : Bytes)
      (again : Result Bytes × SgReader R)
      → 0 < n
      → drop s.parts_i s.parts ≡ p ∷ ps
      → drop s.part_offset (R.deref p) ≡ cur
      → (cur ≡ [] → Gives n s again)
      → Gives n s (on_slice R n cur s again)
  unfolding on_slice Gives Mine left InPart rest_of
  on_slice-Gives n s p ps [] again h e c next = next refl
  on_slice-Gives n s p ps (b ∷ cur) again h e c next =
      let m = min n (length (b ∷ cur)) in
      let x = take m (b ∷ cur) in
      let taken = length-take m (b ∷ cur) in
      let o = s.part_offset in
      let after : drop (o + m) (R.deref p) ≡ drop m (b ∷ cur) =
        drop-drop o m (R.deref p) ∙ ap (drop m) c in
      let long = length-drop o (R.deref p) in
      (
        x,
        record s { part_offset = o + m },
        refl,
        subst (λ here. InPart here (o + m)) (sym e) (omega (arith, long, ap length c)),
        ap (λ here. x ++ rest_of here (o + m)) e
            ∙ ap (λ t. x ++ (t ++ bytes R ps)) after
            ∙ sym (append_assoc x (drop m (b ∷ cur)) (bytes R ps))
            ∙ ap (λ t. t ++ bytes R ps) (take-append-drop m (b ∷ cur) ∙ sym c)
            ∙ sym (ap (λ here. rest_of here o) e),
        omega (arith, taken),
        λ q. absurd (omega (arith, taken, ap length q, h)),
      )

  at_part-Gives :
      (n : ℕ) (s : SgReader R) (here : SgData R) (again : Result Bytes × SgReader R)
      → 0 < n
      → Mine s
      → drop s.parts_i s.parts ≡ here
      → ((p : R.Ref) (ps : SgData R)
          → here ≡ p ∷ ps
          → drop s.part_offset (R.deref p) ≡ []
          → Gives n s again)
      → Gives n s (at_part R n here s again)
  unfolding at_part Gives Mine left InPart rest_of
  at_part-Gives n s [] again h mine e next =
      ([], s, refl, mine, refl, omega arith, λ _. ap (λ here. rest_of here s.part_offset) e)
  at_part-Gives n s (p ∷ ps) again h mine e next =
      let inside : s.part_offset ≤ length (R.deref p) =
        subst (λ here. InPart here s.part_offset) e mine in
      let cur = drop s.part_offset (R.deref p) in
      rw (skip s.part_offset (length (R.deref p)) inside)
        (on_slice-Gives n s p ps cur again h e refl (λ q. next p ps refl q))
    where
      skip : (o len : ℕ) → o ≤ len → ltb len o ≡ false
      skip o len h = ground (arith, h)

  read_loop-Gives :
      (fuel n : ℕ) (s : SgReader R)
      → 0 < n
      → Mine s
      → length (drop s.parts_i s.parts) < fuel
      → Gives n s (read_loop R fuel n s)
  unfolding read_loop Mine left rest_of
  read_loop-Gives zero n s h mine f = absurd (omega (arith, f))
  read_loop-Gives (suc fuel) n s h mine f =
      let t = record s { parts_i = s.parts_i + 1; part_offset = 0 } in
      at_part-Gives n s (drop s.parts_i s.parts) (read_loop R fuel n t) h mine refl (λ p ps e q.
        let next = drop-next s.parts_i s.parts p ps e in
        Gives-next n s t (read_loop R fuel n t) (left-next s p ps e q) (
          read_loop-Gives fuel n t h (Mine-start s)
            (omega (arith, f, ap length e, ap length next))))
    where
      Mine-start : (s : SgReader R) → Mine (record s { parts_i = s.parts_i + 1; part_offset = 0 })
      Mine-start s = InPart-start (drop (s.parts_i + 1) s.parts)

      left-next :
          (s : SgReader R) (p : R.Ref) (ps : SgData R)
          → drop s.parts_i s.parts ≡ p ∷ ps
          → drop s.part_offset (R.deref p) ≡ []
          → left (record s { parts_i = s.parts_i + 1; part_offset = 0 }) ≡ left s
      left-next s p ps e q =
          ap (λ here. rest_of here 0) (drop-next s.parts_i s.parts p ps e)
          ∙ rest_of-start ps
          ∙ ap (λ x. x ++ bytes R ps) (sym q)
          ∙ sym (ap (λ here. rest_of here s.part_offset) e)

  -- It hands out all the bytes, and ends.
  pub sg_reader-GivesAll : (sg : SgData R) → GivesAll (sg_reader R) (new_reader R sg) (bytes R sg)
  unfolding Mine left Gives
  sg_reader-GivesAll sg = record {
    Mine = Mine;
    left = left;
    start-Mine = InPart-start sg;
    start-left = rest_of-start sg;
    reads = λ n s h mine.
        read_loop-Gives (suc (length s.parts)) n s h mine
          (omega (arith, length-drop s.parts_i s.parts));
  }
