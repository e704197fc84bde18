-- ===== src/Tests/Piped.antt =====
-- A reader over bytes in memory.
use rdedup.Base.{
  ℕ, zero, suc, ◌<◌, ◌≡◌, refl, inl, Bytes, take, drop, take-append-drop, length-take, ok, [], ◌∷◌,
  arith,
}
use rdedup.Input.{Reader, input_reader_thread}
use rdedup.Input.Whole.{IsReader, Sent, input_reader_thread-Sent}

-- It gives as much as the buffer takes.
abbrev slice : Reader
slice = record { State = Bytes; read = λ n s. (ok (take n s), drop n s) }

ends : (n : ℕ) (s : Bytes) → 0 < n → take n s ≡ [] → s ≡ []
ends zero s h e = absurd (omega (arith, h))
ends (suc n) [] h e = refl
ends (suc n) (b ∷ s) h e = absurd (cons-ne-nil e)
  where
    cons-ne-nil : b ∷ take n s ≡ [] → ⊥
    cons-ne-nil e = cc e

abbrev slice-IsReader : IsReader slice
slice-IsReader = record {
  left = λ s. s;
  reads = λ n s h.
      inl (
        take n s,
        drop n s,
        refl,
        take-append-drop n s,
        omega (arith, length-take n s),
        ends n s h,
      );
}

input_reader_thread-Sent_example :
    Sent slice slice-IsReader (4 ∷ 5 ∷ []) (input_reader_thread slice 3 (4 ∷ 5 ∷ []))
input_reader_thread-Sent_example = input_reader_thread-Sent slice slice-IsReader (4 ∷ 5 ∷ [])
