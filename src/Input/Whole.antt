-- ===== src/Input/Whole.antt =====
-- What the thread that reads the input sends.
use rdedup.Base.{
  ℕ, zero, suc, ◌<◌, ◌≤◌, ◌≡◌, ◌≢◌, refl, ◌∙◌, sym, ap, ◌⊎◌, inl, inr, Bytes, length, length-append,
  append_assoc, concat, All, Result, ok, err, panics, ErrorKind, List, [], ◌∷◌, ◌++◌, arith,
}
use rdedup.Input.{
  Reader, ingress_buffer_size, next_vec, read_item, new, take_item, next_ok, finish, send_each,
  send_loop, input_reader_thread,
}

-- What the program relies on in a reader: a read into a buffer that is not empty gives the next
-- bytes of what is left, none only at the end, or fails.
pub record IsReader (R : Reader) : Type 0 where
  pub left : R.State → Bytes
  pub reads :
      (n : ℕ) (s : R.State)
      → 0 < n
      → ((b : Bytes) × (s' : R.State) × (R.read n s ≡ (ok b, s'))
          × (b ++ left s' ≡ left s)
          × (length b ≤ n)
          × (b ≡ [] → left s ≡ []))
        ⊎ ((e : ErrorKind) × (s' : R.State) × (R.read n s ≡ (err e, s')))

module _ (R : Reader) (K : IsReader R) where
  -- The thread ended well with all of it sent, or it panicked with a part of it sent, from the front.
  abbrev pub Sent : Bytes → List Bytes × Result (Unit {0}) → Type 0
  Sent whole sent =
      All (λ b. (b ≢ []) × (length b ≤ ingress_buffer_size)) sent.0
      × (((sent.1 ≡ ok tt) × (concat sent.0 ≡ whole))
          ⊎ ((sent.1 ≡ panics) × ((rest : Bytes) × (concat sent.0 ++ rest ≡ whole))))

  send_loop_lem :
      (fuel : ℕ) (s : R.State)
      → length (K.left s) < fuel
      → Sent (K.left s) (send_loop R fuel ingress_buffer_size (new R s))
  unfolding send_loop next_ok next_vec read_item take_item send_each finish
  send_loop_lem zero s h = absurd (omega (arith, h))
  send_loop_lem (suc fuel) s h = elim (K.reads ingress_buffer_size s (omega arith)) [
    | inr (e, s', run) ↦ rw run (tt, inr (refl, (K.left s, refl)))
    | inl ([], s', run, split, most, end) ↦ rw run (tt, inl (refl, sym (end refl)))
    | inl (b ∷ buf, s', run, split, most, end) ↦
        let shorter : length (K.left s') < fuel =
          omega (arith, h, ap length split, length-append (b ∷ buf) (K.left s')) in
        let (each, out) = send_loop_lem fuel s' shorter in
        rw run (
          ((λ q. cc q, most), each),
          (elim out [
            | inl (r, all) ↦ inl (r, ap (λ t. (b ∷ buf) ++ t) all ∙ split)
            | inr (r, (rest, part)) ↦
                inr
                  (r, (rest, append_assoc (b ∷ buf) _ rest ∙ ap (λ t. (b ∷ buf) ++ t) part ∙ split))
          ]),
        )
  ]

  -- The thread ends within as many rounds as there are bytes and one. What it sends are buffers of
  -- at least a byte and at most the buffer's size. Either it ends well, and they are together what
  -- the reader had, or it panics, and they are a front part of that.
  pub input_reader_thread-Sent :
      (s : R.State) → Sent (K.left s) (input_reader_thread R (suc (length (K.left s))) s)
  unfolding input_reader_thread
  input_reader_thread-Sent s = send_loop_lem (suc (length (K.left s))) s (omega arith)
