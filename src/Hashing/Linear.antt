-- ===== src/Hashing/Linear.antt =====
-- A digest does not depend on how the data is scattered.
use rdedup.Base.{ℕ, ◌≡◌, ◌∙◌, ap, sym, Bytes, length, length-take, take, ok, [], ◌∷◌, ◌++◌, arith}
use rdedup.SgData.{ArcRefs, SgData, bytes}
use rdedup.Hashing.{
  StreamHash, Hashing, sha256, blake2b, finish, process_parts, calculate_digest,
  calculate_digest_simple,
}

-- What the program relies on in the two crates: the data may come in pieces, SHA-256 has 32 bytes
-- and BLAKE2b has 64.
abbrev pub result_size : Hashing → ℕ
result_size sha256 = 32
result_size blake2b = 64

pub record IsStreamHash (H : Hashing → StreamHash) : Type 0 where
  pub process-nil : (h : Hashing) (s : (H h).State) → (H h).process s [] ≡ s
  pub process-append :
      (h : Hashing) (s : (H h).State) (x y : Bytes)
      → (H h).process ((H h).process s x) y ≡ (H h).process s (x ++ y)
  pub length-fixed_result :
      (h : Hashing) (s : (H h).State) → length ((H h).fixed_result s) ≡ result_size h

module _ (R : ArcRefs) (H : Hashing → StreamHash) (K : IsStreamHash H) where
  process_parts-eq :
      (h : Hashing) (s : (H h).State) (sg : SgData R)
      → process_parts R H h s sg ≡ (H h).process s (bytes R sg)
  unfolding process_parts
  process_parts-eq h s [] = sym (K.process-nil h s)
  process_parts-eq h s (p ∷ ps) =
      process_parts-eq h ((H h).process s (R.deref p)) ps
      ∙ K.process-append h s (R.deref p) (bytes R ps)

  -- The digest of scattered data is that of its bytes in one piece.
  pub calculate_digest-eq-simple :
      (h : Hashing) (sg : SgData R)
      → calculate_digest R H h sg ≡ calculate_digest_simple H h (bytes R sg)
  unfolding calculate_digest calculate_digest_simple
  calculate_digest-eq-simple h sg =
      ap (λ s. finish h ((H h).fixed_result s)) (process_parts-eq h (H h).default sg)

  finish-size :
      (h : Hashing) (r : Bytes)
      → length r ≡ result_size h
      → (d : Bytes) × (finish h r ≡ ok d) × (length d ≡ 32)
  unfolding finish
  finish-size sha256 r e = (r, ground (arith, e), e)
  finish-size blake2b r e =
      (take 32 r, ground (arith, e, length-take 32 r), omega (arith, length-take 32 r))

  -- A digest is always made, and has 32 bytes.
  pub calculate_digest-size :
      (h : Hashing) (sg : SgData R)
      → (d : Bytes) × (calculate_digest R H h sg ≡ ok d) × (length d ≡ 32)
  unfolding calculate_digest
  calculate_digest-size h sg = finish-size h _ (K.length-fixed_result h _)
