-- ===== src/Hashing.antt =====
-- lib/src/hashing.rs: digests over scattered data.
pub mod Linear
use rdedup.Base.{
  ℕ, Bytes, length, take, Result, ok, panics, ◌>>=◌, List, [], ◌∷◌, leb, ◌==◌, if◌then◌else◌,
}
use rdedup.SgData.{ArcRefs, SgData}

abbrev pub digest_size : ℕ
digest_size = 32

-- A hash function of the crates `sha2` and `blake2`.
pub record StreamHash : Type 1 where
  pub State : Type 0
  pub default : State
  pub process : State → Bytes → State
  pub fixed_result : State → Bytes

-- `config::Hashing`, and the hasher that `to_hasher` makes of it.
pub data Hashing : Type 0 where
  sha256 blake2b : Hashing

-- `vec![0u8; DIGEST_SIZE].copy_from_slice(..)` panics if the lengths differ.
unfoldable pub copy_from_slice : Bytes → Result Bytes
copy_from_slice src = if length src == digest_size then ok src else panics

-- `&x[..n]`
unfoldable pub slice_to : ℕ → Bytes → Result Bytes
slice_to n x = if leb n (length x) then ok (take n x) else panics

-- `Sha256` and `Blake2b` differ in the length of their result.
unfoldable pub finish : Hashing → Bytes → Result Bytes
unfolding copy_from_slice slice_to
finish sha256 result = copy_from_slice result
finish blake2b result = do head ← slice_to digest_size result; copy_from_slice head

module _ (R : ArcRefs) (H : Hashing → StreamHash) where
  open R use {deref}

  process_parts : (h : Hashing) → (H h).State → SgData R → (H h).State
  process_parts h s [] = s
  process_parts h s (part ∷ parts) = process_parts h ((H h).process s (deref part)) parts

  unfoldable pub calculate_digest : Hashing → SgData R → Result Bytes
  unfolding process_parts finish
  calculate_digest h sg = finish h ((H h).fixed_result (process_parts h (H h).default sg))

module _ (H : Hashing → StreamHash) where
  unfoldable pub calculate_digest_simple : Hashing → Bytes → Result Bytes
  unfolding finish
  calculate_digest_simple h bytes =
      finish h ((H h).fixed_result ((H h).process (H h).default bytes))
