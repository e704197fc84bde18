-- ===== src/SgData.antt =====
-- sgdata/src/lib.rs: scattered data, a list of shared slices.
pub mod Laws
use rdedup.Base.{ℕ, ◌+◌, List, [], ◌∷◌, ◌++◌, map, Bool, Bytes, length, take, drop, ◌-◌, ◌==◌, ◌≡◌}

-- `ArcRef<Vec<u8>, [u8]>` of the crate `owning_ref`: a slice that keeps its owner alive. `slice i j`
-- is `map(|cur| &cur[i..j])`, and `owner` is what `into_inner` hands back.
pub record ArcRefs : Type 1 where
  pub Ref : Type 0
  pub new : Bytes → Ref
  pub deref : Ref → Bytes
  pub owner : Ref → Bytes
  pub slice : ℕ → ℕ → Ref → Ref

module _ (R : ArcRefs) where
  open R use {Ref, new, deref, owner, slice}

  -- `SGData(Vec<ArcRef<Vec<u8>, [u8]>>)`
  abbrev pub SgData : Type 0
  SgData = List Ref

  abbrev pub empty : SgData
  empty = []

  unfoldable pub from_many : List Bytes → SgData
  from_many v = map new v

  unfoldable pub from_single : Bytes → SgData
  unfolding from_many
  from_single v = from_many (v ∷ [])

  sum_len : ℕ → SgData → ℕ
  sum_len sum [] = sum
  sum_len sum (part ∷ parts) = sum_len (sum + length (deref part)) parts

  unfoldable pub len : SgData → ℕ
  unfolding sum_len
  len sg = sum_len 0 sg

  unfoldable pub is_empty : SgData → Bool
  unfolding len
  is_empty sg = len sg == 0

  unfoldable pub push_vec : SgData → Bytes → SgData
  push_vec sg v = sg ++ (new v ∷ [])

  unfoldable pub push_arcref : SgData → Ref → SgData
  push_arcref sg arcref = sg ++ (arcref ∷ [])

  -- The loop of `write_all` over the parts.
  write_parts : Bytes → SgData → Bytes
  write_parts v [] = v
  write_parts v (part ∷ parts) = write_parts (v ++ deref part) parts

  unfoldable pub to_linear : SgData → Ref
  unfolding write_parts
  to_linear [] = new []
  to_linear (part ∷ []) = part
  to_linear (part ∷ other ∷ parts) = new (write_parts [] (part ∷ other ∷ parts))

  -- One part gives back its owner, whole: unwrapped if nobody else holds it, else cloned.
  unfoldable pub to_linear_vec : SgData → Bytes
  unfolding write_parts
  to_linear_vec [] = []
  to_linear_vec (part ∷ []) = owner part
  to_linear_vec (part ∷ other ∷ parts) = write_parts [] (part ∷ other ∷ parts)

  -- What scattered data stands for: its bytes in order.
  abbrev pub bytes : SgData → Bytes
  bytes [] = []
  bytes (part ∷ parts) = deref part ++ bytes parts

-- What the program relies on in `ArcRef`.
pub record IsArcRef (R : ArcRefs) : Type 0 where
  pub deref-new : (v : Bytes) → R.deref (R.new v) ≡ v
  pub owner-new : (v : Bytes) → R.owner (R.new v) ≡ v
  pub deref-slice :
      (i j : ℕ) (r : R.Ref) → R.deref (R.slice i j r) ≡ take (j - i) (drop i (R.deref r))
  pub owner-slice : (i j : ℕ) (r : R.Ref) → R.owner (R.slice i j r) ≡ R.owner r
