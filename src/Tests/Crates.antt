-- ===== src/Tests/Crates.antt =====
-- A stand-in for each crate, with the laws the theorems ask of it.
use rdedup.Base.{
  ℕ, zero, suc, ◌+◌, ◌*◌, ◌-◌, ◌/◌, ◌%◌, ◌<◌, ◌≡◌, refl, ap, subst, Bytes, length, take, drop,
  Option, none, some, [], ◌∷◌, ◌++◌, append-nil, append_assoc, ltb, ◌==◌, if◌then◌else◌, All, arith,
  ok,
}
use rdedup.SgData.{ArcRefs, IsArcRef}
use rdedup.Chunking.{Chunking, IsChunking}
use rdedup.Generation.{Decoders, hex_digit}
use rdedup.Generation.Digits.{hex_bytes, le_value}
use rdedup.Generation.Parse.{IsDecoders}
use rdedup.Hashing.{StreamHash, Hashing}
use rdedup.Hashing.Linear.{IsStreamHash, result_size}
use rdedup.Encryption.{Sodium}
use rdedup.Encryption.Chunks.{IsSodium}
use rdedup.Config.{PwCrate}

-- A slice with the vector it is part of.
abbrev pub window : ArcRefs
window = record {
  Ref = Bytes × Bytes;
  new = λ v. (v, v);
  deref = λ r. r.1;
  owner = λ r. r.0;
  slice = λ i j r. (r.0, take (j - i) (drop i r.1));
}

pub window-IsArcRef : IsArcRef window
window-IsArcRef = record {
  deref-new = λ v. refl;
  owner-new = λ v. refl;
  deref-slice = λ i j r. refl;
  owner-slice = λ i j r. refl;
}

-- An edge behind every byte that is 0.
unfoldable pub at_zero : Bytes → Option (Bytes × Bytes)
at_zero [] = none
at_zero (zero ∷ buf) = some (0 ∷ [], buf)
at_zero (suc b ∷ buf) = elim (at_zero buf) [
  | none ↦ none
  | some (last, rest) ↦ some (suc b ∷ last, rest)
]

abbrev pub zeros : Chunking
zeros = record { Engine = Unit; find_chunk = λ g buf. (g, at_zero buf) }

abbrev Splits : Bytes → Option (Bytes × Bytes) → Type 0
Splits buf none = Unit
Splits buf (some (last, rest)) = (last ++ rest ≡ buf) × (0 < length last)

at_zero-Splits : (buf : Bytes) → Splits buf (at_zero buf)
unfolding at_zero
at_zero-Splits [] = tt
at_zero-Splits (zero ∷ buf) = (refl, omega arith)
at_zero-Splits (suc b ∷ buf) = go (at_zero buf) (at_zero-Splits buf)
  where
    go :
        (o : Option (Bytes × Bytes))
        → Splits buf o
        → Splits
            (suc b ∷ buf)
            (elim o [ none ↦ none | some (last, rest) ↦ some (suc b ∷ last, rest) ])
    go none p = tt
    go (some (last, rest)) p = (ap (λ q. suc b ∷ q) p.0, omega arith)

pub zeros-IsChunking : IsChunking zeros
zeros-IsChunking = record { splits = λ g buf e. subst (Splits buf) e (at_zero-Splits buf) }

-- The first `n` bytes, filled up with 0.
abbrev pub pad : ℕ → Bytes → Bytes
pad zero s = []
pad (suc n) [] = 0 ∷ pad n []
pad (suc n) (b ∷ s) = b ∷ pad n s

pub length-pad : (n : ℕ) (s : Bytes) → length (pad n s) ≡ n
length-pad zero s = refl
length-pad (suc n) [] = ap suc (length-pad n [])
length-pad (suc n) (b ∷ s) = ap suc (length-pad n s)

-- The first bytes of the data stand for its hash.
abbrev pub prefix_hash : Hashing → StreamHash
prefix_hash h = record {
  State = Bytes;
  default = [];
  process = λ s x. s ++ x;
  fixed_result = λ s. pad (result_size h) s;
}

pub prefix_hash-IsStreamHash : IsStreamHash prefix_hash
prefix_hash-IsStreamHash = record {
  process-nil = λ h s. append-nil s;
  process-append = λ h s x y. append_assoc s x y;
  length-fixed_result = λ h s. length-pad (result_size h) s;
}

-- A box holds its message behind a byte that marks it as sealed.
unfoldable pub open_box : Bytes → Option Bytes
open_box [] = none
open_box (b ∷ m) = if b == 1 then some m else none

abbrev pub marked : Sodium
marked = record {
  Seed = ℕ;
  nonce_bytes = 24;
  public_key_bytes = 32;
  secret_key_bytes = 32;
  gen_keypair = λ s. (pad 32 (s ∷ []), pad 32 (s ∷ 1 ∷ []));
  seal = λ m n pk sk. 1 ∷ m;
  unseal = λ c n pk sk. open_box c;
  gen_nonce = λ s. pad 24 (s ∷ []);
  secret_seal = λ m n k. 1 ∷ m;
  secret_unseal = λ c n k. open_box c;
  derive_key = λ p. ok (pad 32 p);
}

pub marked-IsSodium : IsSodium marked
unfolding open_box
marked-IsSodium = record {
  nonce-le = omega arith;
  length-pub = λ s. length-pad 32 (s ∷ []);
  length-sec = λ s. length-pad 32 (s ∷ 1 ∷ []);
  unseal-seal = λ s e m n. refl;
  secret_unseal-seal = λ m n k. refl;
}

abbrev pub padded : PwCrate
padded = record {
  ops_interactive = 4;
  mem_interactive = 5;
  ops_sensitive = 6;
  mem_sensitive = 7;
  derive_key = λ ops mem salt p. some (pad 32 (salt ++ p));
}

digit_value : ℕ → ℕ
digit_value c = if ltb c 58 then c - 48 else c - 87

unfoldable pub from_hex : Bytes → Option Bytes
unfolding digit_value
from_hex [] = some []
from_hex (a ∷ []) = none
from_hex (a ∷ b ∷ s) = elim (from_hex s) [
  | none ↦ none
  | some bs ↦ some ((digit_value a * 16 + digit_value b) ∷ bs)
]

unfoldable pub decode_u64 : Bytes → Option ℕ
decode_u64 bs = if length bs == 8 then some (le_value bs) else none

abbrev pub decoders : Decoders
decoders = record { from_hex = from_hex; decode_u64 = decode_u64 }

digit_value-hex_digit : (n : ℕ) → n < 16 → digit_value (hex_digit n) ≡ n
unfolding digit_value hex_digit
digit_value-hex_digit n h = ground arith

from_hex-hex_bytes : (bs : Bytes) → All (λ b. b < 256) bs → from_hex (hex_bytes bs) ≡ some bs
unfolding from_hex hex_bytes
from_hex-hex_bytes [] a = refl
from_hex-hex_bytes (b ∷ bs) a =
    let both : b / 16 * 16 + b % 16 ≡ b = omega arith in
    rw (
      from_hex-hex_bytes bs a.1,
      digit_value-hex_digit (b / 16) (omega (arith, a.0)),
      digit_value-hex_digit (b % 16) (omega arith),
      both,
    )

decode_u64-eight : (bs : Bytes) → length bs ≡ 8 → decode_u64 bs ≡ some (le_value bs)
unfolding decode_u64
decode_u64-eight bs e = ground (arith, e)

pub decoders-IsDecoders : IsDecoders decoders
decoders-IsDecoders = record {
  from_hex-hex_bytes = from_hex-hex_bytes;
  decode_u64-eight = λ bs a e. decode_u64-eight bs e;
}
