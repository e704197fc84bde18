-- ===== src/Generation.antt =====
-- lib/src/generation.rs: generations and their names as directories.
pub mod Digits
pub mod Parse
use rdedup.Base.{
  ℕ, zero, suc, ◌+◌, ◌-◌, ◌/◌, ◌%◌, ◌<◌, ◌^◌, ltb, ◌==◌, if◌then◌else◌, Option, none, some, List,
  [], ◌∷◌, ◌++◌, Result, ok, err, panics, not_found, ◌>>=◌, ◌>>◌, ErrorKind, Bytes, length, codes,
  add_u64, ◌≡◌, All, Bool, ◌&&◌, ◌||◌, true, false,
}
use mathlib.Core.List.{reverse}

pub record Generation : Type 0 where
  pub seq : ℕ
  pub rand : ℕ

-- The derived order compares `seq` first.
unfoldable pub gen_lt : Generation → Generation → Bool
gen_lt g h = ltb g.seq h.seq || ((g.seq == h.seq) && ltb g.rand h.rand)

unfoldable pub hex_digit : ℕ → ℕ
hex_digit n = if ltb n 10 then n + 48 else n + 87

-- `{:0width$x}` of a number below 16 ^ width.
unfoldable pub hex_number : ℕ → ℕ → Bytes
unfolding hex_digit
hex_number zero n = []
hex_number (suc width) n = hex_number width (n / 16) ++ (hex_digit (n % 16) ∷ [])

unfoldable pub to_string : Generation → Bytes
unfolding hex_number
to_string g = hex_number 16 g.seq ++ (b'-' ∷ hex_number 16 g.rand)

cons_piece : ℕ → List Bytes → List Bytes
cons_piece c [] = (c ∷ []) ∷ []
cons_piece c (piece ∷ pieces) = (c ∷ piece) ∷ pieces

-- `str::split`
unfoldable pub split : ℕ → Bytes → List Bytes
unfolding cons_piece
split sep [] = [] ∷ []
split sep (c ∷ s) =
    let pieces = split sep s in if c == sep then [] ∷ pieces else cons_piece c pieces

-- `FromHex::from_hex` of the crate `hex` and `ByteDecodable::decode::<u64>` of the crate `bytevec`.
pub record Decoders : Type 0 where
  pub from_hex : Bytes → Option Bytes
  pub decode_u64 : Bytes → Option ℕ

module _ (D : Decoders) where
  -- A part that is no hexadecimal text is an error; bytes that do not decode fail an `unwrap`.
  parse_u64 : Option Bytes → Result ℕ
  parse_u64 none = err not_found
  parse_u64 (some bytes) = elim (D.decode_u64 (reverse bytes)) [ none ↦ panics | some n ↦ ok n ]

  guard : Bool → Result (Unit {0})
  guard true = ok tt
  guard false = err not_found

  parse_parts : List Bytes → Result Generation
  unfolding parse_u64 guard
  parse_parts (seq_s ∷ rand_s ∷ []) = do
    guard (length rand_s == 16)
    guard (length seq_s == 16)
    rand ← parse_u64 (D.from_hex rand_s)
    seq ← parse_u64 (D.from_hex seq_s)
    ok (record { seq = seq; rand = rand })
  parse_parts _ = err not_found

  unfoldable pub try_from : Bytes → Result Generation
  unfolding parse_parts split
  try_from s = parse_parts (split b'-' s)

-- `rand` is the number that `thread_rng().next_u64()` draws. `self.seq + 1` wraps in a release build.
unfoldable pub gen_next : ℕ → Generation → Generation
gen_next rand g = record { seq = add_u64 g.seq 1; rand = rand }

unfoldable pub gen_first : ℕ → Generation
gen_first rand = record { seq = 0; rand = rand }
