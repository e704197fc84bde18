-- ===== src/Generation/Digits.antt =====
-- Sixteen hexadecimal digits are eight bytes, and the bytes are the number.
use rdedup.Base.{
  All, All-append, ℕ, zero, suc, ◌+◌, ◌*◌, ◌/◌, ◌%◌, ◌^◌, ◌<◌, ◌≡◌, refl, ap, [], ◌∷◌, ◌++◌, Bytes,
  length, length-append, append_assoc, arith,
}
use mathlib.Core.List.{reverse, reverse-append}
use native.Mathlib.Nat.{pow-suc}
use rdedup.Generation.{hex_digit, hex_number}

-- The big-endian bytes of a number below 256 ^ k.
unfoldable pub be_bytes : ℕ → ℕ → Bytes
be_bytes zero n = []
be_bytes (suc k) n = be_bytes k (n / 256) ++ (n % 256 ∷ [])

unfoldable pub hex_bytes : Bytes → Bytes
hex_bytes [] = []
hex_bytes (b ∷ bs) = hex_digit (b / 16) ∷ hex_digit (b % 16) ∷ hex_bytes bs

unfoldable pub le_value : Bytes → ℕ
le_value [] = 0
le_value (b ∷ bs) = b + 256 * le_value bs

abbrev pub double : ℕ → ℕ
double zero = 0
double (suc n) = suc (suc (double n))

hex_bytes-append : (xs ys : Bytes) → hex_bytes (xs ++ ys) ≡ hex_bytes xs ++ hex_bytes ys
unfolding hex_bytes
hex_bytes-append [] ys = refl
hex_bytes-append (x ∷ xs) ys =
    ap (λ r. hex_digit (x / 16) ∷ hex_digit (x % 16) ∷ r) (hex_bytes-append xs ys)

pub length-hex_number : (w n : ℕ) → length (hex_number w n) ≡ w
unfolding hex_number
length-hex_number zero n = refl
length-hex_number (suc w) n = omega (
  arith,
  length-append (hex_number w (n / 16)) (hex_digit (n % 16) ∷ []),
  length-hex_number w (n / 16),
)

pub length-be_bytes : (k n : ℕ) → length (be_bytes k n) ≡ k
unfolding be_bytes
length-be_bytes zero n = refl
length-be_bytes (suc k) n =
    omega (arith, length-append (be_bytes k (n / 256)) (n % 256 ∷ []), length-be_bytes k (n / 256))

pub hex_number-eq : (k n : ℕ) → hex_number (double k) n ≡ hex_bytes (be_bytes k n)
unfolding hex_number be_bytes hex_bytes
hex_number-eq zero n = refl
hex_number-eq (suc k) n =
    let quarter : n / 16 / 16 ≡ n / 256 = omega arith in
    let high : n / 16 % 16 ≡ n % 256 / 16 = omega arith in
    let low : n % 16 ≡ n % 256 % 16 = omega arith in
    rw (hex_bytes-append, quarter, high, low, hex_number-eq k (n / 256))
      (append_assoc (hex_bytes (be_bytes k (n / 256))) (hex_digit (n % 256 / 16) ∷ [])
        (hex_digit (n % 256 % 16) ∷ []))

quotient-lt : (k n : ℕ) → n < 256 ^ suc k → n / 256 < 256 ^ k
quotient-lt k n h = omega (arith, pow-suc 256 k)

pub le_value-be_bytes : (k n : ℕ) → n < 256 ^ k → le_value (reverse (be_bytes k n)) ≡ n
unfolding le_value be_bytes
le_value-be_bytes zero n h = omega arith
le_value-be_bytes (suc k) n h =
    let below : n / 256 < 256 ^ k = quotient-lt k n h in
    rw reverse-append (omega (arith, le_value-be_bytes k (n / 256) below))

pub be_bytes-All-byte : (k n : ℕ) → All (λ b. b < 256) (be_bytes k n)
unfolding be_bytes
be_bytes-All-byte zero n = tt
be_bytes-All-byte (suc k) n =
    All-append (λ b. b < 256) (be_bytes k (n / 256)) (n % 256 ∷ []) (be_bytes-All-byte k (n / 256))
      (omega arith, tt)
