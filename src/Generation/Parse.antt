-- ===== src/Generation/Parse.antt =====
-- A generation is read back from its name.
use rdedup.Generation.{
  parse_u64, Generation, hex_digit, hex_number, to_string, split, Decoders, parse_parts, try_from,
}
use mathlib.Core.List.{reverse, reverse-append}
use rdedup.Base.{
  ℕ, zero, suc, ◌/◌, ◌%◌, ◌^◌, ◌<◌, ◌≡◌, refl, ◌∙◌, ap, sym, ◌≢◌, some, [], ◌∷◌, ◌++◌, Bytes,
  length, length-append, All, All-append, ok, arith, ==_iff,
}
use rdedup.Generation.Digits.{
  be_bytes, be_bytes-All-byte, hex_bytes, le_value, length-hex_number, length-be_bytes,
  hex_number-eq, le_value-be_bytes,
}

-- What the program relies on in the two crates: two lower-case digits are a byte, and eight
-- little-endian bytes are a `u64`.
pub record IsDecoders (D : Decoders) : Type 0 where
  pub from_hex-hex_bytes :
      (bs : Bytes) → All (λ b. b < 256) bs → D.from_hex (hex_bytes bs) ≡ some bs
  pub decode_u64-eight :
      (bs : Bytes) → All (λ b. b < 256) bs → length bs ≡ 8 → D.decode_u64 bs ≡ some (le_value bs)

abbrev pub IsU64 : Generation → Type 0
IsU64 g = (g.seq < 2 ^ 64) × (g.rand < 2 ^ 64)

hex_digit-ne-dash : (n : ℕ) → n < 16 → hex_digit n ≢ b'-'
unfolding hex_digit
hex_digit-ne-dash n h e = ground arith

hex_number-All-ne : (w n : ℕ) → All (λ c. c ≢ b'-') (hex_number w n)
unfolding hex_number
hex_number-All-ne zero n = tt
hex_number-All-ne (suc w) n =
    All-append (λ c. c ≢ b'-') (hex_number w (n / 16)) (hex_digit (n % 16) ∷ [])
      (hex_number-All-ne w (n / 16)) (hex_digit-ne-dash (n % 16) (omega arith), tt)

split-absent : (sep : ℕ) (s : Bytes) → All (λ c. c ≢ sep) s → split sep s ≡ s ∷ []
unfolding split
split-absent sep [] a = refl
split-absent sep (c ∷ s) a = rw (split-absent sep s a.1) (ground (arith, a.0))

split-one :
    (sep : ℕ) (s t : Bytes)
    → All (λ c. c ≢ sep) s
    → All (λ c. c ≢ sep) t
    → split sep (s ++ (sep ∷ t)) ≡ s ∷ t ∷ []
unfolding split
split-one sep [] t a b = rw (split-absent sep t b, (==_iff sep sep).1 refl)
split-one sep (c ∷ s) t a b = rw (split-one sep s t a.1 b) (ground (arith, a.0))

All-reverse : (P : ℕ → Type 0) (xs : Bytes) → All P xs → All P (reverse xs)
All-reverse P [] a = tt
All-reverse P (x ∷ xs) a =
    rw (reverse-append (x ∷ []) xs)
      (All-append P (reverse xs) (x ∷ []) (All-reverse P xs a.1) (a.0, tt))

length-reverse : (xs : Bytes) → length (reverse xs) ≡ length xs
length-reverse [] = refl
length-reverse (x ∷ xs) =
    rw (reverse-append (x ∷ []) xs)
      (omega (arith, length-append (reverse xs) (x ∷ []), length-reverse xs))

module _ (D : Decoders) (K : IsDecoders D) where
  decode-hex_number : (n : ℕ) → n < 2 ^ 64 → parse_u64 D (D.from_hex (hex_number 16 n)) ≡ ok n
  unfolding parse_u64
  decode-hex_number n h =
      rw (hex_number-eq 8 n, K.from_hex-hex_bytes (be_bytes 8 n) (be_bytes-All-byte 8 n))
        (rw
          (
            parse_u64,
            K.decode_u64-eight (reverse (be_bytes 8 n))
                (All-reverse (λ b. b < 256) (be_bytes 8 n) (be_bytes-All-byte 8 n))
                (length-reverse (be_bytes 8 n) ∙ length-be_bytes 8 n),
          )
          (ap ok (le_value-be_bytes 8 n h)))

  -- The name of a generation of two `u64` parses to that generation.
  pub try_from-to_string : (g : Generation) → IsU64 g → try_from D (to_string g) ≡ ok g
  unfolding try_from to_string
  try_from-to_string g (hs, hr) =
      rw
        (split-one b'-' (hex_number 16 g.seq) (hex_number 16 g.rand) (hex_number-All-ne 16 g.seq)
          (hex_number-All-ne 16 g.rand))
        (rw (parse_parts, length-hex_number 16 g.seq, length-hex_number 16 g.rand)
          (rw (decode-hex_number g.rand hr, decode-hex_number g.seq hs) refl))

  -- Two generations of the same name are the same.
  pub to_string-injective :
      (g h : Generation) → IsU64 g → IsU64 h → to_string g ≡ to_string h → g ≡ h
  to_string-injective g h kg kh e =
      let same : ok g ≡ ok h =
        sym (try_from-to_string g kg) ∙ ap (try_from D) e ∙ try_from-to_string h kh in
      cc same
