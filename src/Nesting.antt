-- ===== src/Nesting.antt =====
-- `Nesting::get_path` of lib/src/config/mod.rs: where a chunk lies.
use rdedup.Base.{
  sym, append-nil, append_assoc, true, ◌∙◌, ℕ, zero, suc, ◌+◌, ◌*◌, ◌≤◌, ◌≡◌, refl, ap, Bytes,
  codes, length, take, drop, Result, ok, panics, ◌>>=◌, List, [], ◌∷◌, ◌++◌, leb, if◌then◌else◌,
  arith,
}

-- A path is the list of its components.
abbrev pub FilePath : Type 0
FilePath = List Bytes

abbrev pub data_subdir : Bytes
data_subdir = codes "chunk"

-- `&hex_digest[start..end]` with `end = start + 2`.
unfoldable pub slice_two : Bytes → ℕ → Result Bytes
slice_two hex start = if leb (start + 2) (length hex) then ok (take 2 (drop start hex)) else panics

-- The rounds `i` to `i + n` of the loop over the levels.
unfoldable pub join_levels : ℕ → ℕ → Bytes → FilePath → Result FilePath
unfolding slice_two
join_levels zero i hex dir = ok dir
join_levels (suc n) i hex dir = do
  piece ← slice_two hex (i * 2)
  join_levels n (i + 1) hex (dir ++ (piece ∷ []))

-- `hex_encode` is that of the crate `hex`.
unfoldable pub get_path : (Bytes → Bytes) → ℕ → Bytes → Bytes → Bytes → Result FilePath
get_path hex_encode levels base digest gen_str = do
  dir ← join_levels levels 0 (hex_encode digest) (gen_str ∷ base ∷ [])
  ok (dir ++ (hex_encode digest ∷ []))

-- The directories for the first levels.
unfoldable pub level_dirs : ℕ → ℕ → Bytes → FilePath
level_dirs zero i hex = []
level_dirs (suc n) i hex = take 2 (drop (i * 2) hex) ∷ level_dirs n (i + 1) hex

unfoldable pub chunk_path : (Bytes → Bytes) → ℕ → Bytes → Bytes → FilePath
chunk_path hex_encode levels gen_str digest =
    (gen_str ∷ data_subdir ∷ level_dirs levels 0 (hex_encode digest)) ++ (hex_encode digest ∷ [])

join_levels-eq :
    (n i : ℕ) (hex : Bytes) (dir : FilePath)
    → (i + n) * 2 ≤ length hex
    → join_levels n i hex dir ≡ ok (dir ++ level_dirs n i hex)
unfolding join_levels level_dirs
join_levels-eq zero i hex dir h = ap ok (sym (append-nil dir))
join_levels-eq (suc n) i hex dir h = rw (fits (i * 2 + 2) (length hex) (omega arith)) (
    join_levels-eq n (i + 1) hex (dir ++ (take 2 (drop (i * 2) hex) ∷ [])) (omega arith)
    ∙ ap ok (append_assoc dir (take 2 (drop (i * 2) hex) ∷ []) (level_dirs n (i + 1) hex)))
  where
    fits : (a b : ℕ) → a ≤ b → leb a b ≡ true
    fits a b le = ground arith

-- With two digits for each byte of a digest of 32 bytes and at most 32 levels no slice is out of
-- range, and the path is that of the chunk.
pub get_path-eq :
    (hex_encode : Bytes → Bytes) (levels : ℕ) (gen_str digest : Bytes)
    → ((b : Bytes) → length (hex_encode b) ≡ 2 * length b)
    → length digest ≡ 32
    → levels ≤ 32
    → get_path hex_encode levels data_subdir digest gen_str
      ≡ ok (chunk_path hex_encode levels gen_str digest)
unfolding get_path chunk_path
get_path-eq hex_encode levels gen_str digest two d l =
    rw
      (join_levels-eq levels 0 (hex_encode digest) (gen_str ∷ data_subdir ∷ [])
        (omega (arith, two digest)))
      refl
