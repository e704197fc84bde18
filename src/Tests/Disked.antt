-- ===== src/Tests/Disked.antt =====
-- The local backend on a disk that is empty at first.
use rdedup.Local.Walks.{sent_files, files_of, sent_errors, errors_of, Fits, batches-Sends}
use rdedup.Base.{
  ℕ, suc, ◌≡◌, ◌≢◌, refl, ◌∙◌, sym, inl, inr, true, ltb, if◌then◌else◌, Bytes, codes, All, some, ok,
  not_found, [], ◌∷◌, arith, map, if_pos,
}
use rdedup.Aio.{Layout, Key, Key-discrete, chunk, key_path}
use rdedup.Disk
use rdedup.Disk.{Disk, file_at}
use rdedup.Local
use rdedup.Local.{Walk, batches}
use rdedup.Local.Shapes.{IsHex}
use rdedup.Local.Sound.{sound}
use rdedup.Local.Backends.{SoundDisk, guarded}
use rdedup.Local.Directories.{local-refines}
use rdedup.Tests.Crates.{window, window-IsArcRef}

-- Two digits for each byte, none of them a `p`.
digit_of : ℕ → ℕ
digit_of n = if ltb n b'p' then n else suc n

twice_digits : Bytes → Bytes
unfolding digit_of
twice_digits [] = []
twice_digits (b ∷ bs) = digit_of b ∷ digit_of b ∷ twice_digits bs

digit_of-ne : (n : ℕ) → digit_of n ≢ b'p'
unfolding digit_of
digit_of-ne n e = ground (arith, e)

digit_of-injective : (m n : ℕ) → digit_of m ≡ digit_of n → m ≡ n
unfolding digit_of
digit_of-injective m n e = ground (arith, e)

abbrev flat_digits : Layout
flat_digits = record { hex_encode = twice_digits; levels = 1 }

no_p : (bs : Bytes) → All (λ c. c ≢ b'p') (twice_digits bs)
unfolding twice_digits
no_p [] = tt
no_p (b ∷ bs) = (digit_of-ne b, (digit_of-ne b, no_p bs))

injective : (bs cs : Bytes) → twice_digits bs ≡ twice_digits cs → bs ≡ cs
unfolding twice_digits
injective [] [] e = refl
injective [] (c ∷ cs) e = absurd (cc e)
injective (b ∷ bs) [] e = absurd (cc e)
injective (b ∷ bs) (c ∷ cs) e =
    let heads : digit_of b ≡ digit_of c = cc e in
    let tails : twice_digits bs ≡ twice_digits cs = cc e in
    let rest = injective bs cs tails in let first = digit_of-injective b c heads in cc (first, rest)

flat_digits-IsHex : IsHex flat_digits
flat_digits-IsHex = record { digits = no_p; hex-injective = injective }

abbrev walk : Walk
walk path d = map (λ f. inr (f.0, true)) d.files

abbrev empty_disk : Disk
empty_disk = record { files = []; dirs = [] }

empty-sound : sound flat_digits empty_disk ≡ true
unfolding sound
empty-sound = refl

abbrev empty : SoundDisk flat_digits
empty = (empty_disk, empty-sound)

abbrev one : Key
one = chunk (codes "new") (1 ∷ 2 ∷ 3 ∷ [])

local-refines_example :
    (s' : SoundDisk flat_digits) × (guarded flat_digits
        (Local.write window (codes "x") (key_path flat_digits one) ((7 ∷ [], 7 ∷ []) ∷ []) true)
        empty
      ≡ (ok tt, s'))
    × (file_at (key_path flat_digits one) s'.0 ≡ some (7 ∷ []))
unfolding Disk.find
local-refines_example =
    let (K, dirs, same, renames, writes, removes, removes_dirs) =
      local-refines window window-IsArcRef flat_digits flat_digits-IsHex (codes "x") walk in
    let (s', run, after) =
      K.write-new empty one ((7 ∷ [], 7 ∷ []) ∷ []) true (inl (same empty one)) in
    (s', run, sym (same s' one) ∙ after one ∙ if_pos (Key-discrete one one) refl _ _)

batches-Sends_example :
    (sent_files (batches [] (inr (codes "a" ∷ [], true) ∷ inl not_found ∷ []))
      ≡ files_of (inr (codes "a" ∷ [], true) ∷ inl not_found ∷ []))
    × (sent_errors (batches [] (inr (codes "a" ∷ [], true) ∷ inl not_found ∷ []))
        ≡ errors_of (inr (codes "a" ∷ [], true) ∷ inl not_found ∷ []))
    × All Fits (batches [] (inr (codes "a" ∷ [], true) ∷ inl not_found ∷ []))
batches-Sends_example = batches-Sends (inr (codes "a" ∷ [], true) ∷ inl not_found ∷ [])
