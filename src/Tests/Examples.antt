-- ===== src/Tests/Examples.antt =====
-- The theorems at concrete data.
use rdedup.SgData.{from_single, to_linear, SgData, from_many, bytes, to_linear_vec}
use rdedup.Base.{
  ◌⊎◌, take, drop, ℕ, ◌≡◌, refl, ◌≢◌, List, [], ◌∷◌, ◌++◌, ◌+◌, ◌*◌, Bytes, length, concat, codes,
  some, ok, err, invalid_data, All, arith,
}
use mathlib.Core.List.{Permᴰ}
use rdedup.SgData.Laws.{deref-to_linear, to_linear_vec-slice, to_linear_vec-from_many}
use rdedup.Sorting.{enumerate, drain}
use rdedup.Sorting
use rdedup.Sorting.Order.{drain-enumerate}
use rdedup.Chunking
use rdedup.Chunking.{all_chunks}
use rdedup.Chunking.Stream.{all_chunks-new, contents, Sized, IsNonempty}
use rdedup.Generation.{Generation, to_string, try_from}
use rdedup.Generation.Parse.{try_from-to_string, to_string-injective}
use rdedup.Hashing.{blake2b, calculate_digest, calculate_digest_simple}
use rdedup.Hashing.Linear.{calculate_digest-eq-simple, calculate_digest-size}
use rdedup.Encryption.{
  derived_key, slice_to, from_slice, Curve25519, encrypt, decrypt, new, change_passphrase,
  unseal_decrypt,
}
use rdedup.Encryption.Chunks.{decrypt-encrypt, decrypt-total}
use rdedup.Encryption.Keys.{unseal_decrypt-new, change_passphrase-unseal, Opens}
use rdedup.Nesting.{get_path, get_path-eq, chunk_path, data_subdir}
use rdedup.Config
use rdedup.Settings
use rdedup.Tests.Crates.{
  open_box, window, window-IsArcRef, zeros, zeros-IsChunking, pad, length-pad, prefix_hash,
  prefix_hash-IsStreamHash, marked, marked-IsSodium, decoders, decoders-IsDecoders,
}

abbrev two_parts : SgData window
two_parts = from_many window ((1 ∷ 2 ∷ []) ∷ (3 ∷ []) ∷ [])

calculate_digest-eq-simple_example :
    calculate_digest window prefix_hash blake2b two_parts
    ≡ calculate_digest_simple prefix_hash blake2b (bytes window two_parts)
calculate_digest-eq-simple_example =
    calculate_digest-eq-simple window prefix_hash prefix_hash-IsStreamHash blake2b two_parts

calculate_digest-size_example :
    (d : Bytes) × (calculate_digest window prefix_hash blake2b two_parts ≡ ok d) × (length d ≡ 32)
calculate_digest-size_example =
    calculate_digest-size window prefix_hash prefix_hash-IsStreamHash blake2b two_parts

abbrev first_generation : Generation
first_generation = record { seq = 3; rand = 18446744073709551615 }

try_from-to_string_example : try_from decoders (to_string first_generation) ≡ ok first_generation
try_from-to_string_example =
    try_from-to_string decoders decoders-IsDecoders first_generation (omega arith, omega arith)

to_string-injective_example : first_generation ≡ first_generation
to_string-injective_example =
    to_string-injective decoders decoders-IsDecoders first_generation first_generation
      (omega arith, omega arith) (omega arith, omega arith) refl

abbrev stream : List Bytes
stream =
    codes "forty bytes of text that hold no edge at"
    ∷ (codes "and more of it, then some end" ++ (0 ∷ 7 ∷ []))
    ∷ []

all_chunks-new_example :
    (sgs : List (SgData window)) × (all_chunks window zeros
        (length (concat stream) + 2)
        (Chunking.new window zeros stream tt)
      ≡ ok sgs)
    × (contents window sgs ≡ concat stream)
    × Sized window sgs
    × (sgs ≢ [])
    × (All (IsNonempty window) sgs ⊎ (concat stream ≡ []))
all_chunks-new_example =
    all_chunks-new window window-IsArcRef zeros zeros-IsChunking stream tt (omega arith)

unsorted : Permᴰ {A = ℕ × ℕ} ((0, 10) ∷ (1, 20) ∷ (2, 30) ∷ []) ((2, 30) ∷ (1, 20) ∷ (0, 10) ∷ [])
unsorted =
    Permᴰ.trans (Permᴰ.swap refl refl)
      (Permᴰ.trans (Permᴰ.cons refl (Permᴰ.swap refl refl)) (Permᴰ.swap refl refl))

drain-enumerate_example :
    drain {T = ℕ} 4 (Sorting.new ((2, 30) ∷ (1, 20) ∷ (0, 10) ∷ [])) ≡ ok (10 ∷ 20 ∷ 30 ∷ [])
unfolding enumerate
drain-enumerate_example =
    drain-enumerate (10 ∷ 20 ∷ 30 ∷ []) ((2, 30) ∷ (1, 20) ∷ (0, 10) ∷ []) unsorted (omega arith)

to_linear_vec-from_many_example : to_linear_vec window two_parts ≡ 1 ∷ 2 ∷ 3 ∷ []
to_linear_vec-from_many_example =
    to_linear_vec-from_many window window-IsArcRef ((1 ∷ 2 ∷ []) ∷ (3 ∷ []) ∷ [])

decrypt-encrypt_example :
    (z : SgData window) × (encrypt marked window (pad 32 (5 ∷ [])) 9 two_parts (pad 32 []) ≡ ok z)
    × ((z' : SgData window)
        → bytes window z' ≡ bytes window z
        → (b : SgData window) × (decrypt marked window (pad 32 (5 ∷ 1 ∷ [])) z' (pad 32 []) ≡ ok b)
          × (bytes window b ≡ bytes window two_parts))
decrypt-encrypt_example =
    decrypt-encrypt marked marked-IsSodium window window-IsArcRef 5 9 two_parts (pad 32 [])
      (length-pad 32 [])

decrypt-total_example :
    ((b : Bytes) × (decrypt marked window (pad 32 []) two_parts (pad 32 [])
        ≡ ok (from_single window b))
      × (marked.unseal
            (drop marked.public_key_bytes (bytes window two_parts))
            (take marked.nonce_bytes (pad 32 []))
            (take marked.public_key_bytes (bytes window two_parts))
            (pad 32 [])
          ≡ some b))
    ⊎ (decrypt marked window (pad 32 []) two_parts (pad 32 []) ≡ err invalid_data)
decrypt-total_example =
    decrypt-total marked marked-IsSodium window window-IsArcRef (pad 32 []) (pad 32 []) two_parts
      (length-pad 32 [])

unseal_decrypt-new_example :
    (c : Curve25519) × (new marked 5 6 (ok (codes "secret")) ≡ ok c)
    × (c.pub_key ≡ pad 32 (5 ∷ []))
    × Opens marked marked-IsSodium c (codes "secret") (pad 32 (5 ∷ 1 ∷ []))
unseal_decrypt-new_example =
    unseal_decrypt-new marked marked-IsSodium 5 6 (codes "secret") (pad 32 (codes "secret")) refl
      (length-pad 32 (codes "secret"))

abbrev sealed : Curve25519
sealed = record {
  sealed_sec_key = 1 ∷ pad 32 (5 ∷ 1 ∷ []);
  pub_key = pad 32 (5 ∷ []);
  nonce = pad 24 (6 ∷ []);
}

change_passphrase-unseal_example :
    (c : Curve25519) × (change_passphrase marked sealed (ok (codes "old")) (ok (codes "new"))
      ≡ ok c)
    × Opens marked marked-IsSodium c (codes "new") (pad 32 (5 ∷ 1 ∷ []))
    × (c.pub_key ≡ pad 32 (5 ∷ []))
    × (c.nonce ≡ pad 24 (6 ∷ []))
unfolding unseal_decrypt derived_key slice_to from_slice open_box
change_passphrase-unseal_example =
    change_passphrase-unseal marked marked-IsSodium sealed (codes "old") (codes "new")
      (pad 32 (codes "new")) (pad 32 (5 ∷ 1 ∷ [])) refl (length-pad 32 (5 ∷ 1 ∷ [])) refl
      (length-pad 32 (codes "new"))

-- Two letters for each byte.
twice : Bytes → Bytes
twice [] = []
twice (b ∷ bs) = b ∷ b ∷ twice bs

length-twice : (bs : Bytes) → length (twice bs) ≡ 2 * length bs
unfolding twice
length-twice [] = refl
length-twice (b ∷ bs) = omega (arith, length-twice bs)

get_path-eq_example :
    get_path twice 2 data_subdir (pad 32 (7 ∷ [])) (codes "g")
    ≡ ok (chunk_path twice 2 (codes "g") (pad 32 (7 ∷ [])))
get_path-eq_example =
    get_path-eq twice 2 (codes "g") (pad 32 (7 ∷ [])) length-twice (length-pad 32 (7 ∷ []))
      (omega arith)

abbrev calls : List Settings.Call
calls =
    Settings.Call.nesting_of 40
    ∷ Settings.Call.gear_chunking (some 20)
    ∷ Settings.Call.bup_chunking (some 3)
    ∷ []

deref-to_linear_example : window.deref (to_linear window two_parts) ≡ bytes window two_parts
deref-to_linear_example = deref-to_linear window window-IsArcRef two_parts

to_linear_vec-slice_example :
    (bytes window (window.slice 1 2 (window.new (1 ∷ 2 ∷ [])) ∷ []) ≡ take 1 (drop 1 (1 ∷ 2 ∷ [])))
    × (to_linear_vec window (window.slice 1 2 (window.new (1 ∷ 2 ∷ [])) ∷ []) ≡ 1 ∷ 2 ∷ [])
to_linear_vec-slice_example = to_linear_vec-slice window window-IsArcRef (1 ∷ 2 ∷ []) 1 2
