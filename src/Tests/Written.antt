-- ===== src/Tests/Written.antt =====
-- A level of writing into the small repository.
use rdedup.Writing.{chunk_and_write_data, Pool, write_level}
use rdedup.Writing.Address.{Addressed, chunk_and_write_data-Tree}
use mathlib.Core.List.{reverse}
use mathlib.Core.List.Permᴰ as Perms
use rdedup.Base.{
  ℕ, ◌+◌, ◌≡◌, ◌≢◌, refl, ◌∙◌, sym, subst, Bytes, length, concat, codes, ok, List, [], ◌∷◌, map,
  All, some, arith, add_u64,
}
use rdedup.SgData.{SgData, bytes, push_arcref, len, is_empty}
use rdedup.Chunking
use rdedup.Chunking.{all_chunks, next, round}
use rdedup.Chunking.Stream.{contents, Sized}
use rdedup.Store.{Has, Keeps}
use rdedup.Reading.{data_chunk}
use rdedup.Writing.Level.{IsPool, write_level-Has}
use rdedup.Tests.Crates.{window, window-IsArcRef, zeros, zeros-IsChunking, at_zero}
use rdedup.Tests.Memory.{memory, memory-IsBackend}
use rdedup.Tests.Stored.{
  content, short_hash, repo, repo-IsRepo, plain, plain_back, plain-IsCipher, stored,
}

-- The messages are handled from the last to the first.
abbrev pub backwards : Pool window ℕ
backwards = record { order = λ level ms. reverse ms; seed = λ level i. i }

pub backwards-IsPool : IsPool window backwards
backwards-IsPool level ms = Perms.symm (Perms.reverse ms)

abbrev pub input : List Bytes
input = (1 ∷ []) ∷ []

abbrev pub chunks : List (SgData window)
chunks = (window.new (1 ∷ []) ∷ []) ∷ []

pub input-chunks :
    all_chunks window zeros (length (concat input) + 2) (Chunking.new window zeros input tt)
    ≡ ok chunks
unfolding all_chunks next round Chunking.new push_arcref len is_empty at_zero add_u64
input-chunks = refl

pub ok-injective : {A : Type 0} {a b : A} → ok a ≡ ok b → a ≡ b
ok-injective e = cc e

pub input-known :
    (sgs : List (SgData window))
    → all_chunks window zeros (length (concat input) + 2) (Chunking.new window zeros input tt)
      ≡ ok sgs
    → All (λ sg. content (short_hash (bytes window sg)) ≡ (data_chunk, bytes window sg)) sgs
input-known sgs e =
    subst
      (λ l. All (λ sg. content (short_hash (bytes window sg)) ≡ (data_chunk, bytes window sg)) l)
      (ok-injective (sym input-chunks ∙ e)) (refl, tt)

write_level-Has_example :
    (sgs : List (SgData window)) × (s' : memory.State) × (write_level window memory zeros repo tt
        plain backwards
        (codes "old" ∷ codes "new" ∷ [])
        0
        input
        data_chunk
        stored
      ≡ (ok (map (λ sg. short_hash (bytes window sg)) sgs), s'))
    × (contents window sgs ≡ concat input)
    × (sgs ≢ [])
    × Sized window sgs
    × Keeps window memory repo repo-IsRepo memory-IsBackend
        (some plain_back)
        (codes "new")
        stored
        s'
    × All
        (λ sg.
          Has window memory repo repo-IsRepo memory-IsBackend
            (some plain_back)
            (codes "new" ∷ [])
            s'
            (short_hash (bytes window sg)))
        sgs
write_level-Has_example =
    write_level-Has window window-IsArcRef memory zeros zeros-IsChunking repo repo-IsRepo
      memory-IsBackend tt plain plain_back plain-IsCipher backwards backwards-IsPool
      (codes "old" ∷ codes "new" ∷ []) (codes "new") (codes "old" ∷ []) refl 0 data_chunk input
      stored (omega arith) input-known

chunk_and_write_data-Tree_example :
    Addressed window window-IsArcRef memory zeros zeros-IsChunking repo repo-IsRepo memory-IsBackend
      tt plain plain_back plain-IsCipher backwards backwards-IsPool
      (codes "old" ∷ codes "new" ∷ [])
      (codes "new")
      (codes "old" ∷ [])
      refl
      0
      input
      data_chunk
      stored
      (chunk_and_write_data window memory zeros repo tt plain backwards
        (codes "old" ∷ codes "new" ∷ [])
        1
        input
        data_chunk
        stored)
chunk_and_write_data-Tree_example =
    chunk_and_write_data-Tree window window-IsArcRef memory zeros zeros-IsChunking repo repo-IsRepo
      memory-IsBackend tt plain plain_back plain-IsCipher backwards backwards-IsPool
      (codes "old" ∷ codes "new" ∷ []) (codes "new") (codes "old" ∷ []) refl 0 input data_chunk
      stored (omega arith) (omega arith) (λ sgs cut. (input-known sgs cut, λ two. tt))
