-- ===== src/Tests/Collected.antt =====
-- Names in the small repository: stored, read, moved and kept.
use rdedup.Base.{
  ◌⊎◌, ℕ, ◌+◌, ltb, ◌≡◌, ◌≢◌, refl, ◌∙◌, sym, ap, inl, inr, Option, none, some, Bytes, length,
  codes, concat, Bool, true, false, ok, List, [], ◌∷◌, ◌++◌, arith,
}
use rdedup.Name.Laws.{IsYaml, NameAt, load_from_any-write_as, parse-to_string}
use rdedup.SgData.{SgData}
use rdedup.Aio.{Key, chunk, name_file, gen_config, put}
use rdedup.Chunking.{all_chunks}
use rdedup.Chunking
use rdedup.Name.{Name, Yaml, write_as, load_from_any, update_generation_to}
use rdedup.Name.Moves.{update_generation_to-moves}
use rdedup.Reading.{data_chunk}
use rdedup.Reading.Stream.{sink}
use rdedup.Repository.{Clock, update_name_to, wipe_generation_maybe, read_name}
use rdedup.Repository.Stands.{Stands}
use rdedup.Repository.Update.{update_name_to-keeps}
use rdedup.Repository.Wipe.{
  IsDirs, gen_of, wipe_generation_maybe-IsOld, IsOld, wipe_generation_maybe-keeps,
}
use rdedup.Repository.Stored.{write_as_name-read_name}
use rdedup.Repository.Rows.{Distinct}
use rdedup.Store.{Tree, Tree-map, put_self, put_ne}
use rdedup.Writing.{write_as_name}
use rdedup.Writing.Address.{KnownLevels}
use rdedup.Tests.Crates.{window, window-IsArcRef, zeros, zeros-IsChunking, decoders, length-pad}
use rdedup.Tests.Memory.{flat, memory, memory-IsBackend, below, below-gen}
use rdedup.Tests.Stored.{
  short_hash, index_chunk, repo, repo-IsRepo, decrypter, plain, plain_back, plain-IsCipher, gens,
  add, nothing, one, two, first_chunk, second_chunk, stored, IsGood, stored-IsGood, stored-Tree,
}
use rdedup.Tests.Written.{
  backwards, backwards-IsPool, input, input-chunks, input-known, ok-injective,
}

-- The level stands before the digest.
from_text : Bytes → Option Name
from_text [] = none
from_text (level ∷ digest) = some (record { digest = digest; index_level = level })

abbrev yaml : Yaml
yaml = record { to_string = λ n. n.index_level ∷ n.digest; from_reader = from_text }

yaml-IsYaml : IsYaml yaml
unfolding from_text
yaml-IsYaml = record { from_reader-to_string = λ n. refl }

abbrev clock : Clock
clock = record {
  Time = ℕ;
  to_string = λ t. t ∷ [];
  from_reader = λ text. elim text [ [] ↦ none | t ∷ _ ↦ some t ];
  too_young = λ created secs now. ltb now (created + secs);
}

memory-IsDirs : IsDirs window memory flat memory-IsBackend
memory-IsDirs = record { removes = λ gen rest s k. go gen rest s k (below (gen ∷ rest) k) refl }
  where
    go :
        (gen : Bytes) (rest : List Bytes) (s : memory.State) (k : Key) (b : Bool)
        → below (gen ∷ rest) k ≡ b
        → let s' = (memory.remove_dir_all (gen ∷ rest) s).1 in
          (s' k ≡ s k) ⊎ ((gen_of k ≡ gen) × (s' k ≡ none))
    go gen rest s k true e = inr (below-gen gen rest k e, rw e refl)
    go gen rest s k false e = inl (rw e refl)

abbrev address : Name
address = record { digest = short_hash index_chunk; index_level = 1 }

abbrev old_gens : List Bytes
old_gens = codes "old" ∷ codes "new" ∷ []

abbrev text : Bytes
text = 1 ∷ short_hash index_chunk

abbrev named : memory.State
named = put stored (name_file (codes "old") (codes "a")) (some text)

same_chunk : (g d : Bytes) → named (chunk g d) ≡ stored (chunk g d)
same_chunk g d =
    put_ne stored (name_file (codes "old") (codes "a")) (some text) (chunk g d) (λ e. cc e)

named-IsGood : IsGood named
named-IsGood g d raw e = stored-IsGood g d raw (sym (same_chunk g d) ∙ e)

named-Tree :
    Tree window memory repo repo-IsRepo memory-IsBackend decrypter gens named 1 data_chunk
      (short_hash index_chunk)
      (1 ∷ 2 ∷ [])
named-Tree =
    Tree-map window memory repo repo-IsRepo memory-IsBackend decrypter gens gens stored named
      (λ d (g, i, raw, e). (g, i, raw, same_chunk g d ∙ e)) 1 data_chunk (short_hash index_chunk)
      (1 ∷ 2 ∷ []) stored-Tree

there : named (name_file (codes "old") (codes "a")) ≡ some text
there = put_self stored (name_file (codes "old") (codes "a")) (some text)

first : Bytes → ℕ
first [] = 0
first (b ∷ bs) = b

old-ne-new : codes "old" ≢ codes "new"
unfolding first
old-ne-new e = omega (arith, ap first e)

no_name :
    (gen c : Bytes) (s : memory.State) (g n : Bytes)
    → add gen c s (name_file g n) ≡ s (name_file g n)
no_name gen c s g n = put_ne s (chunk gen (short_hash c)) (some c) (name_file g n) (λ e. cc e)

no_names : (g n : Bytes) → stored (name_file g n) ≡ none
no_names g n =
    no_name (codes "new") index_chunk two g n
    ∙ no_name (codes "new") second_chunk one g n
    ∙ no_name (codes "old") first_chunk nothing g n

absent : (g n : Bytes) → g ≢ codes "old" → named (name_file g n) ≡ none
absent g n far =
    put_ne stored (name_file (codes "old") (codes "a")) (some text) (name_file g n)
      (λ e. far (cc e))
    ∙ no_names g n

absent_new : named (name_file (codes "new") (codes "a")) ≡ none
absent_new = absent (codes "new") (codes "a") (λ e. old-ne-new (sym e))

address-NameAt :
    NameAt window window-IsArcRef memory flat memory-IsBackend yaml
      (codes "old")
      (codes "a")
      address
      named
address-NameAt = (
  text,
  there,
  parse-to_string window window-IsArcRef memory flat memory-IsBackend yaml yaml-IsYaml address
      (length-pad 32 (length index_chunk ∷ index_chunk)),
)

gens-Distinct : Distinct gens
gens-Distinct =
    (λ h i e. elim i [ inl old ↦ old-ne-new (old ∙ e) | inr i ↦ absurd i ], (λ h i. absurd i, tt))

abbrev Live : memory.State → Bytes → Name → Bytes → Type 0
Live s name n c =
    Stands window window-IsArcRef memory repo repo-IsRepo memory-IsBackend decrypter yaml gens s
      name n c

abbrev named-Stands :
    Stands window window-IsArcRef memory repo repo-IsRepo memory-IsBackend decrypter yaml gens named
      (codes "a")
      address
      (1 ∷ 2 ∷ [])
named-Stands = record {
  newer = codes "new" ∷ [];
  gen = codes "old";
  older = [];
  split = refl;
  here = address-NameAt;
  only = λ h i far. absent h (codes "a") far;
  tree = named-Tree;
}

update_name_to-keeps_example :
    (s' : memory.State) × (update_name_to window memory decoders repo yaml
        (codes "a")
        (codes "new")
        old_gens
        named
      ≡ (ok tt, s'))
    × ((st' : Live s' (codes "a") address (1 ∷ 2 ∷ [])) × (st'.gen ≡ codes "new"))
    × ((other : Bytes) (m : Name) (b : Bytes)
        → other ≢ codes "a"
        → Live named other m b
        → Live s' other m b)
    × IsGood s'
    × ((gen : Bytes) → s' (gen_config gen) ≡ named (gen_config gen))
    × ((gen other : Bytes)
        → other ≢ codes "a"
        → s' (name_file gen other) ≡ named (name_file gen other))
update_name_to-keeps_example =
    update_name_to-keeps window window-IsArcRef memory decoders repo repo-IsRepo memory-IsBackend
      decrypter yaml old_gens (codes "new") (codes "old" ∷ []) refl gens-Distinct named (codes "a")
      address (1 ∷ 2 ∷ []) named-IsGood named-Stands old-ne-new

one_chunk :
    (sgs : List (SgData window))
    → all_chunks window zeros (length (concat input) + 2) (Chunking.new window zeros input tt)
      ≡ ok sgs
    → length sgs ≡ 1
one_chunk sgs e = ap length (sym (ok-injective (sym input-chunks ∙ e)))

input-KnownLevels :
    KnownLevels window window-IsArcRef memory zeros zeros-IsChunking repo repo-IsRepo
      memory-IsBackend tt plain plain_back plain-IsCipher backwards backwards-IsPool old_gens
      (codes "new")
      (codes "old" ∷ [])
      refl
      58
      input
      data_chunk
input-KnownLevels sgs cut =
    (input-known sgs cut, λ two. absurd (omega (arith, two, one_chunk sgs cut)))

write_as_name-read_name_example :
    (s' : memory.State) × (write_as_name window memory zeros repo tt plain backwards old_gens yaml
        (codes "a")
        input
        named
      ≡ (ok tt, s'))
    × ((x : Bytes)
        → (s'' : memory.State) × (read_name window memory decoders repo yaml plain_back old_gens
              (codes "a")
              sink
              (s', x)
            ≡ (ok tt, (s'', x ++ concat input))))
    × IsGood s'
    × ((other : Bytes) (m : Name) (b : Bytes)
        → other ≢ codes "a"
        → Live named other m b
        → Live s' other m b)
write_as_name-read_name_example =
    write_as_name-read_name window window-IsArcRef memory zeros zeros-IsChunking repo repo-IsRepo
      memory-IsBackend tt plain plain_back plain-IsCipher backwards backwards-IsPool decoders yaml
      yaml-IsYaml old_gens (codes "new") (codes "old" ∷ []) refl (codes "a") input named
      named-IsGood (omega arith) input-KnownLevels absent_new

-- The generation `old` was begun at the time 5.
abbrev aged : memory.State
aged = put named (gen_config (codes "old")) (some (5 ∷ []))

wipe_generation_maybe-IsOld_example :
    ((wipe_generation_maybe window memory decoders clock (codes "old") 1 7 aged).1 ≡ aged)
    ⊎ IsOld window window-IsArcRef memory decoders clock flat memory-IsBackend memory-IsDirs
        (codes "old")
        1
        7
        aged
wipe_generation_maybe-IsOld_example =
    wipe_generation_maybe-IsOld window window-IsArcRef memory decoders clock flat memory-IsBackend
      memory-IsDirs (codes "old") 1 7 aged

wipe_generation_maybe-keeps_example :
    let s' = (wipe_generation_maybe window memory decoders clock (codes "old") 1 7 aged).1 in
    (IsGood aged → IsGood s')
    × ((name : Bytes) (n : Name) (c : Bytes)
        → (st : Live aged name n c) → st.gen ≢ codes "old"
        → Stands window window-IsArcRef memory repo repo-IsRepo memory-IsBackend decrypter yaml
            (codes "new" ∷ [])
            s'
            name
            n
            c)
wipe_generation_maybe-keeps_example =
    wipe_generation_maybe-keeps window window-IsArcRef memory decoders clock repo repo-IsRepo
      memory-IsBackend memory-IsDirs decrypter yaml (codes "old") (codes "new" ∷ []) 1 7 aged
      gens-Distinct

load_from_any-write_as_example :
    (s' : memory.State) × (write_as window memory yaml address (codes "a") (codes "new") named
      ≡ (ok tt, s'))
    × ((i : Key)
        → s' i ≡ put named (name_file (codes "new") (codes "a")) (some (yaml.to_string address)) i)
    × (load_from_any window memory yaml (codes "a") old_gens s' ≡ (ok address, s'))
load_from_any-write_as_example =
    load_from_any-write_as window window-IsArcRef memory flat memory-IsBackend yaml yaml-IsYaml
      address (codes "a") (codes "new") old_gens (codes "old" ∷ []) named refl
      (length-pad 32 (length index_chunk ∷ index_chunk)) absent_new

update_generation_to-moves_example :
    (s' : memory.State) × (update_generation_to window memory
        (codes "a")
        (codes "new")
        old_gens
        named
      ≡ (ok tt, s'))
    × ((i : Key)
        → s' i
          ≡ put
              (put named (name_file (codes "old") (codes "a")) none)
              (name_file (codes "new") (codes "a"))
              (some text)
              i)
update_generation_to-moves_example =
    update_generation_to-moves window memory flat memory-IsBackend (codes "a") (codes "new")
      (codes "old") text old_gens [] [] named refl old-ne-new tt there

-- The name is there, and no chunk.
abbrev bare : memory.State
bare = put nothing (name_file (codes "old") (codes "a")) (some text)
