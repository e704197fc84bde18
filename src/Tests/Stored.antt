-- ===== src/Tests/Stored.antt =====
-- A small repository in memory: two chunks of data, one of them in an older generation, and their
-- index.
use rdedup.Reading.Accessors.{update_accessor, default_accessor, default_read, write_parts}
use rdedup.Reading.Update.{read_recursively-update}
use rdedup.Base.{
  ℕ, zero, suc, ◌≡◌, refl, ◌∙◌, ap, sym, subst, inl, inr, Option, none, some, Bytes, length, codes,
  ok, List, [], ◌∷◌, if_pos, if_neg, arith, map, concat,
}
use rdedup.Store.{IsCipher, IsRepo, Good, Has, Keeps, Tree, In, Decodes, put_self}
use rdedup.Encryption.{Encrypter, Decrypter}
use rdedup.Processing.Stores.{process-Has}
use rdedup.Processing.Encode.{Message}
use rdedup.Processing.{process}
use rdedup.SgData.{SgData, bytes}
use rdedup.Compression.{no_compression, no_compression-IsCompression}
use rdedup.Aio.{Key, Key-discrete, chunk, put}
use rdedup.Reading.{Writer, DataType, data_chunk, index, read_recursively}
use rdedup.Reading.Decode.{Repo, decode, decrypted}
use rdedup.Reading.Chunks.{default_read_lem}
use rdedup.Reading.Stream.{sink}
use rdedup.Reading.Recursion.{read_recursively-sink}
use rdedup.Tests.Crates.{window, pad, length-pad}
use rdedup.Tests.Memory.{flat, length-twice, memory, memory-IsBackend}

-- The length and the first bytes of the data stand for its hash.
abbrev pub short_hash : Bytes → Bytes
short_hash b = pad 32 (length b ∷ b)

abbrev pub first_chunk : Bytes
first_chunk = 1 ∷ []

abbrev pub second_chunk : Bytes
second_chunk = 2 ∷ []

abbrev pub index_chunk : Bytes
index_chunk = concat (map short_hash (first_chunk ∷ second_chunk ∷ []))

-- The one content that has a digest.
abbrev pub content : Bytes → DataType × Bytes
content (suc zero ∷ suc zero ∷ d) = (data_chunk, first_chunk)
content (suc zero ∷ suc (suc zero) ∷ d) = (data_chunk, second_chunk)
content d = (index, index_chunk)

abbrev pub repo : Repo window
repo = record {
  layout = flat;
  compression = no_compression window;
  calculate_digest = λ sg. ok (short_hash (bytes window sg));
}

abbrev pub repo-IsRepo : IsRepo window repo
repo-IsRepo = record {
  hash = short_hash;
  calculate_digest-eq = λ sg. refl;
  length-hash = λ b. length-pad 32 (length b ∷ b);
  compression = no_compression-IsCompression window;
  length-hex = length-twice;
  levels-le = omega arith;
  Known = λ t c. content (short_hash c) ≡ (t, c);
  no_collision = λ t u b c k h e.
      let same = sym k ∙ ap content e ∙ h in (ap (λ p. p.0) same, ap (λ p. p.1) same);
}

-- The key is for nobody: chunks are stored as they are.
abbrev pub decrypter : Option (Decrypter window)
decrypter = some (record { decrypt = λ sg digest. ok sg })

abbrev pub IsGood : memory.State → Type 0
IsGood s = Good window memory repo repo-IsRepo memory-IsBackend decrypter s

abbrev pub gens : List Bytes
gens = codes "new" ∷ codes "old" ∷ []

abbrev pub Holds : memory.State → Bytes → Type 0
Holds s digest = Has window memory repo repo-IsRepo memory-IsBackend decrypter gens s digest

abbrev pub add : Bytes → Bytes → memory.State → memory.State
add gen c s = put s (chunk gen (short_hash c)) (some c)

Holds-add :
    (gen c : Bytes) (s : memory.State) (digest : Bytes)
    → Holds s digest
    → Holds (add gen c s) digest
Holds-add gen c s digest (g, i, raw, e) =
    elim (Key-discrete (chunk gen (short_hash c)) (chunk g digest)) [
      | yes h ↦ (
        g,
        i,
        c,
        if_pos (Key-discrete (chunk gen (short_hash c)) (chunk g digest)) h (some c)
            (s (chunk g digest)),
      )
      | no h ↦ (
        g,
        i,
        raw,
        if_neg (Key-discrete (chunk gen (short_hash c)) (chunk g digest)) h (some c)
              (s (chunk g digest))
            ∙ e,
      )
    ]

some-injective : {b c : Bytes} → some b ≡ some c → b ≡ c
some-injective e = cc e

none-ne-some : {b : Bytes} → none ≡ some b → ⊥
none-ne-some e = cc e

Decodes-any :
    (t : DataType) (digest c : Bytes)
    → Decodes window memory repo repo-IsRepo memory-IsBackend decrypter t digest c c
unfolding decode decrypted
Decodes-any data_chunk digest c sg e = (sg, refl, e)
Decodes-any index digest c sg e = (sg, refl, e)

digest_of : Key → Bytes
digest_of (chunk gen digest) = digest
digest_of k = []

IsGood-add :
    (gen c : Bytes) (t : DataType) (s : memory.State)
    → content (short_hash c) ≡ (t, c)
    → IsGood s
    → IsGood (add gen c s)
unfolding digest_of
IsGood-add gen c t s known good g digest raw e =
    elim (Key-discrete (chunk gen (short_hash c)) (chunk g digest)) [
      | yes h ↦
          let here =
            sym (
              if_pos (Key-discrete (chunk gen (short_hash c)) (chunk g digest)) h (some c)
                (s (chunk g digest)))
            ∙ e in
          (
            t,
            c,
            known,
            ap digest_of h,
            subst
                (λ r.
                  Decodes window memory repo repo-IsRepo memory-IsBackend decrypter t digest r c)
                (some-injective here) (Decodes-any t digest c),
          )
      | no h ↦ good g digest raw (
          sym (
            if_neg (Key-discrete (chunk gen (short_hash c)) (chunk g digest)) h (some c)
              (s (chunk g digest)))
          ∙ e)
    ]

abbrev pub nothing : memory.State
nothing k = none

abbrev pub one : memory.State
one = add (codes "old") first_chunk nothing

abbrev pub two : memory.State
two = add (codes "new") second_chunk one

abbrev pub stored : memory.State
stored = add (codes "new") index_chunk two

pub stored-IsGood : IsGood stored
stored-IsGood = IsGood-add (codes "new") index_chunk index two refl (
    IsGood-add (codes "new") second_chunk data_chunk one refl (
      IsGood-add (codes "old") first_chunk data_chunk nothing refl
        (λ g digest raw e. absurd (none-ne-some e))))

Holds-added : (gen c : Bytes) (s : memory.State) → In gen gens → Holds (add gen c s) (short_hash c)
Holds-added gen c s i = (gen, i, c, put_self s (chunk gen (short_hash c)) (some c))

first_held : Holds stored (short_hash first_chunk)
first_held = Holds-add (codes "new") index_chunk two (short_hash first_chunk) (
    Holds-add (codes "new") second_chunk one (short_hash first_chunk)
      (Holds-added (codes "old") first_chunk nothing (inr (inl refl))))

pub stored-Tree :
    Tree window memory repo repo-IsRepo memory-IsBackend decrypter gens stored 1 data_chunk
      (short_hash index_chunk)
      (1 ∷ 2 ∷ [])
stored-Tree = (
  first_chunk ∷ second_chunk ∷ [],
  refl,
  (
    (refl, refl, first_held),
    (
      (
        refl,
        refl,
        Holds-add (codes "new") index_chunk two (short_hash second_chunk)
            (Holds-added (codes "new") second_chunk one (inl refl)),
      ),
      tt,
    ),
  ),
  (refl, refl, Holds-added (codes "new") index_chunk two (inl refl)),
)

read_recursively-sink_example :
    (s' : memory.State) × (read_recursively
        (default_accessor window memory repo decrypter (codes "old" ∷ codes "new" ∷ []))
        1
        (some sink)
        data_chunk
        (short_hash index_chunk)
        (stored, 7 ∷ [])
      ≡ (ok tt, (s', 7 ∷ 1 ∷ 2 ∷ [])))
    × Keeps window memory repo repo-IsRepo memory-IsBackend decrypter (codes "new") stored s'
    × Tree window memory repo repo-IsRepo memory-IsBackend decrypter
        (codes "new" ∷ [])
        s'
        1
        data_chunk
        (short_hash index_chunk)
        (1 ∷ 2 ∷ [])
read_recursively-sink_example =
    read_recursively-sink window memory repo repo-IsRepo memory-IsBackend decrypter
      (codes "old" ∷ codes "new" ∷ []) (codes "new") (codes "old" ∷ []) refl 1 data_chunk
      (short_hash index_chunk) (1 ∷ 2 ∷ []) stored (7 ∷ []) stored-IsGood stored-Tree

default_read_lem_example :
    (s' : memory.State) × (p : SgData window) × (bytes window p ≡ first_chunk)
    × Keeps window memory repo repo-IsRepo memory-IsBackend decrypter (codes "new") stored s'
    × Has window memory repo repo-IsRepo memory-IsBackend decrypter
        (codes "new" ∷ [])
        s'
        (short_hash first_chunk)
    × ((X : Type 0) (w : Writer memory.State X) (x : X)
        → default_read window memory repo decrypter
            (codes "old" ∷ codes "new" ∷ [])
            w
            (short_hash first_chunk)
            data_chunk
            (stored, x)
          ≡ write_parts window memory repo w p (s', x))
default_read_lem_example =
    default_read_lem window memory repo repo-IsRepo memory-IsBackend decrypter
      (codes "old" ∷ codes "new" ∷ []) (codes "new") (codes "old" ∷ []) refl stored data_chunk
      (short_hash first_chunk) first_chunk stored-IsGood (refl, refl, first_held)

-- What gives the chunks as they are, and takes them back.
abbrev pub plain : Encrypter window ℕ
plain = record { encrypt = λ seed sg digest. ok sg }

abbrev pub plain_back : Decrypter window
plain_back = record { decrypt = λ sg digest. ok sg }

pub plain-IsCipher : IsCipher window plain plain_back
plain-IsCipher = record {
  decrypt-encrypt = λ seed sg digest h. (sg, refl, λ z' same. (z', refl, same));
}

abbrev message : Message window ℕ
message = record { id = 5; sg = window.new first_chunk ∷ []; data_type = data_chunk; seed = 3 }

process-Has_example :
    (s' : memory.State) × (process window memory repo plain
        (codes "old" ∷ codes "new" ∷ [])
        message
        stored
      ≡ (ok (5, short_hash first_chunk), s'))
    × Keeps window memory repo repo-IsRepo memory-IsBackend decrypter (codes "new") stored s'
    × Has window memory repo repo-IsRepo memory-IsBackend decrypter
        (codes "new" ∷ [])
        s'
        (short_hash first_chunk)
process-Has_example =
    process-Has window memory repo repo-IsRepo memory-IsBackend plain plain_back plain-IsCipher
      (codes "new") (codes "old" ∷ []) (codes "old" ∷ codes "new" ∷ []) refl stored message refl

read_recursively-update_example :
    (s' : memory.State) × (read_recursively
        (update_accessor window memory repo (codes "old" ∷ codes "new" ∷ []))
        1
        {X = Unit {0}}
        none
        data_chunk
        (short_hash index_chunk)
        (stored, tt)
      ≡ (ok tt, (s', tt)))
    × Keeps window memory repo repo-IsRepo memory-IsBackend decrypter (codes "new") stored s'
    × Tree window memory repo repo-IsRepo memory-IsBackend decrypter
        (codes "new" ∷ [])
        s'
        1
        data_chunk
        (short_hash index_chunk)
        (1 ∷ 2 ∷ [])
read_recursively-update_example =
    read_recursively-update window memory repo repo-IsRepo memory-IsBackend decrypter
      (codes "old" ∷ codes "new" ∷ []) (codes "new") (codes "old" ∷ []) refl 1
      (short_hash index_chunk) (1 ∷ 2 ∷ []) stored stored-IsGood stored-Tree
