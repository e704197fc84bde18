-- ===== src/Reading/Chunks.antt =====
-- Reading one chunk: the content that is stored under a digest reaches the writer.
use rdedup.Base.{
  inl, [], ◌≡◌, refl, ◌∙◌, sym, ap, Bytes, Bytes-discrete, length, Option, none, some, ok, err,
  List, ◌∷◌, subst, if_pos, invalid_data,
}
use rdedup.Store.{Has, IsRepo, Good, Keeps, Leaf, Decodes}
use mathlib.Core.Option.{some-ne-none}
use mathlib.Core.List.{reverse}
use rdedup.SgData.{ArcRefs, SgData, bytes}
use rdedup.Encryption.{Decrypter}
use rdedup.Aio.{Backend, IsBackend, chunk}
use rdedup.Reading.{DataType, Writer}
use rdedup.Reading.Decode.{Repo, decode, checked}
use rdedup.Reading.Accessors.{write_parts, default_read}
use rdedup.Store.Moves.{Looks, path_of, find_in_gens_lem, move_to_cur_lem}

module _ (R : ArcRefs) (B : Backend R) (repo : Repo R) (P : IsRepo R repo)
    (K : IsBackend R B repo.layout) (decrypter : Option (Decrypter R)) where
  -- What is stored under the digest of a known content is that content.
  Good-Decodes :
      (s : B.State) (t : DataType) (gen digest raw c : Bytes)
      → Good R B repo P K decrypter s
      → P.Known t c
      → P.hash c ≡ digest
      → K.file s (chunk gen digest) ≡ some raw
      → Decodes R B repo P K decrypter t digest raw c
  Good-Decodes s t gen digest raw c good known h there =
      let (t', c', known', h', decodes) = good gen digest raw there in
      let (same_t, same_c) = P.no_collision t' t c' c known' known (h' ∙ sym h) in
      subst (λ u. Decodes R B repo P K decrypter u digest raw c) same_t
        (subst (λ b. Decodes R B repo P K decrypter t' digest raw b) same_c decodes)

  checked_lem :
      (t : DataType) (sg p : SgData R) (digest c : Bytes)
      → decode R repo decrypter t sg digest ≡ ok p
      → bytes R p ≡ c
      → P.hash c ≡ digest
      → checked R repo decrypter t sg digest ≡ ok p
  unfolding checked
  checked_lem t sg p digest c e same h =
      rw (e, P.calculate_digest-eq p)
        (if_pos (Bytes-discrete (P.hash (bytes R p)) digest) (ap P.hash same ∙ h) (ok p)
          (err invalid_data))

  pub reads :
      (s : B.State) (digest gen : Bytes)
      → Looks R B repo P K
          (λ raw sg. bytes R sg ≡ raw)
          (B.read (path_of R B repo P K gen digest) s)
          (K.file s (chunk gen digest))
  reads s digest gen = go (K.file s (chunk gen digest)) refl
    where
      go :
          (f : Option Bytes)
          → K.file s (chunk gen digest) ≡ f
          → Looks R B repo P K
              (λ raw sg. bytes R sg ≡ raw)
              (B.read (path_of R B repo P K gen digest) s)
              f
      go none e = K.read-none s (chunk gen digest) e
      go (some raw) e =
          let (sg, run, same, whole) = K.read-some s (chunk gen digest) raw e in (sg, run, same)

  -- A known content that is stored is read, whatever the writer: the writer is given the content in
  -- pieces, the repository keeps what it has, and has the chunk in its newest generation.
  pub default_read_lem :
      (gen_strings : List Bytes) (cur : Bytes) (older : List Bytes)
      → reverse gen_strings ≡ cur ∷ older
      → (s : B.State) (t : DataType) (digest c : Bytes) → Good R B repo P K decrypter s
      → Leaf R B repo P K decrypter (cur ∷ older) s t digest c
      → (s' : B.State) × (p : SgData R) × (bytes R p ≡ c)
        × Keeps R B repo P K decrypter cur s s'
        × Has R B repo P K decrypter (cur ∷ []) s' digest
        × ((X : Type 0) (w : Writer B.State X) (x : X)
            → default_read R B repo decrypter gen_strings w digest t (s, x)
              ≡ write_parts R B repo w p (s', x))
  unfolding default_read
  default_read_lem gen_strings cur older newest s t digest c good
        (known, h, (gen, here, raw, there)) =
      let size : length digest ≡ 32 = subst (λ d. length d ≡ 32) h (P.length-hash c) in
      let (g, raw', sg, here', there', same, found) =
        find_in_gens_lem R B repo P K s digest size B.read (λ raw sg. bytes R sg ≡ raw)
          (reads s digest) (cur ∷ older) gen here (λ n. some-ne-none raw (sym there ∙ n)) in
      let (s', run, keeps, at_cur) =
        move_to_cur_lem R B repo P K decrypter cur older s digest g raw' size there' in
      let (p, decoded, same_p) = Good-Decodes s t g digest raw' c good known h there' sg same in
      (
        s',
        p,
        same_p,
        keeps,
        (cur, inl refl, raw', at_cur),
        λ X w x. rw (newest, found, run, checked_lem t sg p digest c decoded same_p h) refl,
      )
