-- ===== src/Reading/Update.antt =====
-- The traversal of the garbage collection, `GenerationUpdateChunkAccessor` of lib/src/reading.rs.
use mathlib.Core.List.{reverse}
use mathlib.Core.Path.{fun_ext}
use mathlib.Core.Option.{some-ne-none}
use rdedup.Base.{
  ℕ, ◌≡◌, refl, ◌∙◌, sym, ap, inl, Bytes, length, Option, none, some, ok, expect, List, [], ◌∷◌,
}
use rdedup.Io.{Io, lift, last, ◌>>=◌}
use rdedup.SgData.{ArcRefs, SgData}
use rdedup.Encryption.{Decrypter}
use rdedup.Aio.{Backend, IsBackend, Metadata, chunk}
use rdedup.Reading.{on_world, data_chunk, index, Writer, on_data, read_recursively}
use rdedup.Reading.Decode.{Repo, decode, checked}
use rdedup.Reading.Accessors.{
  read_found, default_read, find_in_gens, touch_found, update_touch, update_accessor,
}
use rdedup.Reading.Recursion.{read_lem}
use rdedup.Store.{IsRepo, Good, Has, Keeps, Keeps-refl, Tree}
use rdedup.Store.Moves.{Looks, path_of, find_in_gens_lem, move_to_cur_lem}

module _ (R : ArcRefs) (B : Backend R) (repo : Repo R) where
  -- An index needs no key.
  read_found-index :
      (d : Option (Decrypter R)) (gen_strings : List Bytes) {X : Type 0} (w : Writer B.State X)
      (digest cur : Bytes) (found : Option (SgData R × Bytes))
      → read_found R B repo none gen_strings w digest index cur found
        ≡ read_found R B repo d gen_strings w digest index cur found
  unfolding read_found checked decode
  read_found-index d gen_strings w digest cur none = refl
  read_found-index d gen_strings w digest cur (some (sg, gen)) = refl

  reads-index :
      (d : Option (Decrypter R)) (gen_strings : List Bytes) (X : Type 0) (w : Writer B.State X)
      (digest : Bytes)
      → (update_accessor R B repo gen_strings).read_chunk_into w digest index
        ≡ default_read R B repo d gen_strings w digest index
  unfolding update_accessor default_read
  reads-index d gen_strings X w digest =
      ap
        (λ (rf : Bytes → Option (SgData R × Bytes) → Io (B.State × X) (Unit {0})). (do
          cur ← lift (expect (last gen_strings))
          found ← on_world (find_in_gens R B repo B.read digest (reverse gen_strings))
          rf cur found))
        (fun_ext (λ cur. fun_ext (λ found. read_found-index d gen_strings w digest cur found)))

module _ (R : ArcRefs) (B : Backend R) (repo : Repo R) (P : IsRepo R repo)
    (K : IsBackend R B repo.layout) (decrypter : Option (Decrypter R)) (gen_strings : List Bytes)
    (cur : Bytes) (older : List Bytes) (newest : reverse gen_strings ≡ cur ∷ older) where
  looks_at :
      (s : B.State) (digest gen : Bytes)
      → Looks R B repo P K {A = Metadata}
          (λ raw m. Unit)
          (B.read_metadata (path_of R B repo P K gen digest) s)
          (K.file s (chunk gen digest))
  looks_at s digest gen = go (K.file s (chunk gen digest)) refl
    where
      go :
          (f : Option Bytes)
          → K.file s (chunk gen digest) ≡ f
          → Looks R B repo P K {A = Metadata}
              (λ raw m. Unit)
              (B.read_metadata (path_of R B repo P K gen digest) s)
              f
      go none e = K.read_metadata-none s (chunk gen digest) e
      go (some raw) e =
          let (m, looked) = K.read_metadata-some s (chunk gen digest) raw e in (m, looked, tt)

  update_touch_lem :
      (s : B.State) (digest : Bytes)
      → length digest ≡ 32
      → Has R B repo P K decrypter (cur ∷ older) s digest
      → (s' : B.State) × (update_touch R B repo gen_strings digest s ≡ (ok tt, s'))
        × Keeps R B repo P K decrypter cur s s'
        × Has R B repo P K decrypter (cur ∷ []) s' digest
  unfolding update_touch touch_found
  update_touch_lem s digest size (gen, here, raw, there) =
      let (g, raw', m, here', there', _, found) =
        find_in_gens_lem R B repo P K s digest size B.read_metadata (λ raw m. Unit)
          (looks_at s digest) (cur ∷ older) gen here (λ n. some-ne-none raw (sym there ∙ n)) in
      let (s', run, keeps, at_cur) =
        move_to_cur_lem R B repo P K decrypter cur older s digest g raw' size there' in
      (s', rw (newest, found, run) refl, keeps, (cur, inl refl, raw', at_cur))

  -- The traversal of an address, for a repository that has its chunks in any of the generations,
  -- ends without an error and without a key: all chunks of the address, those of its index and of
  -- its data, are in the newest generation after it, and the repository keeps what it has.
  pub read_recursively-update :
      (level : ℕ) (digest c : Bytes) (s : B.State)
      → Good R B repo P K decrypter s
      → Tree R B repo P K decrypter (cur ∷ older) s level data_chunk digest c
      → (s' : B.State) × (read_recursively
            (update_accessor R B repo gen_strings)
            level
            {X = Unit {0}}
            none
            data_chunk
            digest
            (s, tt)
          ≡ (ok tt, (s', tt)))
        × Keeps R B repo P K decrypter cur s s'
        × Tree R B repo P K decrypter (cur ∷ []) s' level data_chunk digest c
  unfolding update_accessor on_data
  read_recursively-update level digest c s good tree =
      let (s', x', run, k, tree', rest) =
        read_lem R B repo P K decrypter gen_strings cur older newest s good
          (update_accessor R B repo gen_strings) (reads-index R B repo decrypter gen_strings) level
          none data_chunk digest c (λ s x l. Unit) tree
          (λ s₁ x done e todo split (known, h, there) k out.
            let (s₂, touched, k₂, here) =
              update_touch_lem s₁ (P.hash e) (P.length-hash e) (k.has older (P.hash e) there) in
            (s₂, x, rw touched refl, k₂, here, tt))
          (λ s s' x l k out. tt) s tt (Keeps-refl R B repo P K decrypter cur s) tt in
      (s', run, k, tree')
