-- ===== src/Processing/Stores.antt =====
-- lib/src/chunk_processor.rs: a processed chunk can be read back.
use mathlib.Core.List.{reverse}
use rdedup.Base.{
  ℕ, ◌≡◌, refl, ◌∙◌, subst, ◌⊎◌, inl, inr, Bytes, Bytes-discrete, length, none, some, Option-cases,
  Result, ok, List, [], ◌∷◌, ◌++◌, if_pos, if_neg, true,
}
use rdedup.SgData.{ArcRefs, SgData, bytes}
use rdedup.Encryption.{Encrypter, Decrypter}
use rdedup.Aio.{Backend, IsBackend, chunk}
use rdedup.Reading.{DataType, data_chunk, index}
use rdedup.Reading.Decode.{Repo, decode, decrypted}
use rdedup.Processing.{
  existing_or, find_existing, renamed, move_existing, write_checked_idempotent, handle, process,
}
use rdedup.Processing.Encode.{Message, encode}
use rdedup.Store.{IsRepo, IsCipher, In, Has, Keeps, Keeps-refl, Decodes}
use rdedup.Store.Moves.{chunk_rel_path-eq, moved-Keeps, at_cur}
use rdedup.Store.Writes.{written-Keeps, written-Has}

module _ (R : ArcRefs) (B : Backend R) (repo : Repo R) (P : IsRepo R repo)
    (K : IsBackend R B repo.layout) {Seed : Type 0} (e : Encrypter R Seed) (d : Decrypter R)
    (C : IsCipher R e d) where
  encode_lem :
      (id : ℕ) (sg : SgData R) (t : DataType) (seed : Seed) (digest : Bytes)
      → length digest ≡ 32
      → (z : SgData R) × (encode R repo e
            (record { id = id; sg = sg; data_type = t; seed = seed })
            digest
          ≡ ok z)
        × Decodes R B repo P K (some d) t digest (bytes R z) (bytes R sg)
  unfolding encode decode decrypted
  encode_lem id sg data_chunk seed digest h =
      let (y, packed, unpack) = P.compression.decompress-compress sg in
      let (z, locked, unlock) = C.decrypt-encrypt seed y digest h in
      (
        z,
        rw (packed, locked) refl,
        λ z' same.
            let (y', opened, same') = unlock z' same in
            let (p, got, same'') = unpack y' same' in (p, rw (opened, got) refl, same''),
      )
  encode_lem id sg index seed digest h = (sg, refl, λ z' same. (z', refl, same))

  find_existing_lem :
      (s : B.State) (digest : Bytes)
      → length digest ≡ 32
      → (gens : List Bytes)
      → ((g : Bytes) × (raw : Bytes) × In g gens
          × (K.file s (chunk g digest) ≡ some raw)
          × (find_existing R B repo e digest gens s ≡ (ok (some g), s)))
        ⊎ (((g : Bytes) → In g gens → K.file s (chunk g digest) ≡ none)
            × (find_existing R B repo e digest gens s ≡ (ok none, s)))
  unfolding find_existing existing_or
  find_existing_lem s digest h [] = inr (λ g i. absurd i, refl)
  find_existing_lem s digest h (g ∷ gens) = elim (Option-cases (K.file s (chunk g digest))) [
    | inr (raw, there) ↦
        let (m, looked) = K.read_metadata-some s (chunk g digest) raw there in
        inl (g, raw, inl refl, there, rw (chunk_rel_path-eq R B repo P K digest g h, looked) refl)
    | inl gone ↦
        let looked = K.read_metadata-none s (chunk g digest) gone in
        elim (find_existing_lem s digest h gens) [
          | inl (g', raw, i, there, run) ↦
              inl
                (g', raw, inr i, there, rw (chunk_rel_path-eq R B repo P K digest g h, looked) run)
          | inr (none_left, run) ↦ inr (
            λ g' i. elim i [
              | inl same ↦ subst (λ g. K.file s (chunk g digest) ≡ none) same gone
              | inr i' ↦ none_left g' i'
            ],
            rw (chunk_rel_path-eq R B repo P K digest g h, looked) run,
          )
        ]
  ]

  module _ (cur : Bytes) (older : List Bytes) where
    move_existing_lem :
        (s : B.State) (digest g raw : Bytes)
        → length digest ≡ 32
        → K.file s (chunk g digest) ≡ some raw
        → (s' : B.State) × (move_existing R B repo e digest cur g s ≡ (ok tt, s'))
          × Keeps R B repo P K (some d) cur s s'
          × Has R B repo P K (some d) (cur ∷ []) s' digest
    unfolding move_existing renamed
    move_existing_lem s digest g raw h there = elim (Bytes-discrete g cur) [
      | yes same ↦ (
        s,
        if_pos (Bytes-discrete g cur) same (ok tt, s) _,
        Keeps-refl R B repo P K (some d) cur s,
        (cur, inl refl, raw, subst (λ g. K.file s (chunk g digest) ≡ some raw) same there),
      )
      | no differ ↦
          let (s', run, moved) = K.rename-some s (chunk g digest) (chunk cur digest) raw there in
          (
            s',
            if_neg (Bytes-discrete g cur) differ (ok tt, s) _
                ∙ rw
                    (
                      chunk_rel_path-eq R B repo P K digest g h,
                      chunk_rel_path-eq R B repo P K digest cur h,
                      run,
                    )
                    refl,
            moved-Keeps R B repo P K (some d) cur older s s' digest g raw there moved,
            (
              cur,
              inl refl,
              raw,
              at_cur R B repo P K (some d) cur older s s' digest g raw there moved,
            ),
          )
    ]

    -- What is done once the lookup is over.
    abbrev Stored : B.State → Bytes → Result (Unit {0}) × B.State → Type 0
    Stored s c run =
        (s' : B.State) × (run ≡ (ok tt, s'))
        × Keeps R B repo P K (some d) cur s s'
        × Has R B repo P K (some d) (cur ∷ []) s' (P.hash c)

    handle_new :
        (s : B.State) (m : Message R Seed)
        → P.Known m.data_type (bytes R m.sg)
        → K.file s (chunk cur (P.hash (bytes R m.sg))) ≡ none
        → Stored s (bytes R m.sg) (handle R B repo e m (P.hash (bytes R m.sg)) cur none s)
    unfolding handle write_checked_idempotent
    handle_new s m known gone =
        let c = bytes R m.sg in
        let h = P.length-hash c in
        let (z, encoded, decodes) = encode_lem m.id m.sg m.data_type m.seed (P.hash c) h in
        let (s', run, written) = K.write-new s (chunk cur (P.hash c)) z true (inl gone) in
        (
          s',
          rw (encoded, chunk_rel_path-eq R B repo P K (P.hash c) cur h, run) refl,
          written-Keeps R B repo P K (some d) cur older s s' m.data_type c (bytes R z) known decodes
              written,
          written-Has R B repo P K (some d) cur [] s s' m.data_type c (bytes R z) known decodes
              written,
        )

    handle_found :
        (s : B.State) (m : Message R Seed) (g raw : Bytes)
        → K.file s (chunk g (P.hash (bytes R m.sg))) ≡ some raw
        → Stored s (bytes R m.sg) (handle R B repo e m (P.hash (bytes R m.sg)) cur (some g) s)
    unfolding handle
    handle_found s m g raw there =
        let digest = P.hash (bytes R m.sg) in
        move_existing_lem s digest g raw (P.length-hash (bytes R m.sg)) there

    -- Whether a chunk of known content is new, in the newest generation or in an older one: the
    -- processor answers with its number and the digest of its content, the repository keeps what it
    -- had and then has the chunk in its newest generation.
    pub process-Has :
        (gen_strings : List Bytes)
        → reverse gen_strings ≡ cur ∷ older
        → (s : B.State) (m : Message R Seed) → P.Known m.data_type (bytes R m.sg)
        → (s' : B.State) × (process R B repo e gen_strings m s
            ≡ (ok (m.id, P.hash (bytes R m.sg)), s'))
          × Keeps R B repo P K (some d) cur s s'
          × Has R B repo P K (some d) (cur ∷ []) s' (P.hash (bytes R m.sg))
    unfolding process
    process-Has gen_strings newest s m known =
        let c = bytes R m.sg in
        let lookup =
          find_existing_lem s (P.hash c) (P.length-hash c) ((cur ∷ older) ++ (cur ∷ [])) in
        elim lookup [
          | inl (g, raw, i, there, found) ↦
              let (s', run, k, has) = handle_found s m g raw there in
              (s', rw (newest, P.calculate_digest-eq m.sg, found, run) refl, k, has)
          | inr (none_left, found) ↦
              let (s', run, k, has) = handle_new s m known (none_left cur (inl refl)) in
              (s', rw (newest, P.calculate_digest-eq m.sg, found, run) refl, k, has)
        ]
