-- ===== src/Store/Writes.antt =====
-- A chunk that is written.
use rdedup.Base.{◌≡◌, ◌≢◌, refl, ◌∙◌, sym, ap, subst, Bytes, Option, some, List, [], ◌∷◌, inl}
use rdedup.SgData.{ArcRefs}
use rdedup.Encryption.{Decrypter}
use rdedup.Aio.{Backend, IsBackend, Key, Key-discrete, chunk, name_file, gen_config, put}
use rdedup.Reading.{DataType}
use rdedup.Reading.Decode.{Repo}
use rdedup.Store.{IsRepo, Has, Keeps, Decodes, put_self, put_ne}

digest_of : Key → Bytes
digest_of (chunk gen digest) = digest
digest_of k = []

some-injective : {b c : Bytes} → some b ≡ some c → b ≡ c
some-injective e = cc e

module _ (R : ArcRefs) (B : Backend R) (repo : Repo R) (P : IsRepo R repo)
    (K : IsBackend R B repo.layout) (decrypter : Option (Decrypter R)) (cur : Bytes)
    (gens : List Bytes) where
  module _ (s s' : B.State) (t : DataType) (c raw : Bytes) (known : P.Known t c)
      (decodes : Decodes R B repo P K decrypter t (P.hash c) raw c)
      (written : (i : Key) → K.file s' i ≡ put (K.file s) (chunk cur (P.hash c)) (some raw) i) where
    elsewhere : (j : Key) → chunk cur (P.hash c) ≢ j → K.file s' j ≡ K.file s j
    elsewhere j h = written j ∙ put_ne (K.file s) (chunk cur (P.hash c)) (some raw) j h

    here : K.file s' (chunk cur (P.hash c)) ≡ some raw
    here = written _ ∙ put_self (K.file s) (chunk cur (P.hash c)) (some raw)

    at_same : (j : Key) → chunk cur (P.hash c) ≡ j → K.file s' j ≡ some raw
    at_same j h = subst (λ j. K.file s' j ≡ some raw) h here

    pub written-Has : Has R B repo P K decrypter (cur ∷ gens) s' (P.hash c)
    written-Has = (cur, inl refl, raw, here)

    -- A known content that is written under its digest keeps what was there.
    pub written-Keeps : Keeps R B repo P K decrypter cur s s'
    unfolding digest_of
    written-Keeps = record {
      good = λ good g d r e. elim (Key-discrete (chunk cur (P.hash c)) (chunk g d)) [
        | yes h ↦ (
          t,
          c,
          known,
          ap digest_of h,
          subst (λ d. Decodes R B repo P K decrypter t d r c) (ap digest_of h)
              (subst (λ r. Decodes R B repo P K decrypter t (P.hash c) r c)
                (some-injective (sym (at_same (chunk g d) h) ∙ e)) decodes),
        )
        | no h ↦ good g d r (sym (elsewhere (chunk g d) h) ∙ e)
      ];
      has = λ gens d (g, i, r, e). elim (Key-discrete (chunk cur (P.hash c)) (chunk g d)) [
        | yes h ↦ (g, i, raw, at_same (chunk g d) h)
        | no h ↦ (g, i, r, elsewhere (chunk g d) h ∙ e)
      ];
      names = λ g n. elsewhere (name_file g n) (λ e. cc e);
      configs = λ g. elsewhere (gen_config g) (λ e. cc e);
    }
