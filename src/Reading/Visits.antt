-- ===== src/Reading/Visits.antt =====
-- What an accessor does with the chunks of an address, one after the other.
use mathlib.Core.List.{reverse}
use rdedup.Base.{
  ◌≡◌, ◌∙◌, sym, ap, subst, Bytes, append-nil, concat, concat-append, Option, some, ok, List, [],
  ◌∷◌, ◌++◌,
}
use rdedup.SgData.{ArcRefs}
use rdedup.Encryption.{Decrypter}
use rdedup.Aio.{Backend, IsBackend}
use rdedup.Reading.{DataType, Writer, ChunkAccessor, on_data}
use rdedup.Reading.Decode.{Repo}
use rdedup.Reading.Accessors.{default_read}
use rdedup.Reading.Chunks.{default_read_lem}
use rdedup.Reading.Stream.{Accepts, write_parts_lem}
use rdedup.Store.{IsRepo, Good, Has, Keeps, Keeps-trans, Leaf}

module _ (R : ArcRefs) (B : Backend R) (repo : Repo R) (P : IsRepo R repo)
    (K : IsBackend R B repo.layout) (decrypter : Option (Decrypter R)) (gen_strings : List Bytes)
    (cur : Bytes) (older : List Bytes) (newest : reverse gen_strings ≡ cur ∷ older)
    (s₀ : B.State) where
  -- A chunk in the newest generation.
  abbrev pub Cur : B.State → Bytes → Type 0
  Cur s c = Has R B repo P K decrypter (cur ∷ []) s (P.hash c)

  abbrev pub IsMono : {X A : Type 0} → (B.State → X → A → Type 0) → Type 0
  IsMono {X} {A} Out =
      (s s' : B.State) (x : X) (a : A)
      → Keeps R B repo P K decrypter cur s s'
      → Out s x a
      → Out s' x a

  -- The next chunk of the content `c` is dealt with, and is in the newest generation after it.
  -- `Out s x done` is what holds after the chunks `done`.
  abbrev pub Visits :
      {X : Type 0}
      → ChunkAccessor B.State
      → Option (Writer B.State X)
      → DataType
      → Bytes
      → (B.State → X → List Bytes → Type 0)
      → Type 0
  Visits {X} A o t c Out =
      (s : B.State) (x : X) (done : List Bytes) (e : Bytes) (todo : List Bytes)
      → concat (done ++ (e ∷ todo)) ≡ c
      → Leaf R B repo P K decrypter (cur ∷ older) s₀ t (P.hash e) e
      → Keeps R B repo P K decrypter cur s₀ s
      → Out s x done
      → (s' : B.State) × (x' : X) × (on_data A o t (P.hash e) (s, x) ≡ (ok tt, (s', x')))
        × Keeps R B repo P K decrypter cur s s'
        × Cur s' e
        × Out s' x' (done ++ (e ∷ []))

  -- A writer that takes the content in pieces is given the chunks by an accessor that reads them.
  pub writer-Visits :
      Good R B repo P K decrypter s₀
      → {X : Type 0} (A : ChunkAccessor B.State) (w : Writer B.State X) (t : DataType) (c : Bytes)
        (Out : B.State → X → Bytes → Type 0)
      → ((digest : Bytes)
          → A.read_chunk_into w digest t ≡ default_read R B repo decrypter gen_strings w digest t)
      → Accepts R B repo P K decrypter cur s₀ w c Out
      → IsMono Out
      → Visits A (some w) t c (λ s x l. Out s x (concat l))
  unfolding on_data
  writer-Visits good A w t c Out reads acc mono s x done e todo split (known, h, there) k out =
      let (s₁, p, same, k₁, cur₁, run) =
        default_read_lem R B repo P K decrypter gen_strings cur older newest s t (P.hash e) e
          (k.good good) (known, h, k.has older (P.hash e) there) in
      let (s₂, x₂, run₂, k₂, out₂) =
        write_parts_lem R B repo P K decrypter cur s₀ w c Out acc p s₁ x (concat done) (concat todo)
          (Keeps-trans R B repo P K decrypter cur k k₁) (mono s s₁ x (concat done) k₁ out)
          (ap (λ q. concat done ++ (q ++ concat todo)) same
            ∙ sym (concat-append done (e ∷ todo))
            ∙ split) in
      (
        s₂,
        x₂,
        ap (λ f. f (s, x)) (reads (P.hash e)) ∙ run _ w x ∙ run₂,
        Keeps-trans R B repo P K decrypter cur k₁ k₂,
        k₂.has [] (P.hash e) cur₁,
        subst (Out s₂ x₂)
            (ap (λ q. concat done ++ q) (same ∙ sym (append-nil e))
              ∙ sym (concat-append done (e ∷ [])))
            out₂,
      )
