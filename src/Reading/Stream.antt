-- ===== src/Reading/Stream.antt =====
-- Writers that take a stream in pieces, and the translator of an index among them.
use mathlib.Core.List.{tail}
use rdedup.Base.{
  ◌≡◌, refl, ◌∙◌, sym, ap, Bytes, length, append_assoc, append-nil, Option, ok, [], ◌∷◌, ◌++◌,
  subst, arith,
}
use rdedup.SgData.{ArcRefs, SgData, bytes}
use rdedup.Encryption.{Decrypter}
use rdedup.Aio.{Backend, IsBackend}
use rdedup.Reading.{Writer}
use rdedup.Reading.Decode.{Repo}
use rdedup.Reading.Accessors.{write_parts}
use rdedup.Store.{IsRepo, Keeps, Keeps-refl, Keeps-trans}

-- Equal streams with heads of one length have equal heads and equal rests.
pub split_eq :
    (xs us ys vs : Bytes) → length xs ≡ length us → xs ++ ys ≡ us ++ vs → (xs ≡ us) × (ys ≡ vs)
split_eq [] [] ys vs l e = (refl, e)
split_eq [] (u ∷ us) ys vs l e = absurd (omega arith)
split_eq (x ∷ xs) [] ys vs l e = absurd (omega arith)
split_eq (x ∷ xs) (u ∷ us) ys vs l e =
    let (heads, rests) = split_eq xs us ys vs (omega arith) (ap tail e) in
    (ground (arith, heads, e), rests)

-- The plain writer appends what it is given to what it was given before.
unfoldable pub sink : {S : Type 0} → Writer S Bytes
sink p (s, x) = (ok tt, (s, x ++ p))

module _ (R : ArcRefs) (B : Backend R) (repo : Repo R) (P : IsRepo R repo)
    (K : IsBackend R B repo.layout) (decrypter : Option (Decrypter R)) (cur : Bytes)
    (s₀ : B.State) where
  -- From any state that `s₀` led to, the writer takes the next piece of the stream. `Out s x b` says
  -- that the writer in state `x` was given `b`.
  abbrev pub Accepts :
      {X : Type 0} → Writer B.State X → Bytes → (B.State → X → Bytes → Type 0) → Type 0
  Accepts {X} w stream Out =
      (s : B.State) (x : X) (b p r : Bytes)
      → Keeps R B repo P K decrypter cur s₀ s
      → Out s x b
      → b ++ (p ++ r) ≡ stream
      → (s' : B.State) × (x' : X) × (w p (s, x) ≡ (ok tt, (s', x')))
        × Keeps R B repo P K decrypter cur s s'
        × Out s' x' (b ++ p)

  -- The parts of a chunk are pieces.
  pub write_parts_lem :
      {X : Type 0} (w : Writer B.State X) (stream : Bytes) (Out : B.State → X → Bytes → Type 0)
      → Accepts w stream Out
      → (sg : SgData R) (s : B.State) (x : X) (b r : Bytes) → Keeps R B repo P K decrypter cur s₀ s
      → Out s x b
      → b ++ (bytes R sg ++ r) ≡ stream
      → (s' : B.State) × (x' : X) × (write_parts R B repo w sg (s, x) ≡ (ok tt, (s', x')))
        × Keeps R B repo P K decrypter cur s s'
        × Out s' x' (b ++ bytes R sg)
  unfolding write_parts
  write_parts_lem w stream Out acc [] s x b r k out e = (
    s,
    x,
    refl,
    Keeps-refl R B repo P K decrypter cur s,
    subst (Out s x) (sym (append-nil b)) out,
  )
  write_parts_lem w stream Out acc (part ∷ parts) s x b r k out e =
      let here = R.deref part in
      let later = bytes R parts in
      let (s₁, x₁, run₁, k₁, out₁) =
        acc s x b here (later ++ r) k out
          (ap (λ t. b ++ t) (sym (append_assoc here later r)) ∙ e) in
      let (s₂, x₂, run₂, k₂, out₂) =
        write_parts_lem w stream Out acc parts s₁ x₁ (b ++ here) r
          (Keeps-trans R B repo P K decrypter cur k k₁) out₁
          (append_assoc b here (later ++ r)
            ∙ ap (λ t. b ++ t) (sym (append_assoc here later r))
            ∙ e) in
      (
        s₂,
        x₂,
        rw run₁ run₂,
        Keeps-trans R B repo P K decrypter cur k₁ k₂,
        subst (Out s₂ x₂) (append_assoc b here later) out₂,
      )

  pub sink-Accepts : (x₀ stream : Bytes) → Accepts sink stream (λ s x b. x ≡ x₀ ++ b)
  unfolding sink
  sink-Accepts x₀ stream s x b p r k out e = (
    s,
    x ++ p,
    refl,
    Keeps-refl R B repo P K decrypter cur s,
    ap (λ t. t ++ p) out ∙ append_assoc x₀ b p,
  )
