-- ===== src/Name/Laws.antt =====
-- lib/src/name.rs over a backend whose files are known by their keys.
use mathlib.Core.List.{reverse}
use rdedup.Base.{
  ◌≡◌, refl, ◌∙◌, ap, inr, Bytes, length, none, some, All, ok, err, not_found, List, [], ◌∷◌, ◌++◌,
  false, arith,
}
use rdedup.SgData
use rdedup.SgData.{ArcRefs, IsArcRef, SgData}
use rdedup.SgData.Laws.{bytes-from_single, to_linear_vec-eq-bytes}
use rdedup.Io.{Io}
use rdedup.Aio.{Backend, IsBackend, Layout, Key, name_file, put}
use rdedup.Store.{put_self}
use rdedup.Name.{
  Name, Yaml, or_next, first_of_gens, write_as, check_size, parse, load_from, load_from_any,
}

-- What the program relies on in the crate `serde_yaml`: a name is parsed from its text.
pub record IsYaml (Y : Yaml) : Type 0 where
  pub from_reader-to_string : (n : Name) → Y.from_reader (Y.to_string n) ≡ some n

module _ (R : ArcRefs) (B : Backend R) where
  -- A generation without the name leads to the next one.
  pub first_of_gens-next :
      {A : Type 0} (f : Bytes → Io B.State A) (gen : Bytes) (gens : List Bytes) (s s' : B.State)
      → f gen s ≡ (err not_found, s')
      → first_of_gens R B f (gen ∷ gens) s ≡ first_of_gens R B f gens s'
  unfolding first_of_gens or_next
  first_of_gens-next f gen gens s s' e = rw e refl

  pub first_of_gens-found :
      {A : Type 0} (f : Bytes → Io B.State A) (gen : Bytes) (gens : List Bytes) (s s' : B.State)
      (a : A)
      → f gen s ≡ (ok a, s')
      → first_of_gens R B f (gen ∷ gens) s ≡ (ok a, s')
  unfolding first_of_gens or_next
  first_of_gens-found f gen gens s s' a e = rw e refl

module _ (R : ArcRefs) (L : IsArcRef R) (B : Backend R) (l : Layout) (K : IsBackend R B l)
    (Y : Yaml) where
  -- A name stands in a generation.
  abbrev pub NameAt : Bytes → Bytes → Name → B.State → Type 0
  NameAt gen name n s =
      (raw : Bytes) × (K.file s (name_file gen name) ≡ some raw) × (parse R B Y raw ≡ ok n)

  abbrev pub NoName : Bytes → B.State → Bytes → Type 0
  NoName name s gen = K.file s (name_file gen name) ≡ none

  load_from-eq :
      (name gen : Bytes) (n : Name) (s : B.State)
      → NameAt gen name n s
      → load_from R B Y name gen s ≡ (ok n, s)
  unfolding load_from
  load_from-eq name gen n s (raw, there, parsed) =
      let (sg, run, same, whole) = K.read-some s (name_file gen name) raw there in
      rw (run, to_linear_vec-eq-bytes R L sg whole ∙ same, parsed) refl

  load_from-none :
      (name gen : Bytes) (s : B.State)
      → NoName name s gen
      → load_from R B Y name gen s ≡ (err not_found, s)
  unfolding load_from
  load_from-none name gen s e = rw (K.read-none s (name_file gen name) e) refl

  -- A name is loaded from the newest generation that has it.
  pub first_name :
      (name gen : Bytes) (n : Name) (newer older : List Bytes) (s : B.State)
      → All (NoName name s) newer
      → NameAt gen name n s
      → first_of_gens R B (load_from R B Y name) (newer ++ (gen ∷ older)) s ≡ (ok n, s)
  first_name name gen n [] older s a at =
      first_of_gens-found R B (load_from R B Y name) gen older s s n (load_from-eq name gen n s at)
  first_name name gen n (g ∷ newer) older s a at =
      first_of_gens-next R B (load_from R B Y name) g (newer ++ (gen ∷ older)) s s
        (load_from-none name g s a.0)
      ∙ first_name name gen n newer older s a.1 at

  pub load_from_any-eq :
      (name gen : Bytes) (n : Name) (gen_strings newer older : List Bytes) (s : B.State)
      → reverse gen_strings ≡ newer ++ (gen ∷ older)
      → All (NoName name s) newer
      → NameAt gen name n s
      → load_from_any R B Y name gen_strings s ≡ (ok n, s)
  unfolding load_from_any
  load_from_any-eq name gen n gen_strings newer older s e a at =
      rw e (first_name name gen n newer older s a at)

  module _ (KY : IsYaml Y) where
    pub parse-to_string : (n : Name) → length n.digest ≡ 32 → parse R B Y (Y.to_string n) ≡ ok n
    unfolding parse check_size
    parse-to_string n size = rw (parse, KY.from_reader-to_string n) (ground (arith, size))

    -- A name that the newest generation does not have is written there and nowhere else, and from
    -- then on it is what is loaded, whatever the older generations have. Its digest has 32 bytes.
    pub load_from_any-write_as :
        (n : Name) (name cur : Bytes) (gen_strings older : List Bytes) (s : B.State)
        → reverse gen_strings ≡ cur ∷ older
        → length n.digest ≡ 32
        → NoName name s cur
        → (s' : B.State) × (write_as R B Y n name cur s ≡ (ok tt, s'))
          × ((i : Key) → K.file s' i ≡ put (K.file s) (name_file cur name) (some (Y.to_string n)) i)
          × (load_from_any R B Y name gen_strings s' ≡ (ok n, s'))
    unfolding write_as
    load_from_any-write_as n name cur gen_strings older s e size absent =
        let sg = SgData.from_single R (Y.to_string n) in
        let (s', run, written) = K.write-new s (name_file cur name) sg false (inr refl) in
        let text = bytes-from_single R L (Y.to_string n) in
        let files : (i : Key)
            → K.file s' i ≡ put (K.file s) (name_file cur name) (some (Y.to_string n)) i =
          λ i. written i ∙ ap (λ b. put (K.file s) (name_file cur name) (some b) i) text in
        (
          s',
          rw (write_as, K.read-none s (name_file cur name) absent) run,
          files,
          load_from_any-eq name cur n gen_strings [] older s' e tt (
            Y.to_string n,
            files (name_file cur name)
                ∙ put_self (K.file s) (name_file cur name) (some (Y.to_string n)),
            parse-to_string n size,
          ),
        )
