-- ===== src/Tests/Memory.antt =====
-- A backend in memory: what it holds is a function of the keys, and a path is parsed to its key.
use rdedup.Base.{
  All, ◌*◌, ◌-◌, ◌≡◌, ◌≢◌, refl, ◌∙◌, sym, ap, ◌⊎◌, inl, inr, Bool, true, false, Option, none, some,
  Option-cases, Bytes, Bytes-discrete, length, length-append, take, take-append, codes, Result, ok,
  err, not_found, ErrorKind, [], ◌∷◌, if◌then◌else◌, ◌&&◌, ite, if_pos, if_neg, arith, append-nil,
}
use rdedup.Io.{Io}
use rdedup.SgData.{SgData, bytes}
use rdedup.Nesting.{FilePath, data_subdir, chunk_path, level_dirs}
use rdedup.Aio.{
  Key, gen_config, name_file, chunk, name_path, config_path, name_subdir, config_yml_file, Layout,
  key_path, Metadata, Backend, IsBackend, put,
}
use rdedup.Repository.Wipe.{gen_of}
use rdedup.Tests.Crates.{window}

unfoldable pub twice : Bytes → Bytes
twice [] = []
twice (b ∷ bs) = b ∷ b ∷ twice bs

pub length-twice : (bs : Bytes) → length (twice bs) ≡ 2 * length bs
unfolding twice
length-twice [] = refl
length-twice (b ∷ bs) = omega (arith, length-twice bs)

halve : Bytes → Bytes
halve [] = []
halve (b ∷ []) = []
halve (b ∷ c ∷ bs) = b ∷ halve bs

halve-twice : (bs : Bytes) → halve (twice bs) ≡ bs
unfolding halve twice
halve-twice [] = refl
halve-twice (b ∷ bs) = ap (λ t. b ∷ t) (halve-twice bs)

abbrev pub flat : Layout
flat = record { hex_encode = twice; levels = 0 }

abbrev pub Held : Type 0
Held = Key → Option Bytes

pub parse_path : FilePath → Option Key
parse_path (g ∷ c ∷ []) = some (gen_config g)
parse_path (g ∷ d ∷ x ∷ []) =
    some
      (ite (Bytes-discrete d data_subdir) (chunk g (halve x)) (name_file g (take (length x - 4) x)))
parse_path path = none

parse-key_path : (k : Key) → parse_path (key_path flat k) ≡ some k
unfolding parse_path name_path config_path chunk_path level_dirs
parse-key_path (gen_config g) = refl
parse-key_path (name_file g name) = ap some (
    if_neg (Bytes-discrete name_subdir data_subdir) (λ e. omega (arith, ap length e)) _ _
    ∙ ap (name_file g)
        (take-append name (codes ".yml") _ (omega (arith, length-append name (codes ".yml")))))
parse-key_path (chunk g d) =
    ap some
      (if_pos (Bytes-discrete data_subdir data_subdir) refl _ _ ∙ ap (chunk g) (halve-twice d))

module _ {A : Type 0} where
  pub at_key : Option Key → (Key → Io Held A) → Io Held A
  at_key none f s = (err ErrorKind.other, s)
  at_key (some k) f s = f k s

  pub when_there : Option Bytes → A → (Bytes → A) → A
  when_there none a f = a
  when_there (some b) a f = f b

pub looked_up : Option Key → Held → Option Bytes
looked_up none s = none
looked_up (some k) s = s k

abbrev pub done : Held → Result (Unit {0}) × Held
done s = (ok tt, s)

abbrev pub missing : Held → Result (Unit {0}) × Held
missing s = (err not_found, s)

false-ne-true : false ≡ true → ⊥
false-ne-true e = cc e

same_name : Bytes → Bytes → Bool
same_name b c = ite (Bytes-discrete b c) true false

dir_of : Key → Bytes
dir_of (gen_config g) = config_yml_file
dir_of (name_file g name) = name_subdir
dir_of (chunk g digest) = data_subdir

pub below : FilePath → Key → Bool
unfolding same_name dir_of
below [] k = true
below (g ∷ []) k = same_name (gen_of k) g
below (g ∷ d ∷ []) k = same_name (gen_of k) g && same_name (dir_of k) d
below (g ∷ d ∷ e ∷ path) k = false

same_name-eq : (b c : Bytes) → same_name b c ≡ true → b ≡ c
unfolding same_name
same_name-eq b c e = elim (Bytes-discrete b c) [
  | yes same ↦ same
  | no differ ↦ absurd (false-ne-true (sym (if_neg (Bytes-discrete b c) differ true false) ∙ e))
]

and_left : (a b : Bool) → a && b ≡ true → a ≡ true
and_left true b e = refl
and_left false b e = e

pub below-gen : (g : Bytes) (rest : FilePath) (k : Key) → below (g ∷ rest) k ≡ true → gen_of k ≡ g
unfolding below
below-gen g [] k e = same_name-eq (gen_of k) g e
below-gen g (d ∷ []) k e = same_name-eq (gen_of k) g (and_left (same_name (gen_of k) g) _ e)
below-gen g (d ∷ x ∷ path) k e = absurd (false-ne-true e)

abbrev pub memory : Backend window
memory = record {
  State = Held;
  remove_dir_all = λ path s. done (λ k. if below path k then none else s k);
  rename = λ src dst. at_key (parse_path src) (λ k.
      at_key (parse_path dst)
        (λ j s. when_there (s k) (missing s) (λ b. done (put (put s k none) j (some b)))));
  write = λ path sg idempotent. at_key (parse_path path) (λ k s.
      when_there (s k) (done (put s k (some (bytes window sg))))
        (λ b. if idempotent then done s else done (put s k (some (bytes window sg)))));
  read = λ path s.
      when_there (looked_up (parse_path path) s) (err not_found) (λ b. ok (window.new b ∷ []));
  remove = λ path.
      at_key (parse_path path) (λ k s. when_there (s k) (missing s) (λ b. done (put s k none)));
  read_metadata = λ path s.
      when_there (looked_up (parse_path path) s) (err not_found)
        (λ b. ok (record { len = length b; is_file = true }));
  list = λ path s. ok [];
  list_recursively = λ path s. [];
}

pub write-new :
    (s : Held) (k : Key) (sg : SgData window) (idempotent : Bool)
    → (s k ≡ none) ⊎ (idempotent ≡ false)
    → (s' : Held) × (memory.write (key_path flat k) sg idempotent s ≡ (ok tt, s'))
      × ((i : Key) → s' i ≡ put s k (some (bytes window sg)) i)
unfolding at_key when_there
write-new s k sg idempotent (inl e) =
    (put s k (some (bytes window sg)), rw (parse-key_path k, e) refl, λ i. refl)
write-new s k sg idempotent (inr e) = elim (Option-cases (s k)) [
  | inl n ↦ (put s k (some (bytes window sg)), rw (parse-key_path k, n) refl, λ i. refl)
  | inr (b, h) ↦ (put s k (some (bytes window sg)), rw (parse-key_path k, h, e) refl, λ i. refl)
]

pub write-again :
    (s : Held) (k : Key) (sg : SgData window)
    → s k ≢ none
    → (s' : Held) × (memory.write (key_path flat k) sg true s ≡ (ok tt, s'))
      × ((i : Key) → s' i ≡ s i)
unfolding at_key when_there
write-again s k sg n = elim (Option-cases (s k)) [
  | inl h ↦ absurd (n h)
  | inr (b, h) ↦ (s, rw (parse-key_path k, h) refl, λ i. refl)
]

pub remove-some :
    (s : Held) (k : Key)
    → s k ≢ none
    → (s' : Held) × (memory.remove (key_path flat k) s ≡ (ok tt, s'))
      × ((i : Key) → s' i ≡ put s k none i)
unfolding at_key when_there
remove-some s k n = elim (Option-cases (s k)) [
  | inl h ↦ absurd (n h)
  | inr (b, h) ↦ (put s k none, rw (parse-key_path k, h) refl, λ i. refl)
]

pub read-some :
    (s : Held) (k : Key) (b : Bytes)
    → s k ≡ some b
    → (sg : SgData window) × (memory.read (key_path flat k) s ≡ ok sg)
      × (bytes window sg ≡ b)
      × All (λ p. window.owner p ≡ window.deref p) sg
unfolding when_there looked_up
read-some s k b e = (window.new b ∷ [], rw (parse-key_path k, e) refl, append-nil b, (refl, tt))

pub read-none : (s : Held) (k : Key) → s k ≡ none → memory.read (key_path flat k) s ≡ err not_found
unfolding when_there looked_up
read-none s k e = rw (parse-key_path k, e) refl

pub read_metadata-some :
    (s : Held) (k : Key) (b : Bytes)
    → s k ≡ some b
    → (m : Metadata) × (memory.read_metadata (key_path flat k) s ≡ ok m)
unfolding when_there looked_up
read_metadata-some s k b e =
    (record { len = length b; is_file = true }, rw (parse-key_path k, e) refl)

pub read_metadata-none :
    (s : Held) (k : Key) → s k ≡ none → memory.read_metadata (key_path flat k) s ≡ err not_found
unfolding when_there looked_up
read_metadata-none s k e = rw (parse-key_path k, e) refl

pub rename-some :
    (s : Held) (k j : Key) (b : Bytes)
    → s k ≡ some b
    → (s' : Held) × (memory.rename (key_path flat k) (key_path flat j) s ≡ (ok tt, s'))
      × ((i : Key) → s' i ≡ put (put s k none) j (some b) i)
unfolding at_key when_there
rename-some s k j b e =
    (put (put s k none) j (some b), rw (parse-key_path k, parse-key_path j, e) refl, λ i. refl)

pub rename-none :
    (s : Held) (k j : Key)
    → s k ≡ none
    → (s' : Held) × (memory.rename (key_path flat k) (key_path flat j) s ≡ (err not_found, s'))
      × ((i : Key) → s' i ≡ s i)
unfolding at_key when_there
rename-none s k j e = (s, rw (parse-key_path k, parse-key_path j, e) refl, λ i. refl)

pub remove-none :
    (s : Held) (k : Key)
    → s k ≡ none
    → (s' : Held) × (memory.remove (key_path flat k) s ≡ (err not_found, s'))
      × ((i : Key) → s' i ≡ s i)
unfolding at_key when_there
remove-none s k e = (s, rw (parse-key_path k, e) refl, λ i. refl)

abbrev pub memory-IsBackend : IsBackend window memory flat
memory-IsBackend = record {
  file = λ s. s;
  read-some = read-some;
  read-none = read-none;
  read_metadata-some = read_metadata-some;
  read_metadata-none = read_metadata-none;
  rename-some = rename-some;
  rename-none = rename-none;
  write-new = write-new;
  write-again = write-again;
  remove-some = remove-some;
  remove-none = remove-none;
}
