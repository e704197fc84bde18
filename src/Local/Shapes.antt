-- ===== src/Local/Shapes.antt =====
-- The paths of a repository: which of them are files, and which are the directories above these.
use rdedup.Base.{
  ◌≢◌, ℕ, zero, suc, ◌+◌, ◌<◌, ◌≡◌, refl, ◌∙◌, sym, ap, subst, Bool, true, false, ltb, ◌==◌, Bytes,
  Bytes-discrete, codes, length, length-append, Option, none, some, All, List, [], ◌∷◌, ◌++◌, ite,
  if_pos, if_neg, arith,
}
use rdedup.Nesting.{FilePath, data_subdir, chunk_path, level_dirs}
use rdedup.Aio.{
  Layout, Key, gen_config, name_file, chunk, key_path, config_path, name_path, name_subdir,
  config_yml_file,
}
use rdedup.Disk.{parent, prefixes}

-- What the program relies on in the crate `hex`: no digit is a `p`, and different bytes have different
-- digits.
pub record IsHex (l : Layout) : Type 0 where
  pub digits : (b : Bytes) → All (λ c. c ≢ b'p') (l.hex_encode b)
  pub hex-injective : (b c : Bytes) → l.hex_encode b ≡ l.hex_encode c → b ≡ c

module _ (l : Layout) where
  -- How many components a file has below the directory of its kind.
  abbrev pub limit : Bytes → Option ℕ
  limit c = ite (Bytes-discrete c config_yml_file) (some 0) (
      ite (Bytes-discrete c name_subdir) (some 1)
        (ite (Bytes-discrete c data_subdir) (some (l.levels + 1)) none))

  abbrev pub reaches : Option ℕ → ℕ → Bool
  reaches none m = false
  reaches (some n) m = m == n

  abbrev pub stays_above : Option ℕ → ℕ → Bool
  stays_above none m = false
  stays_above (some n) m = ltb m n

  -- A path where a file may be.
  unfoldable pub file_shape : FilePath → Bool
  file_shape [] = false
  file_shape (g ∷ []) = false
  file_shape (g ∷ c ∷ rest) = reaches (limit c) (length rest)

  -- A path where a directory may be.
  unfoldable pub dir_shape : FilePath → Bool
  dir_shape [] = true
  dir_shape (g ∷ []) = true
  dir_shape (g ∷ c ∷ rest) = stays_above (limit c) (length rest)

  limit-config : limit config_yml_file ≡ some 0
  limit-config = if_pos (Bytes-discrete config_yml_file config_yml_file) refl _ _

  limit-name : limit name_subdir ≡ some 1
  limit-name =
      if_neg (Bytes-discrete name_subdir config_yml_file) (λ e. omega (arith, ap length e)) _ _
      ∙ if_pos (Bytes-discrete name_subdir name_subdir) refl _ _

  limit-data : limit data_subdir ≡ some (l.levels + 1)
  limit-data =
      if_neg (Bytes-discrete data_subdir config_yml_file) (λ e. omega (arith, ap length e)) _ _
      ∙ if_neg (Bytes-discrete data_subdir name_subdir) (λ e. omega (arith, ap length e)) _ _
      ∙ if_pos (Bytes-discrete data_subdir data_subdir) refl _ _

  length-level_dirs : (n i : ℕ) (hex : Bytes) → length (level_dirs n i hex) ≡ n
  unfolding level_dirs
  length-level_dirs zero i hex = refl
  length-level_dirs (suc n) i hex = ap suc (length-level_dirs n (i + 1) hex)

  -- The parts of a key's path.
  pub record Parts (path : FilePath) : Type 0 where
    pub gen : Bytes
    pub kind : Bytes
    pub rest : FilePath
    pub n : ℕ
    pub path-eq : path ≡ gen ∷ kind ∷ rest
    pub limit-eq : limit kind ≡ some n
    pub length-eq : length rest ≡ n

  pub parts : (k : Key) → Parts (key_path l k)
  unfolding config_path name_path chunk_path
  parts (gen_config g) = record {
    gen = g;
    kind = config_yml_file;
    rest = [];
    n = 0;
    path-eq = refl;
    limit-eq = limit-config;
    length-eq = refl;
  }
  parts (name_file g name) = record {
    gen = g;
    kind = name_subdir;
    rest = (name ++ codes ".yml") ∷ [];
    n = 1;
    path-eq = refl;
    limit-eq = limit-name;
    length-eq = refl;
  }
  parts (chunk g digest) = record {
    gen = g;
    kind = data_subdir;
    rest = level_dirs l.levels 0 (l.hex_encode digest) ++ (l.hex_encode digest ∷ []);
    n = l.levels + 1;
    path-eq = refl;
    limit-eq = limit-data;
    length-eq = omega (
      arith,
      length-append (level_dirs l.levels 0 (l.hex_encode digest)) (l.hex_encode digest ∷ []),
      length-level_dirs l.levels 0 (l.hex_encode digest),
    );
  }

  eqb-same : (n : ℕ) → (n == n) ≡ true
  eqb-same n = ground arith

  eq-not-ltb : (m n : ℕ) → (m == n) ≡ true → ltb m n ≡ false
  eq-not-ltb m n h = ground (arith, h)

  -- No path is both.
  file-not-dir : (p : FilePath) → file_shape p ≡ true → dir_shape p ≡ false
  unfolding dir_shape file_shape
  file-not-dir [] e = sym e
  file-not-dir (g ∷ []) e = sym e
  file-not-dir (g ∷ c ∷ rest) e = go (limit c) e
    where
      go : (o : Option ℕ) → reaches o (length rest) ≡ true → stays_above o (length rest) ≡ false
      go none e = refl
      go (some n) e = eq-not-ltb (length rest) n e

  file_shape-Parts : (p : FilePath) → Parts p → file_shape p ≡ true
  unfolding file_shape
  file_shape-Parts p ps =
      subst (λ path. file_shape path ≡ true) (sym ps.path-eq)
        (subst (λ o. reaches o (length ps.rest) ≡ true) (sym ps.limit-eq)
          (subst (λ m. (length ps.rest == m) ≡ true) ps.length-eq (eqb-same (length ps.rest))))

  -- The file of a key is not where a directory may be.
  pub dir_shape-key : (k : Key) → dir_shape (key_path l k) ≡ false
  dir_shape-key k = file-not-dir (key_path l k) (file_shape-Parts (key_path l k) (parts k))

  dir_shape-short :
      (g c : Bytes) (xs : FilePath) (n : ℕ)
      → limit c ≡ some n
      → length xs < n
      → dir_shape (g ∷ c ∷ xs) ≡ true
  unfolding dir_shape
  dir_shape-short g c xs n e h =
      subst (λ o. stays_above o (length xs) ≡ true) (sym e) (test (length xs) n h)
    where
      test : (a b : ℕ) → a < b → ltb a b ≡ true
      test a b h = ground (arith, h)

  abbrev pub Dirs : List FilePath → Type 0
  Dirs paths = All (λ p. dir_shape p ≡ true) paths

  prefixes-Dirs :
      (g c : Bytes) (above xs : FilePath) (n : ℕ)
      → limit c ≡ some n
      → length above + length xs < n
      → Dirs (prefixes (g ∷ c ∷ above) xs)
  unfolding prefixes
  prefixes-Dirs g c above [] n e h = tt
  prefixes-Dirs g c above (x ∷ xs) n e h =
      let more = length-append above (x ∷ []) in
      (
        dir_shape-short g c (above ++ (x ∷ [])) n e (omega (arith, h, more)),
        prefixes-Dirs g c (above ++ (x ∷ [])) xs n e (omega (arith, h, more)),
      )

  length-parent : (x : Bytes) (xs : FilePath) → length (parent (x ∷ xs)) ≡ length xs
  unfolding parent
  length-parent x [] = refl
  length-parent x (y ∷ ys) = ap suc (length-parent y ys)

  -- What stands above a file's path are directories.
  above-Dirs :
      (g c : Bytes) (rest : FilePath) (n : ℕ)
      → limit c ≡ some n
      → length rest ≡ n
      → Dirs (prefixes [] (parent (g ∷ c ∷ rest)))
  unfolding parent prefixes dir_shape
  above-Dirs g c [] n e h = (refl, tt)
  above-Dirs g c (x ∷ xs) n e h =
      let below = length-parent x xs in
      (
        refl,
        (
          dir_shape-short g c [] n e (omega (arith, h)),
          prefixes-Dirs g c [] (parent (x ∷ xs)) n e (omega (arith, h, below)),
        ),
      )

  pub key_path-Dirs : (k : Key) → Dirs (prefixes [] (parent (key_path l k)))
  key_path-Dirs k =
      let p = parts k in
      subst (λ path. Dirs (prefixes [] (parent path))) (sym p.path-eq)
        (above-Dirs p.gen p.kind p.rest p.n p.limit-eq p.length-eq)
