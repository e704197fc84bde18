-- ===== src/Local/Names.antt =====
-- The paths of different files of a repository differ, and those of temporary files from them all.
use rdedup.Base.{
  ℕ, suc, ◌≡◌, ◌≢◌, refl, ◌∙◌, sym, ap, subst, false, ltb, Bytes, Bytes-discrete, codes, length,
  length-append, take, take-append, none, some, All, [], ◌∷◌, ◌++◌, if_neg, arith,
}
use rdedup.Nesting.{FilePath, data_subdir, chunk_path, level_dirs}
use rdedup.Aio.{
  Layout, Key, gen_config, name_file, chunk, key_path, config_path, name_path, name_subdir,
  config_yml_file,
}
use rdedup.Repository.{file_stem}
use rdedup.Local.{with_extension}
use rdedup.Local.Shapes.{IsHex, limit, stays_above, dir_shape, parts}

-- The last component of a path, and the last byte of that.
last_comp : FilePath → Bytes
last_comp [] = []
last_comp (c ∷ []) = c
last_comp (c ∷ d ∷ path) = last_comp (d ∷ path)

final : Bytes → ℕ
final [] = 0
final (b ∷ []) = b
final (b ∷ c ∷ bs) = final (c ∷ bs)

final-append : (xs : Bytes) (y : ℕ) (ys : Bytes) → final (xs ++ (y ∷ ys)) ≡ final (y ∷ ys)
unfolding final
final-append [] y ys = refl
final-append (x ∷ []) y ys = refl
final-append (x ∷ x' ∷ xs) y ys = final-append (x' ∷ xs) y ys

last_comp-append : (xs : FilePath) (y : Bytes) → last_comp (xs ++ (y ∷ [])) ≡ y
unfolding last_comp
last_comp-append [] y = refl
last_comp-append (x ∷ []) y = refl
last_comp-append (x ∷ x' ∷ xs) y = last_comp-append (x' ∷ xs) y

final-digits : (bs : Bytes) → All (λ c. c ≢ b'p') bs → final bs ≢ b'p'
unfolding final
final-digits [] a e = absurd (omega (arith, e))
final-digits (b ∷ []) a e = a.0 e
final-digits (b ∷ c ∷ bs) a e = final-digits (c ∷ bs) a.1 e

-- The extension of a temporary file, behind the thread's own part.
abbrev pub tmp_ext : Bytes → Bytes
tmp_ext rand_ext = rand_ext ++ codes ".tmp"

final-tmp : (stem rand_ext : Bytes) → final (stem ++ (codes "." ++ tmp_ext rand_ext)) ≡ 112
unfolding final
final-tmp stem rand_ext =
    final-append stem b'.' (tmp_ext rand_ext) ∙ final-append (b'.' ∷ rand_ext) b'.' (codes "tmp")

tmp-final :
    (rand_ext c : Bytes) (path : FilePath)
    → final (last_comp (with_extension (tmp_ext rand_ext) (c ∷ path))) ≡ 112
unfolding with_extension last_comp
tmp-final rand_ext c [] = final-tmp (file_stem c) rand_ext
tmp-final rand_ext c (d ∷ []) = final-tmp (file_stem d) rand_ext
tmp-final rand_ext c (d ∷ e ∷ path) = tmp-final rand_ext d (e ∷ path)

length-with_extension :
    (ext c : Bytes) (path : FilePath) → length (with_extension ext (c ∷ path)) ≡ suc (length path)
unfolding with_extension
length-with_extension ext c [] = refl
length-with_extension ext c (d ∷ path) = ap suc (length-with_extension ext d path)

module _ (l : Layout) (H : IsHex l) where
  key-final : (k : Key) → final (last_comp (key_path l k)) ≢ 112
  unfolding last_comp final config_path name_path chunk_path
  key-final (gen_config g) e = absurd (omega (arith, e))
  key-final (name_file g name) e = absurd (omega (arith, e, final-append name b'.' (codes "yml")))
  key-final (chunk g digest) e =
      let hex = l.hex_encode digest in
      let last = last_comp-append (g ∷ data_subdir ∷ level_dirs l.levels 0 hex) hex in
      final-digits hex (H.digits digest) (sym (ap final last) ∙ e)

  pub tmp-ne-key :
      (rand_ext : Bytes) (k i : Key)
      → with_extension (tmp_ext rand_ext) (key_path l k) ≢ key_path l i
  tmp-ne-key rand_ext k i e =
      let p = parts l k in
      key-final i (
        sym (ap (λ path. final (last_comp path)) e)
        ∙ ap (λ path. final (last_comp (with_extension (tmp_ext rand_ext) path))) p.path-eq
        ∙ tmp-final rand_ext p.gen (p.kind ∷ p.rest))

  append-cancel : (xs ys zs : Bytes) → xs ++ zs ≡ ys ++ zs → xs ≡ ys
  append-cancel xs ys zs e =
      sym (take-append xs zs (length xs) refl)
      ∙ ap (take (length xs)) e
      ∙ take-append ys zs (length xs)
          (omega (arith, ap length e, length-append xs zs, length-append ys zs))

  second : FilePath → Bytes
  second [] = []
  second (c ∷ []) = []
  second (c ∷ d ∷ path) = d

  -- Different files of a repository have different paths.
  pub key_path-injective : (k j : Key) → key_path l k ≡ key_path l j → k ≡ j
  unfolding config_path name_path chunk_path second last_comp
  key_path-injective (gen_config g) (gen_config h) e = ap gen_config (cc e)
  key_path-injective (gen_config g) (name_file h n) e =
      absurd (omega (arith, ap (λ p. length (second p)) e))
  key_path-injective (gen_config g) (chunk h d) e =
      absurd (omega (arith, ap (λ p. length (second p)) e))
  key_path-injective (name_file g m) (gen_config h) e =
      absurd (omega (arith, ap (λ p. length (second p)) e))
  key_path-injective (name_file g m) (name_file h n) e =
      let same : m ≡ n = append-cancel m n (codes ".yml") (cc e) in
      let gens : g ≡ h = cc e in cc (same, gens)
  key_path-injective (name_file g m) (chunk h d) e =
      absurd (omega (arith, ap (λ p. length (second p)) e))
  key_path-injective (chunk g c) (gen_config h) e =
      absurd (omega (arith, ap (λ p. length (second p)) e))
  key_path-injective (chunk g c) (name_file h n) e =
      absurd (omega (arith, ap (λ p. length (second p)) e))
  key_path-injective (chunk g c) (chunk h d) e =
      let gens : g ≡ h = cc e in
      let same : c ≡ d = H.hex-injective c d (
        sym (
          last_comp-append (g ∷ data_subdir ∷ level_dirs l.levels 0 (l.hex_encode c))
            (l.hex_encode c))
        ∙ ap last_comp e
        ∙ last_comp-append (h ∷ data_subdir ∷ level_dirs l.levels 0 (l.hex_encode d))
            (l.hex_encode d)) in
      cc (same, gens)

module _ (l : Layout) where
  limit-tmp : (c : Bytes) → final c ≡ 112 → limit l c ≡ none
  unfolding final
  limit-tmp c e =
      if_neg (Bytes-discrete c config_yml_file) (λ q. omega (arith, sym (ap final q) ∙ e)) _ _
      ∙ if_neg (Bytes-discrete c name_subdir) (λ q. omega (arith, sym (ap final q) ∙ e)) _ _
      ∙ if_neg (Bytes-discrete c data_subdir) (λ q. omega (arith, sym (ap final q) ∙ e)) _ _

  tmp-not-dir :
      (rand_ext g c : Bytes) (rest : FilePath) (n : ℕ)
      → limit l c ≡ some n
      → length rest ≡ n
      → dir_shape l (with_extension (tmp_ext rand_ext) (g ∷ c ∷ rest)) ≡ false
  unfolding with_extension dir_shape
  tmp-not-dir rand_ext g c [] n e h =
      subst (λ o. stays_above l o 0 ≡ false)
        (sym (
          limit-tmp (file_stem c ++ (codes "." ++ tmp_ext rand_ext))
            (final-tmp (file_stem c) rand_ext)))
        refl
  tmp-not-dir rand_ext g c (x ∷ xs) n e h =
      subst (λ o. stays_above l o (length (with_extension (tmp_ext rand_ext) (x ∷ xs))) ≡ false)
        (sym e) (test _ n (omega (arith, h, length-with_extension (tmp_ext rand_ext) x xs)))
    where
      test : (a b : ℕ) → a ≡ b → ltb a b ≡ false
      test a b h = ground (arith, h)

  -- A temporary file is not where a directory may be.
  pub dir_shape-tmp :
      (rand_ext : Bytes) (k : Key)
      → dir_shape l (with_extension (tmp_ext rand_ext) (key_path l k)) ≡ false
  dir_shape-tmp rand_ext k =
      let p = parts l k in
      subst (λ path. dir_shape l (with_extension (tmp_ext rand_ext) path) ≡ false) (sym p.path-eq)
        (tmp-not-dir rand_ext p.gen p.kind p.rest p.n p.limit-eq p.length-eq)
