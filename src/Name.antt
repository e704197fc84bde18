-- ===== src/Name.antt =====
-- lib/src/name.rs: names, each a file in the directory of a generation.
pub mod Laws
pub mod Moves
use rdedup.Base.{
  invalid_input, connection_aborted, other, ℕ, Bytes, Bytes-discrete, length, Option, none, some,
  Result, ok, err, panics, stuck, not_found, already_exists, invalid_data, List, [], ◌∷◌, false,
  ite, ◌==◌, if◌then◌else◌,
}
use mathlib.Core.List.{reverse}
use rdedup.Io.{Io, lift, throw, attempt, ◌>>=◌}
use rdedup.SgData.{ArcRefs, SgData}
use rdedup.SgData
use rdedup.Hashing.{digest_size}
use rdedup.Aio.{Backend, name_path}

-- `DataAddress` of lib/src/misc.rs, and what a name's file holds.
pub record Name : Type 0 where
  pub digest : Bytes
  pub index_level : ℕ

-- The crate `serde_yaml` at `Name`.
pub record Yaml : Type 0 where
  pub to_string : Name → Bytes
  pub from_reader : Bytes → Option Name

module _ (R : ArcRefs) (B : Backend R) where
  open B use {State}

  -- Try each generation from the newest on; a missing file leads to the next.
  or_next {ℓ} : {A : Type ℓ} → Result (Result A) × State → Io State A → Result A × State
  or_next (ok (ok a), s) next = (ok a, s)
  or_next (ok (err not_found), s) next = next s
  or_next (ok (err already_exists), s) next = (err already_exists, s)
  or_next (ok (err invalid_data), s) next = (err invalid_data, s)
  or_next (ok (err invalid_input), s) next = (err invalid_input, s)
  or_next (ok (err connection_aborted), s) next = (err connection_aborted, s)
  or_next (ok (err other), s) next = (err other, s)
  or_next (ok panics, s) next = (panics, s)
  or_next (ok stuck, s) next = (stuck, s)
  or_next (err e, s) next = (err e, s)
  or_next (panics, s) next = (panics, s)
  or_next (stuck, s) next = (stuck, s)

  unfoldable pub first_of_gens {ℓ} : {A : Type ℓ} → (Bytes → Io State A) → List Bytes → Io State A
  unfolding or_next
  first_of_gens f [] s = (err not_found, s)
  first_of_gens f (gen ∷ gens) s = or_next (attempt (f gen) s) (first_of_gens f gens)

  unfoldable pub remove : Bytes → Bytes → Io State (Unit {0})
  remove name gen = B.remove (name_path name gen)

  unfoldable pub remove_any : Bytes → List Bytes → Io State (Unit {0})
  unfolding remove first_of_gens
  remove_any name gens = first_of_gens (remove name) (reverse gens)

  -- The loop passes over the current generation itself, which is compared by its directory.
  rename_to : Bytes → Bytes → Bytes → Io State (Unit {0})
  rename_to name cur gen =
      ite (Bytes-discrete gen cur) (throw not_found)
        (B.rename (name_path name gen) (name_path name cur))

  unfoldable pub update_generation_to : Bytes → Bytes → List Bytes → Io State (Unit {0})
  unfolding rename_to first_of_gens
  update_generation_to name cur gens = first_of_gens (rename_to name cur) (reverse gens)

  module _ (Y : Yaml) where
    unfoldable pub write_as : Name → Bytes → Bytes → Io State (Unit {0})
    write_as value name gen s = elim (B.read (name_path name gen) s) [
      | ok _ ↦ (err already_exists, s)
      | err _ ↦ B.write (name_path name gen) (SgData.from_single R (Y.to_string value)) false s
      | panics ↦ (panics, s)
      | stuck ↦ (stuck, s)
    ]

    check_size : Name → Result Name
    check_size name = if length name.digest == digest_size then ok name else err invalid_data

    unfoldable pub parse : Bytes → Result Name
    unfolding check_size
    parse text = elim (Y.from_reader text) [ none ↦ err invalid_data | some name ↦ check_size name ]

    unfoldable pub load_from : Bytes → Bytes → Io State Name
    unfolding parse
    load_from name gen = do
      sg ← (λ s. (B.read (name_path name gen) s, s))
      lift (parse (SgData.to_linear_vec R sg))

    unfoldable pub load_from_any : Bytes → List Bytes → Io State Name
    unfolding load_from first_of_gens
    load_from_any name gens = first_of_gens (load_from name) (reverse gens)
