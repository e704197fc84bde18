-- ===== src/Io.antt =====
-- Methods that change a state and return an `io::Result`. What was changed before an error stays.
use mathlib.Core.List.{reverse, head?}
use rdedup.Base.{Result, ok, err, panics, stuck, Option, List, ErrorKind}

abbrev pub Io {ℓ κ} : Type ℓ → Type κ → Type (ℓ ⊔ κ)
Io S A = S → Result A × S

module _ {ℓ} {S : Type ℓ} where
  abbrev pub pure {κ} : {A : Type κ} → A → Io S A
  pure a s = (ok a, s)

  abbrev pub lift {κ} : {A : Type κ} → Result A → Io S A
  lift r s = (r, s)

  abbrev pub throw {κ} : {A : Type κ} → ErrorKind → Io S A
  throw e s = (err e, s)

  abbrev pub continue {κ μ} : {A : Type κ} {B : Type μ} → Result A × S → (A → Io S B) → Result B × S
  continue (ok a, s) f = f a s
  continue (err e, s) f = (err e, s)
  continue (panics, s) f = (panics, s)
  continue (stuck, s) f = (stuck, s)

  infixl 5 ◌>>=◌ ◌>>◌
  abbrev pub ◌>>=◌ {κ μ} : {A : Type κ} {B : Type μ} → Io S A → (A → Io S B) → Io S B
  ◌>>=◌ m f s = continue (m s) f

  abbrev pub ◌>>◌ {κ μ} : {A : Type κ} {B : Type μ} → Io S A → Io S B → Io S B
  ◌>>◌ m k = m >>= λ _. k

  -- A `match` on the result: an error becomes a value, a panic passes on.
  abbrev pub attempted {κ} : {A : Type κ} → Result A × S → Result (Result A) × S
  attempted (ok a, s) = (ok (ok a), s)
  attempted (err e, s) = (ok (err e), s)
  attempted (panics, s) = (panics, s)
  attempted (stuck, s) = (stuck, s)

  abbrev pub attempt {κ} : {A : Type κ} → Io S A → Io S (Result A)
  attempt m s = attempted (m s)

-- `Vec::last`
abbrev pub last {ℓ} : {A : Type ℓ} → List A → Option A
last xs = head? (reverse xs)
