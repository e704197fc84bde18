-- ===== src/Base/Results.antt =====
-- `io::Result`, with the ways in which a Rust call does not return, and state passing.
use mathlib.Core.Option.{Option, none, some}

-- The kinds of `io::ErrorKind` that the sources name; `other` stands for any further kind.
pub data ErrorKind : Type 0 where
  not_found already_exists invalid_data invalid_input connection_aborted other : ErrorKind

-- `panics` is a failed `assert!`, `expect`, `unwrap` or an explicit `panic!`; `stuck` is no Rust
-- value: a loop of the model ran out of fuel.
pub data Result {ℓ} (A : Type ℓ) : Type ℓ where
  ok : A → Result A
  err : ErrorKind → Result A
  panics : Result A
  stuck : Result A

-- `?`
infixl 5 ◌>>=◌ ◌>>◌
abbrev pub ◌>>=◌ {ℓ κ} : {A : Type ℓ} {B : Type κ} → Result A → (A → Result B) → Result B
ok a >>= f = f a
err e >>= f = err e
panics >>= f = panics
stuck >>= f = stuck

abbrev pub ◌>>◌ {ℓ κ} : {A : Type ℓ} {B : Type κ} → Result A → Result B → Result B
m >> k = m >>= λ _. k

-- `ok_or`
abbrev pub ok_or {ℓ} : {A : Type ℓ} → ErrorKind → Option A → Result A
ok_or e none = err e
ok_or e (some a) = ok a

-- `unwrap`, `expect`
abbrev pub expect {ℓ} : {A : Type ℓ} → Option A → Result A
expect none = panics
expect (some a) = ok a
