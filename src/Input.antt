-- ===== src/Input.antt =====
-- The reading of what is backed up: lib/src/util/readerveciter.rs, lib/src/util/whileok.rs and
-- `input_reader_thread` of lib/src/lib.rs.
pub mod Whole
use rdedup.Base.{
  ℕ, zero, suc, ◌*◌, Bytes, Option, none, some, Result, ok, err, panics, stuck, ErrorKind, List, [],
  ◌∷◌,
}

-- `io::Read`: at most so many bytes go into the buffer, and these are they.
pub record Reader : Type 1 where
  pub State : Type 0
  pub read : ℕ → State → Result Bytes × State

abbrev pub ingress_buffer_size : ℕ
ingress_buffer_size = 128 * 1024

module _ (R : Reader) where
  -- `ReaderVecIter::next`. No bytes are the end.
  read_item : Result Bytes → Option (Result Bytes)
  read_item (ok []) = none
  read_item (ok (b ∷ buf)) = some (ok (b ∷ buf))
  read_item (err e) = some (err e)
  read_item panics = some panics
  read_item stuck = some stuck

  unfoldable pub next_vec : ℕ → R.State → Option (Result Bytes) × R.State
  unfolding read_item
  next_vec buf_size s = let (r, s') = R.read buf_size s in (read_item r, s')

  -- `WhileOk`, with the state of the iterator in it.
  pub record WhileOk : Type 0 where
    pub e : Option ErrorKind
    pub i : R.State

  abbrev pub new : R.State → WhileOk
  new s = record { e = none; i = s }

  take_item : Option (Result Bytes) → R.State → Result (Option Bytes) × WhileOk
  take_item none s = (ok none, record { e = none; i = s })
  take_item (some (ok buf)) s = (ok (some buf), record { e = none; i = s })
  take_item (some (err x)) s = (ok none, record { e = some x; i = s })
  take_item (some panics) s = (panics, record { e = none; i = s })
  take_item (some stuck) s = (stuck, record { e = none; i = s })

  unfoldable pub next_ok : ℕ → WhileOk → Result (Option Bytes) × WhileOk
  unfolding next_vec take_item
  next_ok buf_size w = elim w.e [
    | some x ↦ (ok none, w)
    | none ↦ let (item, s) = next_vec buf_size w.i in take_item item s
  ]

  -- An error of the reader that was kept is a panic of the thread.
  finish : WhileOk → Result (Unit {0})
  finish w = elim w.e [ some x ↦ panics | none ↦ ok tt ]

  -- What is sent into the channel, in order, and how the thread ends.
  send_each :
      ℕ
      → Result (Option Bytes) × WhileOk
      → (WhileOk → List Bytes × Result (Unit {0}))
      → List Bytes × Result (Unit {0})
  unfolding finish
  send_each buf_size (ok none, w) again = ([], finish w)
  send_each buf_size (ok (some buf), w) again = let (sent, r) = again w in (buf ∷ sent, r)
  send_each buf_size (err x, w) again = ([], err x)
  send_each buf_size (panics, w) again = ([], panics)
  send_each buf_size (stuck, w) again = ([], stuck)

  send_loop : ℕ → ℕ → WhileOk → List Bytes × Result (Unit {0})
  unfolding next_ok send_each
  send_loop zero buf_size w = ([], stuck)
  send_loop (suc fuel) buf_size w =
      send_each buf_size (next_ok buf_size w) (send_loop fuel buf_size)

  unfoldable pub input_reader_thread : ℕ → R.State → List Bytes × Result (Unit {0})
  unfolding send_loop
  input_reader_thread fuel s = send_loop fuel ingress_buffer_size (new s)
