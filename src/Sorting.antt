-- ===== src/Sorting.antt =====
-- lib/src/sorting_recv.rs, and `EnumerateU64` of lib/src/util/mod.rs: numbered items that come back
-- from a pool of workers in any order are handed on in their order.
pub mod Order
use rdedup.Base.{
  ℕ, zero, suc, ltb, ◌==◌, if◌then◌else◌, Option, none, some, List, [], ◌∷◌, Result, ok, err,
  panics, stuck, ◌>>=◌, add_u64,
}

module _ {ℓ} {T : Type ℓ} where
  -- `BTreeMap<u64, T>` as an association list.
  unfoldable pub get : ℕ → List (ℕ × T) → Option T
  get k [] = none
  get k ((j, v) ∷ m) = if j == k then some v else get k m

  unfoldable pub without : ℕ → List (ℕ × T) → List (ℕ × T)
  without k [] = []
  without k ((j, v) ∷ m) = let rest = without k m in if j == k then rest else (j, v) ∷ rest

  unfoldable pub insert : ℕ → T → List (ℕ × T) → List (ℕ × T)
  unfolding without
  insert k v m = (k, v) ∷ without k m

-- `EnumerateU64`: `count` is the index of the first item.
unfoldable pub enumerate {ℓ} : {T : Type ℓ} → ℕ → List T → List (ℕ × T)
unfolding add_u64
enumerate count [] = []
enumerate count (a ∷ iter) = (count, a) ∷ enumerate (add_u64 count 1) iter

pub record SortingIterator {ℓ} (T : Type ℓ) : Type ℓ where
  pub early_items : List (ℕ × T)
  pub iter : List (ℕ × T)
  pub next_i : ℕ

module _ {ℓ} {T : Type ℓ} where
  unfoldable pub new : List (ℕ × T) → SortingIterator T
  new iter = record { early_items = []; iter = iter; next_i = 0 }

  is_empty : Result (Option T) → List (ℕ × T) → Result (Option T)
  is_empty r [] = r
  is_empty r (x ∷ m) = panics

  -- The loop of `next`. It recurs on what the inner iterator still has.
  next_loop : List (ℕ × T) → ℕ → List (ℕ × T) → Result (Option T) × SortingIterator T
  unfolding get without insert is_empty
  next_loop early n [] = elim (get n early) [
    | some item ↦
        (ok (some item), record { early_items = without n early; iter = []; next_i = add_u64 n 1 })
    | none ↦ (is_empty (ok none) early, record { early_items = early; iter = []; next_i = n })
  ]
  next_loop early n ((i, item) ∷ rest) =
      let later = next_loop (insert i item early) n rest in
      elim (get n early) [
        | some found ↦ (
          ok (some found),
          record { early_items = without n early; iter = (i, item) ∷ rest; next_i = add_u64 n 1 },
        )
        | none ↦
            if i == n
            then (ok (some item), record { early_items = early; iter = rest; next_i = add_u64 n 1 })
            else if ltb n i
            then later
            else (panics, record { early_items = early; iter = rest; next_i = n })
      ]

  unfoldable pub next : SortingIterator T → Result (Option T) × SortingIterator T
  unfolding next_loop
  next s = next_loop s.early_items s.next_i s.iter

  cons_item : T → Result (List T) → Result (List T)
  cons_item item rest = do items ← rest; ok (item ∷ items)

  no_items : List (ℕ × T) → Result (List T)
  no_items [] = ok []
  no_items (x ∷ m) = panics

  -- One round of the consumer: a panic passes on, and at the end `drop` asserts once more that
  -- nothing is left over.
  after_next :
      Result (Option T) × SortingIterator T
      → (SortingIterator T → Result (List T))
      → Result (List T)
  unfolding cons_item no_items
  after_next (ok (some item), s) rest = cons_item item (rest s)
  after_next (ok none, s) rest = no_items s.early_items
  after_next (err e, s) rest = err e
  after_next (panics, s) rest = panics
  after_next (stuck, s) rest = stuck

  -- The consumer calls `next` until it ends.
  unfoldable pub drain : ℕ → SortingIterator T → Result (List T)
  unfolding next after_next
  drain zero s = stuck
  drain (suc fuel) s = after_next (next s) (drain fuel)
