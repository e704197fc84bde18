-- ===== src/Sorting/Order.antt =====
-- Numbered items in any order come out of the sorting iterator in their order.
use mathlib.Core.List.{Permᴰ}
use mathlib.Core.Option.{or_else}
use rdedup.Base.{
  subst, ℕ, zero, suc, ◌+◌, ◌<◌, ◌^◌, ◌≡◌, refl, ◌∙◌, ap, sym, Option, none, some, List, [], ◌∷◌,
  Result, ok, arith, ◌==◌, ==_iff, if◌then◌else◌, true, false, ltb, length, Bool-cases,
  Option-cases, inl, inr, ◌⊎◌, add_u64, add_u64-eq,
}
use rdedup.Sorting.{
  cons_item, get, without, insert, enumerate, SortingIterator, new, next_loop, drain, after_next,
}

after_n : (i n : ℕ) → (i == n) ≡ false → ltb i n ≡ false → ltb n i ≡ true
after_n i n h k = ground arith

module _ {ℓ} {T : Type ℓ} where
  abbrev NodupKeys : List (ℕ × T) → Type ℓ
  NodupKeys [] = Unit {ℓ}
  NodupKeys ((k, _) ∷ m) = (get k m ≡ none) × NodupKeys m

  -- The items numbered from `n` on, as a lookup.
  abbrev get_at : ℕ → List T → ℕ → Option T
  get_at n [] i = none
  get_at n (x ∷ xs) i = if n == i then some x else get_at (n + 1) xs i

  get_at-lt : (n : ℕ) (xs : List T) (i : ℕ) → i < n → get_at n xs i ≡ none
  get_at-lt n [] i h = refl
  get_at-lt n (x ∷ xs) i h = ground (arith, get_at-lt (n + 1) xs i)

  get-without :
      (i k : ℕ) (m : List (ℕ × T)) → get i (without k m) ≡ (if k == i then none else get i m)
  unfolding get without
  get-without i k [] = ground arith
  get-without i k ((j, v) ∷ m) = ground (arith, get-without i k m)

  get-insert :
      (i k : ℕ) (v : T) (m : List (ℕ × T))
      → get i (insert k v m) ≡ (if k == i then some v else get i m)
  unfolding get insert
  get-insert i k v m = ground (arith, get-without i k m)

  eq-nil_of_get : (m : List (ℕ × T)) → ((i : ℕ) → get i m ≡ none) → m ≡ []
  unfolding get
  eq-nil_of_get [] h = refl
  eq-nil_of_get ((j, v) ∷ m) h = absurd (ground (arith, h j))

  get-nil : (i : ℕ) → get {T = T} i [] ≡ none
  unfolding get
  get-nil i = refl

  -- The state between two calls: `rest` is what is still to come, from number `n` on.
  record Holds (early : List (ℕ × T)) (n : ℕ) (iter : List (ℕ × T)) (rest : List T) : Type ℓ where
    distinct : NodupKeys iter
    apart : (i : ℕ) → (get i early ≡ none) ⊎ (get i iter ≡ none)
    all : (i : ℕ) → or_else (get i early) (get i iter) ≡ get_at n rest i

  -- What `next` gives at number `n` if `rest` is still to come.
  abbrev Gives : Result (Option T) × SortingIterator T → ℕ → List T → Type ℓ
  Gives r n [] = r ≡ (ok none, record { early_items = []; iter = []; next_i = n })
  Gives r n (x ∷ xs) =
      (early iter : List (ℕ × T)) × (r
        ≡ (ok (some x), record { early_items = early; iter = iter; next_i = n + 1 }))
      × Holds early (n + 1) iter xs

  -- The item `n` is the next one, and what is left of it holds the rest.
  take_first :
      (early iter : List (ℕ × T)) (n : ℕ) (x : T) (xs : List T)
      → NodupKeys iter
      → ((i : ℕ) → (get i early ≡ none) ⊎ (get i iter ≡ none))
      → ((i : ℕ)
          → or_else (get i early) (get i iter) ≡ (if n == i then none else get_at n (x ∷ xs) i))
      → Holds early (n + 1) iter xs
  take_first early iter n x xs d a h = record {
    distinct = d;
    apart = a;
    all = λ i. h i ∙ ground (arith, get_at-lt (n + 1) xs i);
  }

  next_loop-early :
      (early iter : List (ℕ × T)) (n : ℕ) (x : T) (xs : List T) (item : T)
      → Holds early n iter (x ∷ xs)
      → get n early ≡ some item
      → (item ≡ x) × Holds (without n early) (n + 1) iter xs
  unfolding or_else
  next_loop-early early iter n x xs item h e = (
    ground (arith, h.all n),
    take_first (without n early) iter n x xs h.distinct
        (λ i. ground (arith, h.apart i, get-without i n early))
        (λ i. ground (arith, h.all i, get-without i n early, h.apart i)),
  )

  -- The next item was kept from an earlier round.
  found_early :
      (early iter : List (ℕ × T)) (n : ℕ) (x : T) (xs : List T) (item : T)
      → Holds early n iter (x ∷ xs)
      → n + 1 < 2 ^ 64
      → get n early ≡ some item
      → Gives
          (
            ok (some item),
            record { early_items = without n early; iter = iter; next_i = add_u64 n 1 },
          )
          n
          (x ∷ xs)
  found_early early iter n x xs item h b e =
      let p = next_loop-early early iter n x xs item h e in
      (without n early, iter, ground (arith, p.0, add_u64-eq n 1), p.1)

  -- The next item is the one that just came in.
  found_now :
      (early iter : List (ℕ × T)) (n : ℕ) (x : T) (xs : List T) (item : T)
      → Holds early n ((n, item) ∷ iter) (x ∷ xs)
      → n + 1 < 2 ^ 64
      → get n early ≡ none
      → Gives
          (ok (some item), record { early_items = early; iter = iter; next_i = add_u64 n 1 })
          n
          (x ∷ xs)
  unfolding get or_else
  found_now early iter n x xs item h b e = (
    early,
    iter,
    ground (arith, h.all n, add_u64-eq n 1),
    take_first early iter n x xs h.distinct.1 (λ i. ground (arith, h.apart i, h.distinct.0))
        (λ i. ground (arith, h.all i, h.distinct.0)),
  )

  -- An item that comes too early is kept.
  keep_early :
      (early iter : List (ℕ × T)) (n i : ℕ) (item : T) (rest : List T)
      → Holds early n ((i, item) ∷ iter) rest
      → Holds (insert i item early) n iter rest
  unfolding get or_else
  keep_early early iter n i item rest h = record {
    distinct = h.distinct.1;
    apart = λ j. ground (arith, h.apart j, get-insert j i item early, h.distinct.0);
    all = λ j. ground (arith, h.all j, get-insert j i item early, h.apart i, h.distinct.0);
  }

  not_below :
      (early iter : List (ℕ × T)) (n i : ℕ) (item : T) (rest : List T)
      → Holds early n ((i, item) ∷ iter) rest
      → ltb i n ≡ false
  unfolding get or_else
  not_below early iter n i item rest h = ground (arith, h.all i, h.apart i, get_at-lt n rest i)

  next_loop_lem :
      (iter early : List (ℕ × T)) (n : ℕ) (rest : List T)
      → Holds early n iter rest
      → n + length rest < 2 ^ 64
      → Gives (next_loop early n iter) n rest
  unfolding next_loop or_else
  next_loop_lem [] early n [] h b = rw (eq-nil_of_get early (λ i. ground (arith, h.all i)))
  next_loop_lem [] early n (x ∷ xs) h b = elim (Option-cases (get n early)) [
    | inl e ↦ absurd (ground (arith, h.all n))
    | inr (item, e) ↦ rw (e, next_loop) (found_early early [] n x xs item h (omega arith) e)
  ]
  next_loop_lem ((i, item) ∷ iter) early n [] h b = absurd (ground (arith, h.all i))
  next_loop_lem ((i, item) ∷ iter) early n (x ∷ xs) h b = elim (Option-cases (get n early)) [
    | inr (kept, e) ↦
        rw (e, next_loop) (found_early early ((i, item) ∷ iter) n x xs kept h (omega arith) e)
    | inl e ↦ elim (Bool-cases (i == n)) [
      | inl same ↦
          subst
            (λ k.
              Holds early n ((k, item) ∷ iter) (x ∷ xs)
              → Gives (next_loop early n ((k, item) ∷ iter)) n (x ∷ xs))
            (sym ((==_iff i n).0 same))
            (λ h'.
              rw (e, next_loop)
                (rw ((==_iff n n).1 refl) (found_now early iter n x xs item h' (omega arith) e)))
            h
      | inr other ↦
          rw (e, next_loop)
            (rw (other, after_n i n other (not_below early iter n i item (x ∷ xs) h))
              (next_loop_lem iter (insert i item early) n (x ∷ xs)
                (keep_early early iter n i item (x ∷ xs) h) b))
    ]
  ]

  drain_lem :
      (fuel : ℕ) (early iter : List (ℕ × T)) (n : ℕ) (rest : List T)
      → Holds early n iter rest
      → n + length rest < 2 ^ 64
      → length rest < fuel
      → drain fuel (record { early_items = early; iter = iter; next_i = n }) ≡ ok rest
  unfolding drain
  drain_lem zero early iter n rest h b f = absurd (omega arith)
  drain_lem (suc fuel) early iter n [] h b f =
      ap (λ r. after_next r (drain fuel)) (next_loop_lem iter early n [] h b)
  drain_lem (suc fuel) early iter n (x ∷ xs) h b f =
      let (early', iter', e, h') = next_loop_lem iter early n (x ∷ xs) h b in
      ap (λ r. after_next r (drain fuel)) e
      ∙ ap (cons_item x) (drain_lem fuel early' iter' (n + 1) xs h' (omega arith) (omega arith))

  get-enumerate :
      (n : ℕ) (xs : List T) (i : ℕ)
      → n + length xs < 2 ^ 64
      → get i (enumerate n xs) ≡ get_at n xs i
  unfolding get enumerate
  get-enumerate n [] i b = refl
  get-enumerate n (x ∷ xs) i b =
      rw (add_u64-eq n 1 (omega arith)) (ground (arith, get-enumerate (n + 1) xs i (omega arith)))

  enumerate-NodupKeys : (n : ℕ) (xs : List T) → n + length xs < 2 ^ 64 → NodupKeys (enumerate n xs)
  unfolding enumerate
  enumerate-NodupKeys n [] b = tt
  enumerate-NodupKeys n (x ∷ xs) b = rw (add_u64-eq n 1 (omega arith)) (
    get-enumerate (n + 1) xs n (omega arith) ∙ get_at-lt (n + 1) xs n (omega arith),
    enumerate-NodupKeys (n + 1) xs (omega arith),
  )

  Permᴰ-lookup :
      {l₁ l₂ : List (ℕ × T)}
      → Permᴰ l₁ l₂
      → NodupKeys l₁
      → NodupKeys l₂ × ((i : ℕ) → get i l₁ ≡ get i l₂)
  unfolding get
  Permᴰ-lookup Permᴰ.nil u = (tt, λ i. refl)
  Permᴰ-lookup (Permᴰ.cons {a = a} {b = b} e d) u =
      let (u', same) = Permᴰ-lookup d u.1 in
      ((ground (arith, same b.0, u.0, e), u'), λ i. ground (arith, same i, e))
  Permᴰ-lookup (Permᴰ.swap e₁ e₂) u =
      ((ground (arith, e₁, e₂), (ground (arith, e₁, e₂), u.1.1)), λ i. ground (arith, e₁, e₂))
  Permᴰ-lookup (Permᴰ.trans d₁ d₂) u =
      let (u', same) = Permᴰ-lookup d₁ u in
      let (u'', same') = Permᴰ-lookup d₂ u' in (u'', λ i. same i ∙ same' i)

  -- Whatever the order in which the numbered items of a list arrive, fewer than 2^64 of them come
  -- out as that list: no assertion fails, none is lost or doubled, and the loop ends.
  pub drain-enumerate :
      (xs : List T) (arrived : List (ℕ × T))
      → Permᴰ (enumerate 0 xs) arrived
      → length xs < 2 ^ 64
      → drain (suc (length xs)) (new arrived) ≡ ok xs
  unfolding new or_else get
  drain-enumerate xs arrived p b =
      let (u, same) = Permᴰ-lookup p (enumerate-NodupKeys 0 xs (omega arith)) in
      drain_lem (suc (length xs)) [] arrived 0 xs
        (record {
          distinct = u;
          apart = λ i. inl (get-nil i);
          all = λ i. (sym (same i) ∙ get-enumerate 0 xs i (omega arith));
        })
        (omega arith) (omega arith)
