-- ===== src/Aio/Pool/Work.antt =====
-- The work that is left in the pool, and that a thread makes it less or rests.
use rdedup.Base.{
  ℕ, suc, ◌+◌, ◌*◌, ◌<◌, ◌≤◌, ◌≡◌, refl, ap, ◌⊎◌, inl, inr, Bool, true, false, if◌then◌else◌,
  length, All, List, [], ◌∷◌, ok, err, panics, stuck, arith,
}
use rdedup.SgData.{ArcRefs}
use rdedup.Nesting.{FilePath}
use rdedup.Aio.{Backend}
use rdedup.Aio.Pool.{
  contains, remove_path, Message, write, read, read_metadata, list, list_recursively, remove,
  remove_dir_all, rename, Answer, done, data_read, metadata, listing, batches, unwrapped, received,
  Thread, receiving, panicked, waiting, leaving, Shared, waits_for, when_taken, count_write,
  after_answer, step, step_at,
}
use rdedup.Aio.Pool.Exclusion.{held}

module _ (R : ArcRefs) (B : Backend R) where
  -- How many steps are left of an operation, at most.
  unfoldable pub thread_work : Thread R B → ℕ
  thread_work receiving = 0
  thread_work panicked = 0
  thread_work (waiting paths wanted m) = 2 * length wanted + length paths + 2
  thread_work (leaving paths a m) = length paths + 1

  unfoldable pub queue_work : List (Message R B) → ℕ
  queue_work [] = 0
  queue_work (m ∷ queue) = 2 * length (waits_for R B m) + 3 + queue_work queue

  unfoldable pub threads_work : List (Thread R B) → ℕ
  unfolding thread_work
  threads_work [] = 0
  threads_work (t ∷ ts) = thread_work t + threads_work ts

  abbrev pub work : List (Thread R B) → Shared R B → ℕ
  work ts sh = threads_work ts + queue_work sh.queue

  abbrev pub OnePath : Message R B → Type 0
  OnePath m = length (waits_for R B m) ≤ 1

  -- A thread has a path or waits for one, and not both.
  unfoldable pub OneAt : Thread R B → Type 0
  OneAt receiving = Unit
  OneAt panicked = Unit
  OneAt (waiting paths wanted m) = length paths + length wanted ≤ 1
  OneAt (leaving paths a m) = Unit

  -- A thread that has nothing, and can do nothing but wait for a message or a path.
  abbrev pub Resting : Shared R B → Thread R B → Type 0
  Resting sh t =
      (held R B t ≡ [])
      × ((thread_work t ≡ 0) ⊎ ((p : FilePath) × (contains p sh.in_progress ≡ true)))
      × (t ≡ receiving → sh.queue ≡ [])

  abbrev Progress : Thread R B → Shared R B → Type 0
  Progress t sh =
      let (t', sh') = step R B t sh in
      (thread_work t' + queue_work sh'.queue < thread_work t + queue_work sh.queue) ⊎ Resting sh t

  received-Progress :
      (sh : Shared R B) (queue : List (Message R B))
      → sh.queue ≡ queue
      → let (t', sh') = received R B queue sh in
        (thread_work t' + queue_work sh'.queue < queue_work queue) ⊎ Resting sh receiving
  unfolding received thread_work queue_work held
  received-Progress sh [] e = inr (refl, inl refl, λ r. e)
  received-Progress sh (m ∷ queue) e = inl (omega arith)

  empty : (l m : List FilePath) (p : FilePath) → length l + length (p ∷ m) ≤ 1 → l ≡ []
  empty [] m p h = refl
  empty (q ∷ l) m p h = absurd (omega (arith, h))

  no_work : (m : Message R B) (a : Answer R B) → thread_work (after_answer R B m a) ≡ 0
  unfolding after_answer unwrapped thread_work
  no_work (write path sg idempotent true) a = refl
  no_work (write path sg idempotent false) (done (ok u)) = refl
  no_work (write path sg idempotent false) (done (err e)) = refl
  no_work (write path sg idempotent false) (done panics) = refl
  no_work (write path sg idempotent false) (done stuck) = refl
  no_work (write path sg idempotent false) (data_read r) = refl
  no_work (write path sg idempotent false) (metadata r) = refl
  no_work (write path sg idempotent false) (listing r) = refl
  no_work (write path sg idempotent false) (batches r) = refl
  no_work (read path) a = refl
  no_work (read_metadata path) a = refl
  no_work (list path) a = refl
  no_work (list_recursively path) a = refl
  no_work (remove path) a = refl
  no_work (remove_dir_all path) a = refl
  no_work (rename src dst) a = refl

  pub same_queue : (m : Message R B) (sh : Shared R B) → (count_write R B m sh).queue ≡ sh.queue
  unfolding count_write
  same_queue (write path sg idempotent complete_tx) sh = refl
  same_queue (read path) sh = refl
  same_queue (read_metadata path) sh = refl
  same_queue (list path) sh = refl
  same_queue (list_recursively path) sh = refl
  same_queue (remove path) sh = refl
  same_queue (remove_dir_all path) sh = refl
  same_queue (rename src dst) sh = refl

  panicked-ne-receiving : ◌≡◌ {A = Thread R B} panicked receiving → ⊥
  panicked-ne-receiving e = cc e

  waiting-ne-receiving : (l w : List FilePath) (m : Message R B) → waiting l w m ≡ receiving → ⊥
  waiting-ne-receiving l w m e = cc e

  taken-Progress :
      (paths wanted : List FilePath) (p : FilePath) (m : Message R B) (sh : Shared R B)
      → length paths + length (p ∷ wanted) ≤ 1
      → contains p sh.in_progress ≡ true
      → (thread_work (when_taken R B paths (p ∷ wanted) m)
          < thread_work (waiting paths (p ∷ wanted) m))
        ⊎ Resting sh (waiting paths (p ∷ wanted) m)
  unfolding when_taken thread_work held
  taken-Progress paths wanted p (write path sg true complete_tx) sh one taken = inl (omega arith)
  taken-Progress paths wanted p m sh one taken =
      inr (empty paths wanted p one, inr (p, taken), λ e. absurd (waiting-ne-receiving _ _ _ e))

  step-Progress : (t : Thread R B) (sh : Shared R B) → OneAt t → Progress t sh
  unfolding step thread_work OneAt held
  step-Progress receiving sh one = elim (received-Progress sh sh.queue refl) [
    | inl less ↦ inl (omega (arith, less))
    | inr rest ↦ inr rest
  ]
  step-Progress panicked sh one = inr (refl, inl refl, λ e. absurd (panicked-ne-receiving e))
  step-Progress (waiting paths [] m) sh one = inl (omega arith)
  step-Progress (waiting paths (p ∷ wanted) m) sh one = by_taken (contains p sh.in_progress) refl
    where
      by_taken :
          (b : Bool)
          → contains p sh.in_progress ≡ b
          → let (t', sh') =
              if◌then◌else◌ {A = Thread R B × Shared R B} b
                (when_taken R B paths (p ∷ wanted) m, sh)
                (waiting (p ∷ paths) wanted m, record sh { in_progress = p ∷ sh.in_progress }) in
            (thread_work t' + queue_work sh'.queue
              < thread_work (waiting paths (p ∷ wanted) m) + queue_work sh.queue)
            ⊎ Resting sh (waiting paths (p ∷ wanted) m)
      by_taken true e = elim (taken-Progress paths wanted p m sh one e) [
        | inl less ↦ inl (omega (arith, less))
        | inr rest ↦ inr rest
      ]
      by_taken false e = inl (omega arith)
  step-Progress (leaving (p ∷ paths) answer m) sh one = inl (
      omega (
        arith,
        ap queue_work (same_queue m (record sh { in_progress = remove_path p sh.in_progress })),
      ))
  step-Progress (leaving [] answer m) sh one = inl (omega (arith, no_work m answer))

  pub find :
      (ts : List (Thread R B)) (sh : Shared R B)
      → All OneAt ts
      → ((i : ℕ) × (let (ts', sh') = step_at R B i ts sh in work ts' sh' < work ts sh))
        ⊎ All (Resting sh) ts
  unfolding step_at threads_work
  find [] sh a = inr tt
  find (t ∷ ts) sh (one, a) = elim (step-Progress t sh one) [
    | inl less ↦ inl (0, omega (arith, less))
    | inr rest ↦ elim (find ts sh a) [
      | inl (i, less) ↦ inl (suc i, omega (arith, less))
      | inr rests ↦ inr (rest, rests)
    ]
  ]
