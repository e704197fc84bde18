-- ===== src/Aio/Pool/Deadlock.antt =====
-- Two renames between the same paths in opposite directions, and an idempotent write beside a read.
use rdedup.Aio.Pool.Exclusion.{guards, held, run-Apart, guards-idle}
use rdedup.Aio.Pool.Count.{count, count-same, count-contains}
use rdedup.Base.{
  Bool-cases, inl, inr, arith, ap, ◌+◌, ◌≤◌, ℕ, zero, suc, ◌≡◌, ◌≢◌, refl, ◌∙◌, sym, subst, true,
  false, if_pos, if_neg, ok, List, [], ◌∷◌, ◌++◌,
}
use rdedup.Aio.Pool.{
  call, count_write, after_answer, FilePath-discrete, contains, remove_path, write, read, rename,
  done, data_read, Thread, waiting, Shared, step, step_at, received, waits_for, when_taken, Event,
  thread, send, run, fresh, idle,
}
use rdedup.SgData.{ArcRefs, SgData}
use rdedup.Nesting.{FilePath}
use rdedup.Aio.{Backend}

contains-head : (p : FilePath) (l : List FilePath) → contains p (p ∷ l) ≡ true
unfolding contains
contains-head p l = if_pos (FilePath-discrete p p) refl true (contains p l)

contains-skip : (p q : FilePath) (l : List FilePath) → q ≢ p → contains p (q ∷ l) ≡ contains p l
unfolding contains
contains-skip p q l n = if_neg (FilePath-discrete q p) n true (contains p l)

contains-nil : (p : FilePath) → contains p [] ≡ false
unfolding contains
contains-nil p = refl

count-nil : (q : FilePath) → count q [] ≤ 1
unfolding count
count-nil q = omega arith

module _ (R : ArcRefs) (B : Backend R) where
  -- The first two threads have each the path that the other one waits for.
  abbrev pub Crossed : FilePath → FilePath → List (Thread R B) → Type 0
  Crossed a b ts =
      (rest : List (Thread R B)) × (ts
        ≡ waiting (a ∷ []) (b ∷ []) (rename a b) ∷ waiting (b ∷ []) (a ∷ []) (rename b a) ∷ rest)

  -- The paths in progress are those that the threads have.
  abbrev Exact : List (Thread R B) → Shared R B → Type 0
  Exact ts sh =
      (q : FilePath) → (count q sh.in_progress ≡ guards R B q ts) × (count q sh.in_progress ≤ 1)

  contains-counted :
      (q : FilePath) (paths : List FilePath) → count q paths ≢ 0 → contains q paths ≡ true
  contains-counted q paths some_there = elim (Bool-cases (contains q paths)) [
    | inl e ↦ e
    | inr e ↦ absurd (some_there (count-contains q paths e))
  ]

  -- Both paths are in progress.
  Crossed-taken :
      (a b : FilePath) (ts : List (Thread R B)) (sh : Shared R B)
      → Crossed a b ts
      → Exact ts sh
      → (contains a sh.in_progress ≡ true) × (contains b sh.in_progress ≡ true)
  unfolding guards held
  Crossed-taken a b ts sh (rest, e) exact =
      let in_ts : (q : FilePath)
          → count q sh.in_progress ≡ count q (a ∷ []) + (count q (b ∷ []) + guards R B q rest) =
        λ q. (exact q).0 ∙ ap (guards R B q) e in
      (
        contains-counted a sh.in_progress
            (λ z. absurd (omega (arith, z, in_ts a, count-same a a [] refl))),
        contains-counted b sh.in_progress
            (λ z. absurd (omega (arith, z, in_ts b, count-same b b [] refl))),
      )

  -- Neither of the two moves on, whatever the others do.
  step_at-Crossed :
      (a b : FilePath) (i : ℕ) (ts : List (Thread R B)) (sh : Shared R B)
      → Crossed a b ts
      → contains a sh.in_progress ≡ true
      → contains b sh.in_progress ≡ true
      → Crossed a b (step_at R B i ts sh).0
  unfolding step_at step when_taken
  step_at-Crossed a b zero ts sh (rest, e) ea eb = rw (e, eb) (rest, refl)
  step_at-Crossed a b (suc zero) ts sh (rest, e) ea eb = rw (e, ea) (rest, refl)
  step_at-Crossed a b (suc (suc i)) ts sh (rest, e) ea eb = rw e ((step_at R B i rest sh).0, refl)

  Crossed-run :
      (a b : FilePath) (events : List (Event R B)) (ts : List (Thread R B)) (sh : Shared R B)
      → Crossed a b ts
      → Exact ts sh
      → Crossed a b (run R B events ts sh).0
  unfolding run
  Crossed-run a b [] ts sh c exact = c
  Crossed-run a b (thread i ∷ events) ts sh c exact =
      let (ea, eb) = Crossed-taken a b ts sh c exact in
      Crossed-run a b events (step_at R B i ts sh).0 (step_at R B i ts sh).1
        (step_at-Crossed a b i ts sh c ea eb) (run-Apart R B (thread i ∷ []) ts sh exact)
  Crossed-run a b (send m ∷ events) ts sh c exact =
      Crossed-run a b events ts (record sh { queue = sh.queue ++ (m ∷ []) }) c exact

  -- Two threads take the two renames, and each its first path.
  abbrev pub crossing : FilePath → FilePath → List (Event R B)
  crossing a b =
      send (rename a b) ∷ send (rename b a) ∷ thread 0 ∷ thread 1 ∷ thread 0 ∷ thread 1 ∷ []

  crossing-Crossed :
      (a b : FilePath) (n : ℕ) (s : B.State)
      → a ≢ b
      → Crossed a b (run R B (crossing a b) (idle R B (suc (suc n))) (fresh R B s)).0
  unfolding run idle step_at step received waits_for
  crossing-Crossed a b n s differ =
      rw (contains-nil a, contains-skip b a [] differ) (idle R B n, refl)

  run-append :
      (events more : List (Event R B)) (ts : List (Thread R B)) (sh : Shared R B)
      → run R B (events ++ more) ts sh
        ≡ run R B more (run R B events ts sh).0 (run R B events ts sh).1
  unfolding run
  run-append [] more ts sh = refl
  run-append (thread i ∷ events) more ts sh =
      run-append events more (step_at R B i ts sh).0 (step_at R B i ts sh).1
  run-append (send m ∷ events) more ts sh =
      run-append events more ts (record sh { queue = sh.queue ++ (m ∷ []) })

  -- A fresh pool of two threads or more that is sent the renames of a path to another and back can
  -- come to a state from which, whatever steps of all the threads follow and whatever else is sent,
  -- the two threads that took the renames wait for each other's path for ever, and neither of these
  -- renames is made.
  pub renames-deadlock :
      (a b : FilePath) (n : ℕ) (events : List (Event R B)) (s : B.State)
      → a ≢ b
      → Crossed a b (run R B (crossing a b ++ events) (idle R B (suc (suc n))) (fresh R B s)).0
  unfolding count
  renames-deadlock a b n events s differ =
      let ts = idle R B (suc (suc n)) in
      let start = run R B (crossing a b) ts (fresh R B s) in
      subst (λ (r : List (Thread R B) × Shared R B). Crossed a b r.0)
        (sym (run-append (crossing a b) events ts (fresh R B s)))
        (Crossed-run a b events start.0 start.1 (crossing-Crossed a b n s differ) (
          run-Apart R B (crossing a b) ts (fresh R B s)
            (λ q. (sym (guards-idle R B q (suc (suc n))), count-nil q))))

  -- A read and an idempotent write of the same path: the write's thread looks while the read's thread
  -- has the path.
  abbrev pub overlapping : FilePath → SgData R → List (Event R B)
  overlapping p sg =
      send (read p)
      ∷ send (write p sg true true)
      ∷ thread 0
      ∷ thread 1
      ∷ thread 0
      ∷ thread 1
      ∷ thread 1
      ∷ thread 0
      ∷ thread 0
      ∷ thread 0
      ∷ []

  -- An idempotent write can be answered with success though nothing is written: in a fresh pool of
  -- two threads, beside a read of its path, whatever the path, the data and the backend. In the end
  -- both are answered, no path is in progress, and the backend is as it was.
  pub write-skipped :
      (p : FilePath) (sg : SgData R) (s : B.State)
      → let (ts, sh) = run R B (overlapping p sg) (idle R B 2) (fresh R B s) in
        (sh.answered ≡ (read p, data_read (B.read p s)) ∷ (write p sg true true, done (ok tt)) ∷ [])
        × (sh.in_progress ≡ [])
        × (sh.store ≡ s)
  unfolding run idle step_at step received waits_for call when_taken count_write after_answer
      remove_path
  write-skipped p sg s =
      rw (contains-nil p, contains-head p [], if_pos (FilePath-discrete p p) refl [] (p ∷ []))
        (refl, refl, refl)
