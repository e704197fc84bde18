-- ===== src/Aio/Pool/Single.antt =====
-- Operations that wait for one path at most, and the threads that run them.
use rdedup.Base.{
  ℕ, zero, suc, ◌+◌, ◌≤◌, ◌≡◌, refl, sym, subst, Bool, true, false, if◌then◌else◌, length, All,
  List, [], ◌∷◌, ◌++◌, ok, err, panics, stuck, arith,
}
use rdedup.SgData.{ArcRefs}
use rdedup.Nesting.{FilePath}
use rdedup.Aio.{Backend}
use rdedup.Aio.Pool.{
  contains, Message, write, read, read_metadata, list, list_recursively, remove, remove_dir_all,
  rename, Answer, done, data_read, metadata, listing, batches, unwrapped, received, Thread,
  receiving, panicked, waiting, leaving, Shared, when_taken, after_answer, step, step_at, Event,
  thread, send, run, idle,
}
use rdedup.Aio.Pool.Work.{OnePath, OneAt, same_queue}

module _ (R : ArcRefs) (B : Backend R) where
  -- What is sent, and what waits in the queue, waits for one path at most.
  abbrev pub OnePaths : List (Event R B) → Type 0
  OnePaths [] = Unit
  OnePaths (thread i ∷ events) = OnePaths events
  OnePaths (send m ∷ events) = OnePath R B m × OnePaths events

  taken-OneAt :
      (paths wanted : List FilePath) (p : FilePath) (m : Message R B)
      → length paths + length (p ∷ wanted) ≤ 1
      → OneAt R B (when_taken R B paths (p ∷ wanted) m)
  unfolding when_taken OneAt
  taken-OneAt paths wanted p (write path sg true complete_tx) one = tt
  taken-OneAt paths wanted p m one = one

  answer-OneAt : (m : Message R B) (a : Answer R B) → OneAt R B (after_answer R B m a)
  unfolding after_answer unwrapped OneAt
  answer-OneAt (write path sg idempotent true) a = tt
  answer-OneAt (write path sg idempotent false) (done (ok u)) = tt
  answer-OneAt (write path sg idempotent false) (done (err e)) = tt
  answer-OneAt (write path sg idempotent false) (done panics) = tt
  answer-OneAt (write path sg idempotent false) (done stuck) = tt
  answer-OneAt (write path sg idempotent false) (data_read r) = tt
  answer-OneAt (write path sg idempotent false) (metadata r) = tt
  answer-OneAt (write path sg idempotent false) (listing r) = tt
  answer-OneAt (write path sg idempotent false) (batches r) = tt
  answer-OneAt (read path) a = tt
  answer-OneAt (read_metadata path) a = tt
  answer-OneAt (list path) a = tt
  answer-OneAt (list_recursively path) a = tt
  answer-OneAt (remove path) a = tt
  answer-OneAt (remove_dir_all path) a = tt
  answer-OneAt (rename src dst) a = tt

  received-OneAt :
      (queue : List (Message R B)) (sh : Shared R B)
      → All (OnePath R B) queue
      → sh.queue ≡ queue
      → let (t', sh') = received R B queue sh in OneAt R B t' × All (OnePath R B) sh'.queue
  unfolding received OneAt
  received-OneAt [] sh a e = (tt, subst (All (OnePath R B)) (sym e) a)
  received-OneAt (m ∷ queue) sh (one, a) e = (omega (arith, one), a)

  step-OneAt :
      (t : Thread R B) (sh : Shared R B)
      → OneAt R B t
      → All (OnePath R B) sh.queue
      → let (t', sh') = step R B t sh in OneAt R B t' × All (OnePath R B) sh'.queue
  unfolding step OneAt
  step-OneAt receiving sh one a = received-OneAt sh.queue sh a refl
  step-OneAt panicked sh one a = (tt, a)
  step-OneAt (waiting paths [] m) sh one a = (tt, a)
  step-OneAt (waiting paths (p ∷ wanted) m) sh one a = by_taken (contains p sh.in_progress)
    where
      by_taken :
          (b : Bool)
          → let (t', sh') =
              if◌then◌else◌ {A = Thread R B × Shared R B} b
                (when_taken R B paths (p ∷ wanted) m, sh)
                (waiting (p ∷ paths) wanted m, record sh { in_progress = p ∷ sh.in_progress }) in
            OneAt R B t' × All (OnePath R B) sh'.queue
      by_taken true = (taken-OneAt paths wanted p m one, a)
      by_taken false = (omega (arith, one), a)
  step-OneAt (leaving (p ∷ paths) answer m) sh one a =
      (tt, subst (All (OnePath R B)) (sym (same_queue R B m _)) a)
  step-OneAt (leaving [] answer m) sh one a = (answer-OneAt m answer, a)

  step_at-OneAt :
      (i : ℕ) (ts : List (Thread R B)) (sh : Shared R B)
      → All (OneAt R B) ts
      → All (OnePath R B) sh.queue
      → let (ts', sh') = step_at R B i ts sh in All (OneAt R B) ts' × All (OnePath R B) sh'.queue
  unfolding step_at
  step_at-OneAt i [] sh ones a = (ones, a)
  step_at-OneAt zero (t ∷ ts) sh (one, ones) a =
      let (one', a') = step-OneAt t sh one a in ((one', ones), a')
  step_at-OneAt (suc i) (t ∷ ts) sh (one, ones) a =
      let (ones', a') = step_at-OneAt i ts sh ones a in ((one, ones'), a')

  All-append :
      (xs : List (Message R B)) (m : Message R B)
      → All (OnePath R B) xs
      → OnePath R B m
      → All (OnePath R B) (xs ++ (m ∷ []))
  All-append [] m a one = (one, tt)
  All-append (x ∷ xs) m (b, a) one = (b, All-append xs m a one)

  pub run-OneAt :
      (events : List (Event R B)) (ts : List (Thread R B)) (sh : Shared R B)
      → OnePaths events
      → All (OneAt R B) ts
      → All (OnePath R B) sh.queue
      → let (ts', sh') = run R B events ts sh in All (OneAt R B) ts' × All (OnePath R B) sh'.queue
  unfolding run
  run-OneAt [] ts sh sent ones a = (ones, a)
  run-OneAt (thread i ∷ events) ts sh sent ones a =
      let (ones', a') = step_at-OneAt i ts sh ones a in
      run-OneAt events (step_at R B i ts sh).0 (step_at R B i ts sh).1 sent ones' a'
  run-OneAt (send m ∷ events) ts sh (one, sent) ones a =
      run-OneAt events ts (record sh { queue = sh.queue ++ (m ∷ []) }) sent ones
        (All-append sh.queue m a one)

  pub idle-OneAt : (n : ℕ) → All (OneAt R B) (idle R B n)
  unfolding idle OneAt
  idle-OneAt zero = tt
  idle-OneAt (suc n) = (tt, idle-OneAt n)
