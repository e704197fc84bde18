-- ===== src/Aio/Pool/Exclusion.antt =====
-- The set of paths in progress of the pool, and the paths that its threads have.
use rdedup.Base.{
  ℕ, zero, suc, ◌+◌, ◌≤◌, ◌≡◌, refl, sym, subst, Bool, true, false, if◌then◌else◌, List, [], ◌∷◌,
  ◌++◌, arith, ok, err, panics, stuck,
}
use rdedup.SgData.{ArcRefs}
use rdedup.Nesting.{FilePath}
use rdedup.Aio.{Backend}
use rdedup.Aio.Pool.{
  contains, Message, write, read, read_metadata, list, list_recursively, remove, remove_dir_all,
  rename, Answer, done, data_read, metadata, listing, batches, unwrapped, received, Thread,
  receiving, panicked, waiting, leaving, Shared, when_taken, count_write, after_answer, step,
  step_at, Event, thread, send, run, fresh, idle,
}
use rdedup.Aio.Pool.Count.{count, Apart, Apart-insert, Apart-remove}

module _ (R : ArcRefs) (B : Backend R) where
  -- The paths that a thread has.
  unfoldable pub held : Thread R B → List FilePath
  held receiving = []
  held panicked = []
  held (waiting paths wanted m) = paths
  held (leaving paths a m) = paths

  -- How many of the threads' paths are the path.
  unfoldable pub guards : FilePath → List (Thread R B) → ℕ
  unfolding held count
  guards q [] = 0
  guards q (t ∷ ts) = count q (held t) + guards q ts

  held-taken :
      (paths wanted : List FilePath) (m : Message R B)
      → held (when_taken R B paths wanted m) ≡ paths
  unfolding when_taken held
  held-taken paths wanted (write path sg true complete_tx) = refl
  held-taken paths wanted (write path sg false complete_tx) = refl
  held-taken paths wanted (read path) = refl
  held-taken paths wanted (read_metadata path) = refl
  held-taken paths wanted (list path) = refl
  held-taken paths wanted (list_recursively path) = refl
  held-taken paths wanted (remove path) = refl
  held-taken paths wanted (remove_dir_all path) = refl
  held-taken paths wanted (rename src dst) = refl

  held-unwrapped : (a : Answer R B) → held (unwrapped R B a) ≡ []
  unfolding unwrapped held
  held-unwrapped (done (ok u)) = refl
  held-unwrapped (done (err e)) = refl
  held-unwrapped (done panics) = refl
  held-unwrapped (done stuck) = refl
  held-unwrapped (data_read r) = refl
  held-unwrapped (metadata r) = refl
  held-unwrapped (listing r) = refl
  held-unwrapped (batches r) = refl

  held-answer : (m : Message R B) (a : Answer R B) → held (after_answer R B m a) ≡ []
  unfolding after_answer held
  held-answer (write path sg idempotent true) a = refl
  held-answer (write path sg idempotent false) a = held-unwrapped a
  held-answer (read path) a = refl
  held-answer (read_metadata path) a = refl
  held-answer (list path) a = refl
  held-answer (list_recursively path) a = refl
  held-answer (remove path) a = refl
  held-answer (remove_dir_all path) a = refl
  held-answer (rename src dst) a = refl

  paths-count :
      (m : Message R B) (sh : Shared R B) → (count_write R B m sh).in_progress ≡ sh.in_progress
  unfolding count_write
  paths-count (write path sg idempotent complete_tx) sh = refl
  paths-count (read path) sh = refl
  paths-count (read_metadata path) sh = refl
  paths-count (list path) sh = refl
  paths-count (list_recursively path) sh = refl
  paths-count (remove path) sh = refl
  paths-count (remove_dir_all path) sh = refl
  paths-count (rename src dst) sh = refl

  received-Apart :
      (k : FilePath → ℕ) (queue : List (Message R B)) (sh : Shared R B)
      → Apart k [] sh.in_progress
      → let (t', sh') = received R B queue sh in Apart k (held t') sh'.in_progress
  unfolding received held
  received-Apart k [] sh a = a
  received-Apart k (m ∷ queue) sh a = a

  step-Apart :
      (k : FilePath → ℕ) (t : Thread R B) (sh : Shared R B)
      → Apart k (held t) sh.in_progress
      → let (t', sh') = step R B t sh in Apart k (held t') sh'.in_progress
  unfolding step held
  step-Apart k receiving sh a = received-Apart k sh.queue sh a
  step-Apart k panicked sh a = a
  step-Apart k (waiting paths [] m) sh a = a
  step-Apart k (waiting paths (p ∷ wanted) m) sh a = by_taken (contains p sh.in_progress) refl
    where
      by_taken :
          (b : Bool)
          → contains p sh.in_progress ≡ b
          → let (t', sh') =
              if◌then◌else◌ {A = Thread R B × Shared R B} b
                (when_taken R B paths (p ∷ wanted) m, sh)
                (waiting (p ∷ paths) wanted m, record sh { in_progress = p ∷ sh.in_progress }) in
            Apart k (held t') sh'.in_progress
      by_taken true e =
          subst (λ h. Apart k h sh.in_progress) (sym (held-taken paths (p ∷ wanted) m)) a
      by_taken false e = Apart-insert k p paths sh.in_progress e a
  step-Apart k (leaving (p ∷ paths) answer m) sh a =
      subst (Apart k paths) (sym (paths-count m _)) (Apart-remove k p paths sh.in_progress a)
  step-Apart k (leaving [] answer m) sh a =
      subst (λ h. Apart k h sh.in_progress) (sym (held-answer m answer)) a

  step_at-Apart :
      (k : FilePath → ℕ) (i : ℕ) (ts : List (Thread R B)) (sh : Shared R B)
      → ((q : FilePath)
          → (count q sh.in_progress ≡ k q + guards q ts) × (count q sh.in_progress ≤ 1))
      → let (ts', sh') = step_at R B i ts sh in
        (q : FilePath)
        → (count q sh'.in_progress ≡ k q + guards q ts') × (count q sh'.in_progress ≤ 1)
  unfolding step_at guards
  step_at-Apart k i [] sh a = a
  step_at-Apart k zero (t ∷ ts) sh a = λ q.
      let (same, most) =
        step-Apart (λ q. k q + guards q ts) t sh
          (λ q. let (same, most) = a q in (omega (arith, same), most)) q in
      (omega (arith, same), most)
  step_at-Apart k (suc i) (t ∷ ts) sh a = λ q.
      let (same, most) =
        step_at-Apart (λ q. k q + count q (held t)) i ts sh
          (λ q. let (same, most) = a q in (omega (arith, same), most)) q in
      (omega (arith, same), most)

  pub guards-idle : (q : FilePath) (n : ℕ) → guards q (idle R B n) ≡ 0
  unfolding guards idle held count
  guards-idle q zero = refl
  guards-idle q (suc n) = omega (arith, guards-idle q n)

  pub run-Apart :
      (events : List (Event R B)) (ts : List (Thread R B)) (sh : Shared R B)
      → ((q : FilePath) → (count q sh.in_progress ≡ guards q ts) × (count q sh.in_progress ≤ 1))
      → let (ts', sh') = run R B events ts sh in
        (q : FilePath) → (count q sh'.in_progress ≡ guards q ts') × (count q sh'.in_progress ≤ 1)
  unfolding run
  run-Apart [] ts sh a = a
  run-Apart (thread i ∷ events) ts sh a =
      run-Apart events (step_at R B i ts sh).0 (step_at R B i ts sh).1 (λ q.
        let (same, most) =
          step_at-Apart (λ q. 0) i ts sh
            (λ q. let (same, most) = a q in (omega (arith, same), most)) q in
        (omega (arith, same), most))
  run-Apart (send m ∷ events) ts sh a =
      run-Apart events ts (record sh { queue = sh.queue ++ (m ∷ []) }) a

  -- In whatever order the threads of a fresh pool make their steps and clients send messages: of all
  -- the paths that the threads have at once, none is there twice, so no two operations that wait
  -- for a path overlap on it; and the set of paths in progress has exactly the paths that the
  -- threads have, so that none is left in it by an operation that is over.
  pub run-apart :
      (n : ℕ) (events : List (Event R B)) (s : B.State) (q : FilePath)
      → let (ts, sh) = run R B events (idle R B n) (fresh R B s) in
        (guards q ts ≤ 1) × (count q sh.in_progress ≡ guards q ts)
  unfolding count
  run-apart n events s q =
      let (same, most) =
        run-Apart events (idle R B n) (fresh R B s) (λ q. (sym (guards-idle q n), omega arith)) q in
      (omega (arith, same, most), same)
