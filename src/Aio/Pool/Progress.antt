-- ===== src/Aio/Pool/Progress.antt =====
-- Operations that wait for one path at most do not block the pool.
use rdedup.Base.{
  ℕ, ◌<◌, ◌≤◌, ◌≡◌, ◌≢◌, refl, ◌∙◌, sym, ap, ◌⊎◌, inl, inr, true, false, if_neg, All, List, [], ◌∷◌,
  arith,
}
use rdedup.SgData.{ArcRefs}
use rdedup.Nesting.{FilePath}
use rdedup.Aio.{Backend}
use rdedup.Aio.Pool.{
  FilePath-discrete, contains, Thread, receiving, panicked, waiting, leaving, Shared, step_at,
  Event, run, fresh, idle,
}
use rdedup.Aio.Pool.Count.{count, count-same, count-other}
use rdedup.Aio.Pool.Exclusion.{guards, run-apart}
use rdedup.Aio.Pool.Work.{work, thread_work, queue_work, threads_work, Resting, find}
use rdedup.Aio.Pool.Single.{OnePaths, run-OneAt, idle-OneAt}

contains-count :
    (p : FilePath) (paths : List FilePath) → contains p paths ≡ true → 1 ≤ count p paths
unfolding contains
contains-count p [] e = absurd (differ e)
  where
    differ : false ≡ true → ⊥
    differ e = cc e
contains-count p (q ∷ paths) e = elim (FilePath-discrete q p) [
  | yes same ↦ omega (arith, count-same q p paths same)
  | no other ↦ omega (
    arith,
    count-other q p paths other,
    contains-count p paths (sym (if_neg (FilePath-discrete q p) other true (contains p paths)) ∙ e),
  )
]

module _ (R : ArcRefs) (B : Backend R) where
  no_guards :
      (ts : List (Thread R B)) (sh : Shared R B) (q : FilePath)
      → All (Resting R B sh) ts
      → guards R B q ts ≡ 0
  unfolding guards count
  no_guards [] sh q a = refl
  no_guards (t ∷ ts) sh q (rest, a) = omega (arith, ap (count q) rest.0, no_guards ts sh q a)

  no_threads_work :
      (ts : List (Thread R B)) (sh : Shared R B)
      → ((p : FilePath) → contains p sh.in_progress ≢ true)
      → All (Resting R B sh) ts
      → threads_work R B ts ≡ 0
  unfolding threads_work
  no_threads_work [] sh free a = refl
  no_threads_work (t ∷ ts) sh free ((nothing, waits, served), a) = elim waits [
    | inl none ↦ omega (arith, none, no_threads_work ts sh free a)
    | inr (p, taken) ↦ absurd (free p taken)
  ]

  -- Some thread did not panic.
  abbrev pub Alive : List (Thread R B) → Type 0
  Alive [] = ⊥
  Alive (t ∷ ts) = (t ≢ panicked) ⊎ Alive ts

  idle_or_panicked : (t : Thread R B) → thread_work R B t ≡ 0 → t ≢ panicked → t ≡ receiving
  unfolding thread_work
  idle_or_panicked receiving e n = refl
  idle_or_panicked panicked e n = absurd (n refl)
  idle_or_panicked (waiting paths wanted m) e n = absurd (omega (arith, e))
  idle_or_panicked (leaving paths a m) e n = absurd (omega (arith, e))

  no_queue :
      (ts : List (Thread R B)) (sh : Shared R B)
      → threads_work R B ts ≡ 0
      → All (Resting R B sh) ts
      → Alive ts
      → sh.queue ≡ []
  unfolding threads_work
  no_queue [] sh none a alive = absurd alive
  no_queue (t ∷ ts) sh none ((nothing, waits, served), a) (inl n) =
      served (idle_or_panicked t (omega (arith, none)) n)
  no_queue (t ∷ ts) sh none (rest, a) (inr alive) = no_queue ts sh (omega (arith, none)) a alive

  -- The state of a fresh pool of `n` threads after the events.
  abbrev pub reached : ℕ → List (Event R B) → B.State → List (Thread R B) × Shared R B
  reached n events s = run R B events (idle R B n) (fresh R B s)

  -- A pool whose messages wait for one path at most never blocks: in every state that a fresh pool
  -- comes to, in whatever order its threads make their steps and clients send such messages, if
  -- there is work left, of threads or in the queue, and some thread did not panic, then some thread
  -- can make a step after which less work is left.
  pub run-progress :
      (n : ℕ) (events : List (Event R B)) (s : B.State)
      → OnePaths R B events
      → (let (ts, sh) = reached n events s in work R B ts sh ≢ 0)
      → Alive (reached n events s).0
      → let (ts, sh) = reached n events s in
        (i : ℕ) × (let (ts', sh') = step_at R B i ts sh in work R B ts' sh' < work R B ts sh)
  unfolding queue_work
  run-progress n events s sent busy alive =
      let (ts, sh) = run R B events (idle R B n) (fresh R B s) in
      let (ones, a) = run-OneAt R B events (idle R B n) (fresh R B s) sent (idle-OneAt R B n) tt in
      elim (find R B ts sh ones) [
        | inl moves ↦ moves
        | inr resting ↦
            let none =
              no_threads_work ts sh
                (λ p taken. omega (
                  arith,
                  contains-count p sh.in_progress taken,
                  (run-apart R B n events s p).1,
                  no_guards ts sh p resting,
                ))
                resting in
            absurd
              (busy (omega (arith, none, ap (queue_work R B) (no_queue ts sh none resting alive))))
      ]
