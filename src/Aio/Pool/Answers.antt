-- ===== src/Aio/Pool/Answers.antt =====
-- Messages to the pool and their answers.
use rdedup.Base.{
  ℕ, zero, suc, ◌+◌, ◌≡◌, refl, ap, Bool, true, false, if◌then◌else◌, List, [], ◌∷◌, ◌++◌, ok, err,
  panics, stuck, arith,
}
use rdedup.SgData.{ArcRefs}
use rdedup.Nesting.{FilePath}
use rdedup.Aio.{Backend}
use rdedup.Aio.Pool.{
  contains, remove_path, Message, write, Answer, done, unwrapped, received, Thread, receiving,
  panicked, waiting, leaving, Shared, when_taken, count_write, after_answer, step, step_at, Event,
  thread, send, run, fresh, idle,
}

module _ (R : ArcRefs) (B : Backend R) (w : Message R B → ℕ) where
  -- The sum of the weights of messages, of those that threads are at, and of those that were
  -- answered.
  unfoldable pub sum : List (Message R B) → ℕ
  sum [] = 0
  sum (m ∷ ms) = w m + sum ms

  unfoldable pub carried : Thread R B → ℕ
  carried receiving = 0
  carried panicked = 0
  carried (waiting paths wanted m) = w m
  carried (leaving paths a m) = w m

  unfoldable pub all_carried : List (Thread R B) → ℕ
  unfolding carried
  all_carried [] = 0
  all_carried (t ∷ ts) = carried t + all_carried ts

  unfoldable pub answered_sum : List (Message R B × Answer R B) → ℕ
  answered_sum [] = 0
  answered_sum ((m, a) ∷ answered) = w m + answered_sum answered

  -- What clients sent.
  unfoldable pub sent_sum : List (Event R B) → ℕ
  sent_sum [] = 0
  sent_sum (thread i ∷ events) = sent_sum events
  sent_sum (send m ∷ events) = w m + sent_sum events

  sum-append : (ms : List (Message R B)) (m : Message R B) → sum (ms ++ (m ∷ [])) ≡ sum ms + w m
  unfolding sum
  sum-append [] m = omega arith
  sum-append (n ∷ ms) m = omega (arith, sum-append ms m)

  carried-taken :
      (paths wanted : List FilePath) (m : Message R B)
      → carried (when_taken R B paths wanted m) ≡ w m
  unfolding when_taken carried
  carried-taken paths wanted (write path sg true complete_tx) = refl
  carried-taken paths wanted m = refl

  carried-unwrapped : (a : Answer R B) → carried (unwrapped R B a) ≡ 0
  unfolding unwrapped carried
  carried-unwrapped (done (ok u)) = refl
  carried-unwrapped (done (err e)) = refl
  carried-unwrapped (done panics) = refl
  carried-unwrapped (done stuck) = refl
  carried-unwrapped a = refl

  carried-answer : (m : Message R B) (a : Answer R B) → carried (after_answer R B m a) ≡ 0
  unfolding after_answer carried
  carried-answer (write path sg idempotent true) a = refl
  carried-answer (write path sg idempotent false) a = carried-unwrapped a
  carried-answer m a = refl

  abbrev total : Shared R B → ℕ
  total sh = sum sh.queue + answered_sum sh.answered

  total-count : (m : Message R B) (sh : Shared R B) → total (count_write R B m sh) ≡ total sh
  unfolding count_write
  total-count (write path sg idempotent complete_tx) sh = refl
  total-count m sh = refl

  received-total :
      (queue : List (Message R B)) (sh : Shared R B)
      → sh.queue ≡ queue
      → let (t', sh') = received R B queue sh in carried t' + total sh' ≡ total sh
  unfolding received carried sum
  received-total [] sh e = omega arith
  received-total (m ∷ queue) sh e = omega (arith, ap sum e)

  step-total :
      (t : Thread R B) (sh : Shared R B)
      → let (t', sh') = step R B t sh in carried t' + total sh' ≡ carried t + total sh
  unfolding step carried answered_sum
  step-total receiving sh = omega (arith, received-total sh.queue sh refl)
  step-total panicked sh = refl
  step-total (waiting paths [] m) sh = refl
  step-total (waiting paths (p ∷ wanted) m) sh = by_taken (contains p sh.in_progress)
    where
      by_taken :
          (b : Bool)
          → let (t', sh') =
              if◌then◌else◌ {A = Thread R B × Shared R B} b
                (when_taken R B paths (p ∷ wanted) m, sh)
                (waiting (p ∷ paths) wanted m, record sh { in_progress = p ∷ sh.in_progress }) in
            carried t' + total sh' ≡ w m + total sh
      by_taken true = omega (arith, carried-taken paths (p ∷ wanted) m)
      by_taken false = refl
  step-total (leaving (p ∷ paths) answer m) sh =
      omega (arith, total-count m (record sh { in_progress = remove_path p sh.in_progress }))
  step-total (leaving [] answer m) sh = omega (arith, carried-answer m answer)

  step_at-total :
      (i : ℕ) (ts : List (Thread R B)) (sh : Shared R B)
      → let (ts', sh') = step_at R B i ts sh in
        all_carried ts' + total sh' ≡ all_carried ts + total sh
  unfolding step_at all_carried
  step_at-total i [] sh = refl
  step_at-total zero (t ∷ ts) sh = omega (arith, step-total t sh)
  step_at-total (suc i) (t ∷ ts) sh = omega (arith, step_at-total i ts sh)

  run-total :
      (events : List (Event R B)) (ts : List (Thread R B)) (sh : Shared R B)
      → let (ts', sh') = run R B events ts sh in
        all_carried ts' + total sh' ≡ all_carried ts + total sh + sent_sum events
  unfolding run sent_sum
  run-total [] ts sh = omega arith
  run-total (thread i ∷ events) ts sh = omega (
    arith,
    run-total events (step_at R B i ts sh).0 (step_at R B i ts sh).1,
    step_at-total i ts sh,
  )
  run-total (send m ∷ events) ts sh = omega (
    arith,
    run-total events ts (record sh { queue = sh.queue ++ (m ∷ []) }),
    sum-append sh.queue m,
  )

  carried-idle : (n : ℕ) → all_carried (idle R B n) ≡ 0
  unfolding all_carried idle carried
  carried-idle zero = refl
  carried-idle (suc n) = omega (arith, carried-idle n)

  -- No message is lost, and none is answered twice: in every state that a fresh pool comes to, the
  -- messages that were sent are those in the queue, those that a thread is at and those that were
  -- answered. It is said of sums, for any weight `w` of the messages, so with the weight that is 1
  -- for one message alone it says how often that message is where.
  pub run-answers :
      (n : ℕ) (events : List (Event R B)) (s : B.State)
      → let (ts, sh) = run R B events (idle R B n) (fresh R B s) in
        all_carried ts + (sum sh.queue + answered_sum sh.answered) ≡ sent_sum events
  unfolding sum answered_sum
  run-answers n events s =
      omega (arith, run-total events (idle R B n) (fresh R B s), carried-idle n)
