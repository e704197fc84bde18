-- ===== src/Aio/Pool/Client/Schedule.antt =====
-- A message that is sent to a pool that rests, whatever the order of the threads' steps.
use rdedup.Base.{
  ltb, ◌-◌, Bool, ap, ◌+◌, ◌<◌, ◌≤◌, ◌==◌, arith, if◌then◌else◌, Bool-cases, inl, inr, ℕ, zero, suc,
  ◌≡◌, ◌≢◌, refl, ◌∙◌, sym, true, false, List, [], ◌∷◌,
}
use rdedup.Aio.Pool.{
  idle, Message, Thread, receiving, Shared, call, after_answer, received, step, step_at, send, run,
}
use rdedup.Aio.Pool.Work.{same_queue}
use rdedup.SgData.{ArcRefs}
use rdedup.Aio.{Backend}
use rdedup.Aio.Pool.Client.{
  solo, queued, solo-served, rounds, Apart, served, schedule, times, put_at,
}
use rdedup.Aio.Pool.Client.Steps.{
  step_at-own, put_at-idle, step_at-beside, step_at-beyond, step-nil, answered-rests,
}

module _ (R : ArcRefs) (B : Backend R) where
  module _ (m : Message R B) (sh : Shared R B) (empty : sh.queue ≡ [])
      (free : sh.in_progress ≡ []) where
    start : Thread R B × Shared R B
    start = (receiving, queued R B m sh)

    solo-nil : (k : ℕ) → (solo R B (suc k) start).1.queue ≡ []
    unfolding solo start queued step received
    solo-nil zero = rw empty refl
    solo-nil (suc k) =
        step-nil R B (solo R B (suc k) start).0 (solo R B (suc k) start).1 (solo-nil k)

    served-nil : (served R B m sh).queue ≡ []
    unfolding served
    served-nil = same_queue R B m sh ∙ empty

    -- What is over stays so.
    solo-over :
        (k n : ℕ)
        → Apart R B m
        → n ≡ k + rounds R B m
        → solo R B n start ≡ (after_answer R B m (call R B m sh.store).0, served R B m sh)
    unfolding start solo
    solo-over zero n a e =
        let last : n ≡ rounds R B m = omega (arith, e) in
        ap (λ n. solo R B n start) last ∙ solo-served R B m sh empty free a
    solo-over (suc k) zero a e = absurd (omega (arith, e))
    solo-over (suc k) (suc n) a e =
        ap (λ (r : Thread R B × Shared R B). step R B r.0 r.1) (solo-over k n a (omega (arith, e)))
        ∙ answered-rests R B m (call R B m sh.store).0 (served R B m sh) served-nil

    -- The thread that has the message makes steps, the others find nothing.
    run-solo :
        (n i : ℕ) (is : List ℕ) (k k' : ℕ)
        → i < n
        → k' ≡ suc k + times R B i is
        → run R B
            (schedule R B is)
            (put_at R B i (solo R B (suc k) start).0 (idle R B n))
            (solo R B (suc k) start).1
          ≡ (put_at R B i (solo R B k' start).0 (idle R B n), (solo R B k' start).1)
    unfolding run schedule times solo
    run-solo n i [] k k' h e =
        let last : suc k ≡ k' = omega (arith, e) in
        ap (λ k. (put_at R B i (solo R B k start).0 (idle R B n), (solo R B k start).1)) last
    run-solo n i (j ∷ is) k k' h e = elim (Bool-cases (j == i)) [
      | inl q ↦
          let own = step_at-own R B n i (solo R B (suc k) start).0 (solo R B (suc k) start).1 h in
          let same : step_at R B j (put_at R B i (solo R B (suc k) start).0 (idle R B n))
                (solo R B (suc k) start).1
              ≡ (
                put_at R B i (solo R B (suc (suc k)) start).0 (idle R B n),
                (solo R B (suc (suc k)) start).1,
              ) =
            ap
              (λ j.
                step_at R B j (put_at R B i (solo R B (suc k) start).0 (idle R B n))
                  (solo R B (suc k) start).1)
              (same_number j i q)
            ∙ own in
          ap (λ (r : List (Thread R B) × Shared R B). run R B (schedule R B is) r.0 r.1) same
          ∙ run-solo n i is (suc k) k' h (further k k' (times R B i is) (j == i) q e)
      | inr q ↦
          ap (λ (r : List (Thread R B) × Shared R B). run R B (schedule R B is) r.0 r.1)
            (step_at-beside R B n i j (solo R B (suc k) start).0 (solo R B (suc k) start).1
              (other_number j i q) (solo-nil k))
          ∙ run-solo n i is k k' h (beside k k' (times R B i is) (j == i) q e)
    ]
      where
        same_number : (j i : ℕ) → (j == i) ≡ true → j ≡ i
        same_number j i e = ground (arith, e)

        other_number : (j i : ℕ) → (j == i) ≡ false → j ≢ i
        other_number j i e = ground (arith, e)

        further :
            (k k' t : ℕ) (b : Bool)
            → b ≡ true
            → k' ≡ suc k + (if b then suc t else t)
            → k' ≡ suc (suc k) + t
        further k k' t true q e = omega (arith, e)
        further k k' t false q e = absurd (cc q)

        beside :
            (k k' t : ℕ) (b : Bool)
            → b ≡ false
            → k' ≡ suc k + (if b then suc t else t)
            → k' ≡ suc k + t
        beside k k' t true q e = absurd (cc q)
        beside k k' t false q e = e

    run-from :
        (n i : ℕ) (is : List ℕ)
        → Apart R B m
        → i < n
        → rounds R B m ≤ suc (times R B i is)
        → run R B
            (schedule R B is)
            (put_at R B i (solo R B 1 start).0 (idle R B n))
            (solo R B 1 start).1
          ≡ (
            put_at R B i (after_answer R B m (call R B m sh.store).0) (idle R B n),
            served R B m sh,
          )
    run-from n i is a h enough =
        let e : suc (times R B i is) ≡ (suc (times R B i is) - rounds R B m) + rounds R B m =
          omega (arith, enough) in
        run-solo n i is 0 (suc (times R B i is)) h (omega arith)
        ∙ ap (λ (r : Thread R B × Shared R B). (put_at R B i r.0 (idle R B n), r.1))
            (solo-over (suc (times R B i is) - rounds R B m) (suc (times R B i is)) a e)

  some_rounds : (m : Message R B) → 0 < rounds R B m
  unfolding rounds
  some_rounds (Message.write path sg idempotent complete_tx) = omega arith
  some_rounds (Message.read path) = omega arith
  some_rounds (Message.read_metadata path) = omega arith
  some_rounds (Message.list path) = omega arith
  some_rounds (Message.list_recursively path) = omega arith
  some_rounds (Message.remove path) = omega arith
  some_rounds (Message.remove_dir_all path) = omega arith
  some_rounds (Message.rename src_path dst_path) = omega arith

  times-own : (j : ℕ) (is : List ℕ) → times R B j (j ∷ is) ≡ suc (times R B j is)
  unfolding times
  times-own j is = rw (same j) refl
    where
      same : (j : ℕ) → (j == j) ≡ true
      same j = ground arith

  times-other : (i j : ℕ) (is : List ℕ) → j ≢ i → times R B i (j ∷ is) ≡ times R B i is
  unfolding times
  times-other i j is n = rw (other j i n) refl
    where
      other : (j i : ℕ) → j ≢ i → (j == i) ≡ false
      other j i n = ground (arith, n)

  run-queued :
      (m : Message R B) (n : ℕ) (is : List ℕ) (sh : Shared R B)
      → sh.queue ≡ []
      → sh.in_progress ≡ []
      → Apart R B m
      → 0 < n
      → ((i : ℕ) → i < n → rounds R B m ≤ times R B i is)
      → (i : ℕ) × (i < n)
        × (run R B (schedule R B is) (idle R B n) (queued R B m sh) ≡ (
          put_at R B i (after_answer R B m (call R B m sh.store).0) (idle R B n),
          served R B m sh,
        ))
  unfolding run schedule times solo queued start
  run-queued m n [] sh e f a h fair = absurd (omega (arith, fair 0 h, some_rounds m))
  run-queued m n (j ∷ is) sh e f a h fair = elim (Bool-cases (ltb j n)) [
    | inl lt ↦
        let there : j < n = below j n lt in
        let first =
          ap (λ ts. step_at R B j ts (queued R B m sh)) (sym (put_at-idle R B n j))
          ∙ step_at-own R B n j receiving (queued R B m sh) there in
        (
          j,
          there,
          ap (λ (r : List (Thread R B) × Shared R B). run R B (schedule R B is) r.0 r.1) first
              ∙ run-from m sh e f n j is a there (omega (arith, fair j there, times-own j is)),
        )
    | inr ge ↦
        let away : n ≤ j = beyond j n ge in
        let (i, there, same) = run-queued m n is sh e f a h (λ i lt.
          omega
            (arith, fair i lt, times-other i j is (λ q. absurd (omega (arith, q, lt, away))))) in
        (
          i,
          there,
          ap (λ (r : List (Thread R B) × Shared R B). run R B (schedule R B is) r.0 r.1)
                (step_at-beyond R B n j (queued R B m sh) away)
              ∙ same,
        )
  ]
    where
      below : (j n : ℕ) → ltb j n ≡ true → j < n
      below j n e = ground (arith, e)

      beyond : (j n : ℕ) → ltb j n ≡ false → n ≤ j
      beyond j n e = ground (arith, e)

  -- One message is sent to a pool of threads that rest, with no path taken, and no other is sent
  -- while it is served. In whatever order the threads make their steps, once each has made as many
  -- as the message takes one thread: the message is answered with what the backend itself gives, the
  -- backend is left as it leaves it, the queue is empty, no path is in progress, and all threads
  -- rest, but that a failed write whose result nobody waits for ends its thread. A rename must not
  -- be that of a path to itself.
  pub run-served :
      (m : Message R B) (n : ℕ) (is : List ℕ) (sh : Shared R B)
      → sh.queue ≡ []
      → sh.in_progress ≡ []
      → Apart R B m
      → 0 < n
      → ((i : ℕ) → i < n → rounds R B m ≤ times R B i is)
      → (i : ℕ) × (i < n)
        × (run R B (send m ∷ schedule R B is) (idle R B n) sh ≡ (
          put_at R B i (after_answer R B m (call R B m sh.store).0) (idle R B n),
          served R B m sh,
        ))
  unfolding run queued
  run-served m n is sh e f a h fair = run-queued m n is sh e f a h fair
