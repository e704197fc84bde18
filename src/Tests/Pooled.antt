-- ===== src/Tests/Pooled.antt =====
-- A pool of threads over the backend in memory.
use rdedup.Base.{
  zero, suc, ℕ, ◌+◌, ◌<◌, ◌≤◌, ◌≡◌, ◌≢◌, refl, ap, inl, codes, true, List, [], ◌∷◌, ◌++◌, ok, arith,
}
use rdedup.Aio.Pool.Client.Schedule.{run-served}
use rdedup.Aio.Pool.Client.{schedule, times, put_at, rounds, Apart, served}
use rdedup.Aio.Pool.{
  Message, call, after_answer, read, write, done, data_read, Thread, receiving, panicked, waits_for,
  step_at, Event, thread, send, run, fresh, idle,
}
use rdedup.Nesting.{FilePath}
use rdedup.Aio.Pool.Count.{count}
use rdedup.Aio.Pool.Exclusion.{guards, run-apart}
use rdedup.Aio.Pool.Answers.{sum, all_carried, answered_sum, sent_sum, run-answers}
use rdedup.Aio.Pool.Work.{work, thread_work, threads_work, queue_work}
use rdedup.Aio.Pool.Progress.{reached, run-progress}
use rdedup.Aio.Pool.Deadlock.{Crossed, crossing, renames-deadlock, overlapping, write-skipped}
use rdedup.Tests.Crates.{window}
use rdedup.Tests.Memory.{memory}
use rdedup.Tests.Stored.{stored}

abbrev here : FilePath
here = codes "a" ∷ []

abbrev there : FilePath
there = codes "b" ∷ []

first : FilePath → ℕ
first ((b ∷ bs) ∷ path) = b
first path = 0

here-ne-there : here ≢ there
unfolding first
here-ne-there e = omega (arith, ap first e)

-- Two threads read the same path, and the first one has it.
abbrev reads : List (Event window memory)
reads = send (read here) ∷ send (read here) ∷ thread 0 ∷ thread 1 ∷ thread 0 ∷ thread 1 ∷ []

run-apart_example :
    let (ts, sh) = run window memory reads (idle window memory 2) (fresh window memory stored) in
    (guards window memory here ts ≤ 1) × (count here sh.in_progress ≡ guards window memory here ts)
run-apart_example = run-apart window memory 2 reads stored here

run-answers_example :
    let (ts, sh) = run window memory reads (idle window memory 2) (fresh window memory stored) in
    all_carried window memory (λ m. 1) ts
      + (sum window memory (λ m. 1) sh.queue + answered_sum window memory (λ m. 1) sh.answered)
    ≡ sent_sum window memory (λ m. 1) reads
run-answers_example = run-answers window memory (λ m. 1) 2 reads stored

-- One message is sent, and not taken yet.
abbrev sent : List (Event window memory)
sent = send (read here) ∷ []

busy : let (ts, sh) = reached window memory 2 sent stored in work window memory ts sh ≢ 0
unfolding run idle thread_work threads_work queue_work waits_for
busy e = omega (arith, e)

awake : ◌≢◌ {A = Thread window memory} receiving panicked
awake e = cc e

one_path : waits_for window memory (read here) ≡ here ∷ []
unfolding waits_for
one_path = refl

run-progress_example :
    let (ts, sh) = reached window memory 2 sent stored in
    (i : ℕ) × (let (ts', sh') = step_at window memory i ts sh in
      work window memory ts' sh' < work window memory ts sh)
unfolding run idle waits_for
run-progress_example = run-progress window memory 2 sent stored (omega arith, tt) busy (inl awake)

renames-deadlock_example :
    Crossed window memory here there
      (run window memory
        (crossing window memory here there ++ (thread 2 ∷ thread 0 ∷ []))
        (idle window memory 4)
        (fresh window memory stored)).0
renames-deadlock_example =
    renames-deadlock window memory here there 2 (thread 2 ∷ thread 0 ∷ []) stored here-ne-there

write-skipped_example :
    let (ts, sh) =
      run window memory
        (overlapping window memory here [])
        (idle window memory 2)
        (fresh window memory stored) in
    (sh.answered
      ≡ (read here, data_read (memory.read here stored))
        ∷ (write here [] true true, done (ok tt))
        ∷ [])
    × (sh.in_progress ≡ [])
    × (sh.store ≡ stored)
write-skipped_example = write-skipped window memory here [] stored

abbrev moved : Message window memory
moved = Message.rename here there

abbrev turns : List ℕ
turns = 1 ∷ 0 ∷ 1 ∷ 0 ∷ 1 ∷ 0 ∷ 1 ∷ 0 ∷ 1 ∷ 0 ∷ 1 ∷ 0 ∷ 1 ∷ 0 ∷ []

turns-fair : (i : ℕ) → i < 2 → rounds window memory moved ≤ times window memory i turns
unfolding rounds times
turns-fair zero h = omega arith
turns-fair (suc zero) h = omega arith
turns-fair (suc (suc i)) h = absurd (omega (arith, h))

run-served_example :
    (i : ℕ) × (i < 2)
    × (run window memory
          (send moved ∷ schedule window memory turns)
          (idle window memory 2)
          (fresh window memory stored)
        ≡ (
          put_at window memory i
              (after_answer window memory moved (call window memory moved stored).0)
              (idle window memory 2),
          served window memory moved (fresh window memory stored),
        ))
unfolding Apart
run-served_example =
    run-served window memory moved 2 turns (fresh window memory stored) refl refl here-ne-there
      (omega arith) turns-fair
