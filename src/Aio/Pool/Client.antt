-- ===== src/Aio/Pool/Client.antt =====
-- `AsyncIO` of lib/src/aio/mod.rs: what its methods send to the pool, and the steps that a thread makes
-- to serve it.
use rdedup.Aio.Pool.Count.{count}
use rdedup.Aio.Pool.{
  when_taken, Answer, unwrapped, done, data_read, metadata, listing, batches, idle, panicked,
  waiting, leaving, FilePath-discrete, contains, remove_path, Message, Thread, receiving, Shared,
  waits_for, call, count_write, after_answer, received, step, step_at, Event, thread, send, run,
}
use rdedup.Base.{
  ltb, ◌-◌, Bool, ap, ◌+◌, ok, err, panics, stuck, All, ◌<◌, ◌≤◌, ◌==◌, arith, if◌then◌else◌,
  Bool-cases, inl, inr, ◌⊎◌, ◌++◌, ℕ, zero, suc, ◌≡◌, ◌≢◌, refl, ◌∙◌, sym, true, false, List, [],
  ◌∷◌, if_pos, if_neg,
}
use rdedup.Aio.Pool.Work.{same_queue}
use rdedup.SgData.{ArcRefs, SgData}
use rdedup.Nesting.{FilePath}
use rdedup.Aio.{Backend}
pub mod Steps
pub mod Schedule

module _ (R : ArcRefs) (B : Backend R) where
  pub write : FilePath → SgData R → Message R B
  write path sg = Message.write path sg false true

  pub write_idempotent : FilePath → SgData R → Message R B
  write_idempotent path sg = Message.write path sg true true

  -- Nobody looks at the result of a checked write.
  pub write_checked : FilePath → SgData R → Message R B
  write_checked path sg = Message.write path sg false false

  pub write_checked_idempotent : FilePath → SgData R → Message R B
  write_checked_idempotent path sg = Message.write path sg true false

  -- A thread and what is shared after so many steps of the thread.
  pub solo : ℕ → Thread R B × Shared R B → Thread R B × Shared R B
  solo zero r = r
  solo (suc k) r = step R B (solo k r).0 (solo k r).1

  -- The steps in which one thread serves a message: it is received, its paths are taken, the backend
  -- is called, the paths are given back, and the answer is sent.
  unfoldable pub rounds : Message R B → ℕ
  rounds (Message.write path sg idempotent complete_tx) = 5
  rounds (Message.read path) = 5
  rounds (Message.read_metadata path) = 5
  rounds (Message.list path) = 3
  rounds (Message.list_recursively path) = 3
  rounds (Message.remove path) = 5
  rounds (Message.remove_dir_all path) = 3
  rounds (Message.rename src_path dst_path) = 7

  -- A message that does not wait for itself.
  unfoldable pub Apart : Message R B → Type 0
  Apart (Message.write path sg idempotent complete_tx) = Unit
  Apart (Message.read path) = Unit
  Apart (Message.read_metadata path) = Unit
  Apart (Message.list path) = Unit
  Apart (Message.list_recursively path) = Unit
  Apart (Message.remove path) = Unit
  Apart (Message.remove_dir_all path) = Unit
  Apart (Message.rename src_path dst_path) = src_path ≢ dst_path

  -- What the backend itself makes of the message, and that it was answered.
  pub served : Message R B → Shared R B → Shared R B
  served m sh =
      let (a, s) = call R B m sh.store in
      record (count_write R B m sh) { store = s; answered = (m, a) ∷ sh.answered }

  remove-one : (path : FilePath) → remove_path path (path ∷ []) ≡ []
  unfolding remove_path
  remove-one path = if_pos (FilePath-discrete path path) refl [] (path ∷ [])

  remove-first : (p q : FilePath) → p ≢ q → remove_path p (p ∷ q ∷ []) ≡ q ∷ []
  unfolding remove_path
  remove-first p q n =
      if_pos (FilePath-discrete p p) refl _ _ ∙ if_neg (FilePath-discrete q p) (λ e. n (sym e)) _ _

  contains-other : (p q : FilePath) → p ≢ q → contains q (p ∷ []) ≡ false
  unfolding contains
  contains-other p q n = if_neg (FilePath-discrete p q) n true false

  -- The message is sent, and no thread has it.
  pub queued : Message R B → Shared R B → Shared R B
  queued m sh = record sh { queue = sh.queue ++ (m ∷ []) }

  -- What a thread makes of a message alone.
  pub solo-served :
      (m : Message R B) (sh : Shared R B)
      → sh.queue ≡ []
      → sh.in_progress ≡ []
      → Apart m
      → solo (rounds m) (receiving, queued m sh)
        ≡ (after_answer R B m (call R B m sh.store).0, served m sh)
  unfolding solo queued step received waits_for contains count_write rounds Apart served
  solo-served (Message.write path sg idempotent complete_tx) sh e f n =
      rw (e, f, remove-one path) refl
  solo-served (Message.read path) sh e f n = rw (e, f, remove-one path) refl
  solo-served (Message.read_metadata path) sh e f n = rw (e, f, remove-one path) refl
  solo-served (Message.remove path) sh e f n = rw (e, f, remove-one path) refl
  solo-served (Message.list path) sh e f n = rw (e, f) refl
  solo-served (Message.list_recursively path) sh e f n = rw (e, f) refl
  solo-served (Message.remove_dir_all path) sh e f n = rw (e, f) refl
  solo-served (Message.rename src_path dst_path) sh e f n =
      rw
        (
          e,
          f,
          contains-other src_path dst_path n,
          remove-first dst_path src_path (λ q. n (sym q)),
          remove-one src_path,
        )
        refl

  -- Steps of the threads of these numbers, in this order.
  pub schedule : List ℕ → List (Event R B)
  schedule [] = []
  schedule (i ∷ is) = thread i ∷ schedule is

  -- How often the number stands in the list.
  unfoldable pub times : ℕ → List ℕ → ℕ
  times i [] = 0
  times i (j ∷ is) = if j == i then suc (times i is) else times i is

  -- The threads with `t` in place of that of the number `i`.
  pub put_at : ℕ → Thread R B → List (Thread R B) → List (Thread R B)
  put_at i t [] = []
  put_at zero t (u ∷ ts) = t ∷ ts
  put_at (suc i) t (u ∷ ts) = u ∷ put_at i t ts
