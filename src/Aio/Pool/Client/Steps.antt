-- ===== src/Aio/Pool/Client/Steps.antt =====
-- The steps of the threads of a pool in which one thread at most is at work.
use rdedup.Base.{
  Bool, ap, ok, err, panics, stuck, ◌<◌, ◌≤◌, arith, if◌then◌else◌, ℕ, zero, suc, ◌≡◌, ◌≢◌, refl,
  ◌∙◌, true, false, List, [], ◌∷◌,
}
use rdedup.Aio.Pool.{
  Answer, unwrapped, done, data_read, metadata, listing, batches, idle, panicked, waiting, leaving,
  when_taken, contains, remove_path, Message, Thread, receiving, Shared, after_answer, received,
  step, step_at,
}
use rdedup.Aio.Pool.Work.{same_queue}
use rdedup.SgData.{ArcRefs}
use rdedup.Aio.{Backend}
use rdedup.Aio.Pool.Client.{put_at}

module _ (R : ArcRefs) (B : Backend R) where
  pub step_at-own :
      (n i : ℕ) (t : Thread R B) (sh : Shared R B)
      → i < n
      → step_at R B i (put_at R B i t (idle R B n)) sh
        ≡ (put_at R B i (step R B t sh).0 (idle R B n), (step R B t sh).1)
  unfolding step_at put_at idle
  step_at-own zero i t sh h = absurd (omega (arith, h))
  step_at-own (suc n) zero t sh h = refl
  step_at-own (suc n) (suc i) t sh h =
      ap (λ (r : List (Thread R B) × Shared R B). (receiving ∷ r.0, r.1))
        (step_at-own n i t sh (omega (arith, h)))

  pub put_at-idle : (n i : ℕ) → put_at R B i receiving (idle R B n) ≡ idle R B n
  unfolding put_at idle
  put_at-idle zero i = refl
  put_at-idle (suc n) zero = refl
  put_at-idle (suc n) (suc i) = ap (λ ts. receiving ∷ ts) (put_at-idle n i)

  received-nil : (sh : Shared R B) → sh.queue ≡ [] → step R B receiving sh ≡ (receiving, sh)
  unfolding step received
  received-nil sh e = rw e refl

  -- A thread that rests finds nothing in an empty queue.
  step_at-rest :
      (n j : ℕ) (sh : Shared R B) → sh.queue ≡ [] → step_at R B j (idle R B n) sh ≡ (idle R B n, sh)
  unfolding step_at idle
  step_at-rest zero j sh e = refl
  step_at-rest (suc n) zero sh e =
      ap (λ (r : Thread R B × Shared R B). (r.0 ∷ idle R B n, r.1)) (received-nil sh e)
  step_at-rest (suc n) (suc j) sh e =
      ap (λ (r : List (Thread R B) × Shared R B). (receiving ∷ r.0, r.1)) (step_at-rest n j sh e)

  pub step_at-beside :
      (n i j : ℕ) (t : Thread R B) (sh : Shared R B)
      → j ≢ i
      → sh.queue ≡ []
      → step_at R B j (put_at R B i t (idle R B n)) sh ≡ (put_at R B i t (idle R B n), sh)
  unfolding step_at put_at idle
  step_at-beside zero i j t sh d e = refl
  step_at-beside (suc n) zero zero t sh d e = absurd (d refl)
  step_at-beside (suc n) zero (suc j) t sh d e =
      ap (λ (r : List (Thread R B) × Shared R B). (t ∷ r.0, r.1)) (step_at-rest n j sh e)
  step_at-beside (suc n) (suc i) zero t sh d e =
      ap (λ (r : Thread R B × Shared R B). (r.0 ∷ put_at R B i t (idle R B n), r.1))
        (received-nil sh e)
  step_at-beside (suc n) (suc i) (suc j) t sh d e =
      ap (λ (r : List (Thread R B) × Shared R B). (receiving ∷ r.0, r.1))
        (step_at-beside n i j t sh (λ q. d (ap suc q)) e)

  -- No thread of that number.
  pub step_at-beyond :
      (n j : ℕ) (sh : Shared R B) → n ≤ j → step_at R B j (idle R B n) sh ≡ (idle R B n, sh)
  unfolding step_at idle
  step_at-beyond zero j sh h = refl
  step_at-beyond (suc n) zero sh h = absurd (omega (arith, h))
  step_at-beyond (suc n) (suc j) sh h =
      ap (λ (r : List (Thread R B) × Shared R B). (receiving ∷ r.0, r.1))
        (step_at-beyond n j sh (omega (arith, h)))

  -- The queue stays empty.
  pub step-nil : (t : Thread R B) (sh : Shared R B) → sh.queue ≡ [] → (step R B t sh).1.queue ≡ []
  unfolding step
  step-nil receiving sh e = ap (λ (r : Thread R B × Shared R B). r.1.queue) (received-nil sh e) ∙ e
  step-nil panicked sh e = e
  step-nil (waiting held [] m) sh e = e
  step-nil (waiting held (path ∷ wanted) m) sh e = by_taken (contains path sh.in_progress)
    where
      by_taken :
          (b : Bool)
          → (if◌then◌else◌ {A = Thread R B × Shared R B} b
              (when_taken R B held (path ∷ wanted) m, sh)
              (
                waiting (path ∷ held) wanted m,
                record sh { in_progress = path ∷ sh.in_progress },
              )).1.queue
            ≡ []
      by_taken true = e
      by_taken false = e
  step-nil (leaving (path ∷ held) a m) sh e =
      same_queue R B m (record sh { in_progress = remove_path path sh.in_progress }) ∙ e
  step-nil (leaving [] a m) sh e = e

  unwrapped-rests :
      (a : Answer R B) (sh : Shared R B)
      → sh.queue ≡ []
      → step R B (unwrapped R B a) sh ≡ (unwrapped R B a, sh)
  unfolding unwrapped step
  unwrapped-rests (done (ok u)) sh e = received-nil sh e
  unwrapped-rests (done (err x)) sh e = refl
  unwrapped-rests (done panics) sh e = refl
  unwrapped-rests (done stuck) sh e = refl
  unwrapped-rests (data_read r) sh e = received-nil sh e
  unwrapped-rests (metadata r) sh e = received-nil sh e
  unwrapped-rests (listing r) sh e = received-nil sh e
  unwrapped-rests (batches r) sh e = received-nil sh e

  pub answered-rests :
      (m : Message R B) (a : Answer R B) (sh : Shared R B)
      → sh.queue ≡ []
      → step R B (after_answer R B m a) sh ≡ (after_answer R B m a, sh)
  unfolding after_answer
  answered-rests (Message.write path sg idempotent true) a sh e = received-nil sh e
  answered-rests (Message.write path sg idempotent false) a sh e = unwrapped-rests a sh e
  answered-rests (Message.read path) a sh e = received-nil sh e
  answered-rests (Message.read_metadata path) a sh e = received-nil sh e
  answered-rests (Message.list path) a sh e = received-nil sh e
  answered-rests (Message.list_recursively path) a sh e = received-nil sh e
  answered-rests (Message.remove path) a sh e = received-nil sh e
  answered-rests (Message.remove_dir_all path) a sh e = received-nil sh e
  answered-rests (Message.rename src_path dst_path) a sh e = received-nil sh e
