-- ===== src/Aio/Pool.antt =====
-- The pool of threads of lib/src/aio/mod.rs that runs the operations on the backend: each thread
-- takes a message, waits for the paths it names, calls the backend, gives the paths back and answers.
pub mod Count
pub mod Exclusion
pub mod Deadlock
pub mod Answers
pub mod Work
pub mod Single
pub mod Progress
pub mod Client
use mathlib.Core.List.{List-discrete}
use rdedup.Base.{
  ℕ, zero, suc, Bool, true, false, if◌then◌else◌, ite, Bytes-discrete, Option, none, some, Result,
  ok, err, panics, stuck, List, [], ◌∷◌, ◌++◌, add_u64,
}
use rdedup.SgData
use rdedup.SgData.{ArcRefs, SgData}
use rdedup.Nesting.{FilePath}
use rdedup.Aio.{Backend, Metadata}

abbrev pub FilePath-discrete : Discrete FilePath
FilePath-discrete = List-discrete Bytes-discrete

-- The set `in_progress`.
unfoldable pub contains : FilePath → List FilePath → Bool
contains path [] = false
contains path (p ∷ paths) = ite (FilePath-discrete p path) true (contains path paths)

unfoldable pub remove_path : FilePath → List FilePath → List FilePath
remove_path path [] = []
remove_path path (p ∷ paths) =
    ite (FilePath-discrete p path) (remove_path path paths) (p ∷ remove_path path paths)

module _ (R : ArcRefs) (B : Backend R) where
  -- The channel for the answer is left out, but for whether a write has one, `complete_tx`.
  pub data Message : Type 0 where
    write : FilePath → SgData R → Bool → Bool → Message
    read read_metadata list list_recursively remove remove_dir_all : FilePath → Message
    rename : FilePath → FilePath → Message

  pub data Answer : Type 0 where
    done : Result (Unit {0}) → Answer
    data_read : Result (SgData R) → Answer
    metadata : Result Metadata → Answer
    listing : Result (List FilePath) → Answer
    batches : List (Result (List FilePath)) → Answer

  -- Where a thread is: it has the paths `held`, the last one taken first, and wants the others.
  pub data Thread : Type 0 where
    receiving panicked : Thread
    waiting : List FilePath → List FilePath → Message → Thread
    leaving : List FilePath → Answer → Message → Thread

  -- What the threads share: the channel of messages, the set of paths, the backend and the
  -- statistics; and the messages that were answered, with their answers.
  pub record Shared : Type 0 where
    pub queue : List Message
    pub in_progress : List FilePath
    pub store : B.State
    pub new_bytes : ℕ
    pub new_chunks : ℕ
    pub answered : List (Message × Answer)

  -- The paths that an operation waits for, in the order in which it does.
  unfoldable pub waits_for : Message → List FilePath
  waits_for (write path sg idempotent complete_tx) = path ∷ []
  waits_for (read path) = path ∷ []
  waits_for (read_metadata path) = path ∷ []
  waits_for (list path) = []
  waits_for (list_recursively path) = []
  waits_for (remove path) = path ∷ []
  waits_for (remove_dir_all path) = []
  waits_for (rename src_path dst_path) = src_path ∷ dst_path ∷ []

  abbrev pub answer : Result (Unit {0}) × B.State → Answer × B.State
  answer (r, s) = (done r, s)

  unfoldable pub call : Message → B.State → Answer × B.State
  call (write path sg idempotent complete_tx) s = answer (B.write path sg idempotent s)
  call (read path) s = (data_read (B.read path s), s)
  call (read_metadata path) s = (metadata (B.read_metadata path s), s)
  call (list path) s = (listing (B.list path s), s)
  call (list_recursively path) s = (batches (B.list_recursively path s), s)
  call (remove path) s = answer (B.remove path s)
  call (remove_dir_all path) s = answer (B.remove_dir_all path s)
  call (rename src_path dst_path) s = answer (B.rename src_path dst_path s)

  -- A path that another operation has: an idempotent write is taken to be done, all else sleeps and
  -- tries again.
  unfoldable pub when_taken : List FilePath → List FilePath → Message → Thread
  when_taken held wanted (write path sg true complete_tx) =
      leaving held (done (ok tt)) (write path sg true complete_tx)
  when_taken held wanted (write path sg false complete_tx) =
      waiting held wanted (write path sg false complete_tx)
  when_taken held wanted (read path) = waiting held wanted (read path)
  when_taken held wanted (read_metadata path) = waiting held wanted (read_metadata path)
  when_taken held wanted (list path) = waiting held wanted (list path)
  when_taken held wanted (list_recursively path) = waiting held wanted (list_recursively path)
  when_taken held wanted (remove path) = waiting held wanted (remove path)
  when_taken held wanted (remove_dir_all path) = waiting held wanted (remove_dir_all path)
  when_taken held wanted (rename src_path dst_path) = waiting held wanted (rename src_path dst_path)

  -- A write counts, whatever its result, in the step that gives its path back.
  unfoldable pub count_write : Message → Shared → Shared
  count_write (write path sg idempotent complete_tx) sh = record sh {
    new_bytes = add_u64 sh.new_bytes (SgData.len R sg);
    new_chunks = add_u64 sh.new_chunks 1;
  }
  count_write (read path) sh = sh
  count_write (read_metadata path) sh = sh
  count_write (list path) sh = sh
  count_write (list_recursively path) sh = sh
  count_write (remove path) sh = sh
  count_write (remove_dir_all path) sh = sh
  count_write (rename src_path dst_path) sh = sh

  -- A failed write without a channel for the answer fails an `unwrap`.
  unwrapped : Answer → Thread
  unwrapped (done (ok u)) = receiving
  unwrapped (done (err e)) = panicked
  unwrapped (done panics) = panicked
  unwrapped (done stuck) = panicked
  unwrapped (data_read r) = receiving
  unwrapped (metadata r) = receiving
  unwrapped (listing r) = receiving
  unwrapped (batches r) = receiving

  unfoldable pub after_answer : Message → Answer → Thread
  unfolding unwrapped
  after_answer (write path sg idempotent true) a = receiving
  after_answer (write path sg idempotent false) a = unwrapped a
  after_answer (read path) a = receiving
  after_answer (read_metadata path) a = receiving
  after_answer (list path) a = receiving
  after_answer (list_recursively path) a = receiving
  after_answer (remove path) a = receiving
  after_answer (remove_dir_all path) a = receiving
  after_answer (rename src_path dst_path) a = receiving

  received : List Message → Shared → Thread × Shared
  unfolding waits_for
  received [] sh = (receiving, sh)
  received (m ∷ queue) sh = (waiting [] (waits_for m) m, record sh { queue = queue })

  -- One step of a thread: each is what it does under the lock of the shared data, or one call.
  unfoldable pub step : Thread → Shared → Thread × Shared
  unfolding received call when_taken count_write after_answer contains remove_path
  step receiving sh = received sh.queue sh
  step panicked sh = (panicked, sh)
  step (waiting held [] m) sh =
      let (a, s) = call m sh.store in (leaving held a m, record sh { store = s })
  step (waiting held (path ∷ wanted) m) sh =
      if contains path sh.in_progress
      then (when_taken held (path ∷ wanted) m, sh)
      else (waiting (path ∷ held) wanted m, record sh { in_progress = path ∷ sh.in_progress })
  step (leaving (path ∷ held) a m) sh = (
    leaving held a m,
    count_write m (record sh { in_progress = remove_path path sh.in_progress }),
  )
  step (leaving [] a m) sh = (after_answer m a, record sh { answered = (m, a) ∷ sh.answered })

  -- The step of one of the threads, by its number.
  unfoldable pub step_at : ℕ → List Thread → Shared → List Thread × Shared
  unfolding step
  step_at i [] sh = ([], sh)
  step_at zero (t ∷ ts) sh = let (t', sh') = step t sh in (t' ∷ ts, sh')
  step_at (suc i) (t ∷ ts) sh = let (ts', sh') = step_at i ts sh in (t ∷ ts', sh')

  -- A thread makes a step, or a client sends a message.
  pub data Event : Type 0 where
    thread : ℕ → Event
    send : Message → Event

  unfoldable pub run : List Event → List Thread → Shared → List Thread × Shared
  unfolding step_at
  run [] ts sh = (ts, sh)
  run (thread i ∷ events) ts sh = let (ts', sh') = step_at i ts sh in run events ts' sh'
  run (send m ∷ events) ts sh = run events ts (record sh { queue = sh.queue ++ (m ∷ []) })

  -- The threads and what they share at the start.
  abbrev pub fresh : B.State → Shared
  fresh s = record {
    queue = [];
    in_progress = [];
    store = s;
    new_bytes = 0;
    new_chunks = 0;
    answered = [];
  }

  unfoldable pub idle : ℕ → List Thread
  idle zero = []
  idle (suc n) = receiving ∷ idle n
