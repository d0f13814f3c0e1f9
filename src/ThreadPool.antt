-- ===== src/ThreadPool.antt =====
-- echo_server/common/thread_pool.{h,cpp}: a task queue behind a mutex, worker threads that sleep on
-- a condition variable, one thread that calls `enqueue` (the network thread) and one that calls
-- `stop`. A step is what one thread does up to its next lock, unlock, wait, notify or access to the
-- atomic flag. What `tasks_` holds is touched under the mutex only.
pub mod Invariant
pub mod Mutex
pub mod Tasks
pub mod Safety
pub mod Wakeup
pub mod Shutdown
pub mod Abandon
pub mod Interrupted
pub mod Idle
pub mod Hands
pub mod Order
pub mod Held
pub mod Advance
pub mod Finishing
pub mod Joining
pub mod Serving
pub mod Drains
mod Tests
use kernel_net.Prelude.{
  ℕ, ◌<◌, ◌≡◌, ◌≢◌, Bool, true, false, not, ◌&&◌, ◌||◌, List, [], ◌∷◌, ◌++◌, Option, none, some,
  if◌then◌else◌, update,
}

-- Who holds `mtx_`.
pub data Holder : Type 0 where
  by_worker : (i : ℕ) → Holder
  by_producer : Holder

-- A worker in `worker_loop`.
pub data Worker (A : Type 0) : Type 0 where
  looping : Worker A  -- the test of `while (running_)`
  locking : Worker A  -- before the `unique_lock`
  checking : Worker A  -- in `cv_.wait`, with the mutex: the predicate is next
  parking : Worker A  -- the predicate was false; about to release the mutex and sleep
  asleep : Worker A
  waking : Worker A  -- notified, without the mutex yet
  passed : Worker A  -- `cv_.wait` returned, with the mutex
  holding : (task : A) → Worker A  -- the task is dequeued, the mutex not yet released
  executing : (task : A) → Worker A
  gone : Worker A  -- `worker_loop` returned
  broken : Worker A  -- `front()` was called on an empty queue, which is undefined

-- The network thread, in `enqueue` or outside.
pub data Producer (A : Type 0) : Type 0 where
  away : Producer A
  offering : (task : A) → Producer A  -- before the `lock_guard`
  pushed : Producer A  -- the task is in the queue, the mutex not yet released
  notifying : Producer A  -- before `notify_one`

-- The thread that calls `stop`.
pub data Stopper : Type 0 where
  serving : Stopper
  flagged : Stopper  -- `running_` is false, before `notify_all`
  joining : Stopper
  stopped : Stopper

-- `enqueued`, `dequeued` and `finished` record the tasks that have gone so far, in order.
pub record System (A : Type 0) : Type 0 where
  pub tasks : List A
  pub mtx : Option Holder
  pub running : Bool
  pub worker : ℕ → Worker A
  pub producer : Producer A
  pub stopper : Stopper
  pub enqueued : List A
  pub dequeued : List A
  pub finished : List A

module _ {A : Type 0} where
  unfoldable pub is_empty : List A → Bool
  is_empty [] = true
  is_empty (_ ∷ _) = false

  -- The constructor starts every worker at the head of its loop.
  unfoldable pub start : System A
  start = record {
    tasks = [];
    mtx = none;
    running = true;
    worker = λ _. looping;
    producer = away;
    stopper = serving;
    enqueued = [];
    dequeued = [];
    finished = [];
  }

  -- The predicate of `cv_.wait`, and what follows.
  unfoldable pub after_predicate : Bool → List A → Worker A
  unfolding is_empty
  after_predicate running tasks = if not (is_empty tasks) || not running then passed else parking

  -- `if (!running_ && tasks_.empty()) return;`
  unfoldable pub leaves : Bool → List A → Bool
  unfolding is_empty
  leaves running tasks = not running && is_empty tasks

  -- `front` and `pop`
  unfoldable pub dequeue : ℕ → System A → System A
  dequeue i s = elim s.tasks [
    | [] ↦ record s { worker = update s.worker i broken }
    | task ∷ rest ↦ record s {
      tasks = rest;
      worker = update s.worker i (holding task);
      dequeued = s.dequeued ++ task ∷ [];
    }
  ]

  -- Worker `i` has the mutex: it returns, which releases the mutex, or takes the first task.
  unfoldable pub decide : ℕ → System A → System A
  unfolding leaves dequeue
  decide i s =
      if leaves s.running s.tasks
      then record s { worker = update s.worker i gone; mtx = none }
      else dequeue i s

  -- `notify_all` reaches those that sleep.
  unfoldable pub wake : Worker A → Worker A
  wake asleep = waking
  wake w = w

  -- One step of one thread, with `n` workers.
  pub data Step (n : ℕ) (s : System A) : System A → Type 0 where
    enter :
        (i : ℕ)
        → i < n
        → s.worker i ≡ looping
        → s.running ≡ true
        → Step n s (record s { worker = update s.worker i locking })
    quit :
        (i : ℕ)
        → i < n
        → s.worker i ≡ looping
        → s.running ≡ false
        → Step n s (record s { worker = update s.worker i gone })
    lock :
        (i : ℕ)
        → i < n
        → s.worker i ≡ locking
        → s.mtx ≡ none
        → Step n s (record s { worker = update s.worker i checking; mtx = some (by_worker i) })
    check :
        (i : ℕ)
        → i < n
        → s.worker i ≡ checking
        → Step n s (record s { worker = update s.worker i (after_predicate s.running s.tasks) })
    park :
        (i : ℕ)
        → i < n
        → s.worker i ≡ parking
        → Step n s (record s { worker = update s.worker i asleep; mtx = none })
    -- A wait may end without a notification.
    spurious :
        (i : ℕ)
        → i < n
        → s.worker i ≡ asleep
        → Step n s (record s { worker = update s.worker i waking })
    relock :
        (i : ℕ)
        → i < n
        → s.worker i ≡ waking
        → s.mtx ≡ none
        → Step n s (record s { worker = update s.worker i checking; mtx = some (by_worker i) })
    go_on : (i : ℕ) → i < n → s.worker i ≡ passed → Step n s (decide i s)
    unlock :
        (i : ℕ) (task : A)
        → i < n
        → s.worker i ≡ holding task
        → Step n s (record s { worker = update s.worker i (executing task); mtx = none })
    execute :
        (i : ℕ) (task : A)
        → i < n
        → s.worker i ≡ executing task
        → Step n s
            (record s { worker = update s.worker i looping; finished = s.finished ++ task ∷ [] })
    call : (task : A) → s.producer ≡ away → Step n s (record s { producer = offering task })
    push :
        (task : A)
        → s.producer ≡ offering task
        → s.mtx ≡ none
        → Step n s (record s {
          producer = pushed;
          mtx = some by_producer;
          tasks = s.tasks ++ task ∷ [];
          enqueued = s.enqueued ++ task ∷ [];
        })
    release : s.producer ≡ pushed → Step n s (record s { producer = notifying; mtx = none })
    -- `notify_one` wakes any one sleeper, and is lost when there is none.
    notify_one :
        (i : ℕ)
        → i < n
        → s.producer ≡ notifying
        → s.worker i ≡ asleep
        → Step n s (record s { producer = away; worker = update s.worker i waking })
    notify_none :
        s.producer ≡ notifying
        → ((i : ℕ) → i < n → s.worker i ≢ asleep)
        → Step n s (record s { producer = away })
    stop : s.stopper ≡ serving → Step n s (record s { stopper = flagged; running = false })
    notify_all :
        s.stopper ≡ flagged
        → Step n s (record s { stopper = joining; worker = λ i. wake (s.worker i) })
    join :
        s.stopper ≡ joining
        → ((i : ℕ) → i < n → s.worker i ≡ gone)
        → Step n s (record s { stopper = stopped })

  -- Every run starts from the constructor.
  pub data Reach (n : ℕ) : System A → Type 0 where
    begin : Reach n start
    next : {s t : System A} → Reach n s → Step n s t → Reach n t
