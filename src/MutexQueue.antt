-- ===== src/MutexQueue.antt =====
-- ring_buffer_benchmark.cc: MutexQueue, a bounded queue behind a mutex whose callers spin, and
-- bench_mutex, which sends messages through one. What a thread does under the mutex is one step.
pub mod Safety
pub mod Progress
mod Tests
use kernel_net.Prelude.{
  ℕ, suc, ◌<◌, ◌≡◌, List, [], ◌∷◌, ◌++◌, Option, none, some, if◌then◌else◌, length, ltb,
}

pub record MutexQueue (A : Type 0) : Type 0 where
  pub q : List A
  pub capacity : ℕ

unfoldable pub init : {A : Type 0} → ℕ → MutexQueue A
init cap = record { q = []; capacity = cap }

-- One pass of the loop of `push`; `none` when the queue is full, and the thread spins.
unfoldable pub try_push : {A : Type 0} → A → MutexQueue A → Option (MutexQueue A)
try_push item m =
    if ltb (length m.q) m.capacity then some (record m { q = m.q ++ item ∷ [] }) else none

-- What `pop` finds: the front item beside the rest.
pub record Popped (A : Type 0) : Type 0 where
  pub item : A
  pub rest : MutexQueue A

-- One pass of the loop of `pop`; `none` when the queue is empty.
abbrev pub front : {A : Type 0} → MutexQueue A → List A → Option (Popped A)
front m [] = none
front m (x ∷ xs) = some (record { item = x; rest = record m { q = xs } })

unfoldable pub try_pop : {A : Type 0} → MutexQueue A → Option (Popped A)
try_pop m = front m m.q

-- The consumer of `bench_mutex`.
pub data Consumer : Type 0 where
  testing : Consumer  -- the test of the `while`
  popping : Consumer
  counting : Consumer  -- before the `fetch_add`
  exited : Consumer

-- The producer is at message `i`; `received` records what the consumer has got.
pub record System : Type 0 where
  pub queue : MutexQueue ℕ
  pub i : ℕ
  pub consumed : ℕ
  pub consumer : Consumer
  pub received : List ℕ

unfoldable pub start : ℕ → System
start cap = record { queue = init cap; i = 0; consumed = 0; consumer = testing; received = [] }

-- The test of the consumer's loop.
unfoldable pub after_test : ℕ → ℕ → Consumer
after_test num_messages consumed = if ltb consumed num_messages then popping else exited

pub data Step (num_messages : ℕ) : System → System → Type 0 where
  push :
      {s : System} (m : MutexQueue ℕ)
      → s.i < num_messages
      → try_push s.i s.queue ≡ some m
      → Step num_messages s (record s { queue = m; i = suc s.i })
  spin_full :
      {s : System} → s.i < num_messages → try_push s.i s.queue ≡ none → Step num_messages s s
  test :
      {s : System}
      → s.consumer ≡ testing
      → Step num_messages s (record s { consumer = after_test num_messages s.consumed })
  pop :
      {s : System} (p : Popped ℕ)
      → s.consumer ≡ popping
      → try_pop s.queue ≡ some p
      → Step num_messages s
          (record s { queue = p.rest; consumer = counting; received = s.received ++ p.item ∷ [] })
  spin_empty : {s : System} → s.consumer ≡ popping → try_pop s.queue ≡ none → Step num_messages s s
  count :
      {s : System}
      → s.consumer ≡ counting
      → Step num_messages s (record s { consumed = suc s.consumed; consumer = testing })

pub data Reach (cap num_messages : ℕ) : System → Type 0 where
  begin : Reach cap num_messages (start cap)
  next :
      {s t : System} → Reach cap num_messages s → Step num_messages s t → Reach cap num_messages t
