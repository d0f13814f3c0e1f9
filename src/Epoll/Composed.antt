-- ===== src/Epoll/Composed.antt =====
-- The network thread beside the thread pool of ThreadPool, step by step: the network thread handles an
-- event, then calls `enqueue` for the task that it may have left; the workers and `stop` go through
-- `worker_loop` and `stop`.
pub mod Simulates
pub mod Alive
pub mod Echoes
pub mod Drains
mod Tests
use kernel_net.Prelude.{ℕ, ◌<◌, ◌≡◌, ◌≢◌, Bool, true, false, List, [], ◌∷◌, some, update, ◌++◌}
use kernel_net.Epoll.{Errors, Task, Server, Event, handle_event}
use kernel_net.Epoll.Pool.{execute, Unused}
use kernel_net.ThreadPool
use kernel_net.ThreadPool.{looping, executing, away, offering}

-- `net` is the server without the pool; its `tasks` are those that the event being handled has left
-- to enqueue.
pub record System : Type 0 where
  pub pool : ThreadPool.System Task
  pub net : Server

abbrev pub fresh : ℕ → System
unfolding ThreadPool.start
fresh listen_fd = record {
  pool = ThreadPool.start;
  net = record { listen_fd = listen_fd; is_open = λ _. false; watched = λ _. false; tasks = [] };
}

-- Steps of the pool that neither begin a call of `enqueue` nor run a task.
abbrev pub internal : {n : ℕ} {s t : ThreadPool.System Task} → ThreadPool.Step n s t → Bool
internal (ThreadPool.call task e) = false
internal (ThreadPool.execute i task lt e) = false
internal _ = true

pub data Step (os : Errors) (n : ℕ) (s : System) : System → Type 0 where
  -- The conditions are those of the abstract step.
  event :
      {t : Server} (e : Event)
      → e.epollerr ≡ false
      → (e.fd ≢ s.net.listen_fd → s.net.watched e.fd ≡ true)
      → Unused e.accepts s.net
      → s.pool.producer ≡ away
      → s.net.tasks ≡ []
      → handle_event os e s.net ≡ some t
      → Step os n s (record s { net = t })
  -- `pool_.enqueue`
  call :
      (task : Task) (rest : List Task)
      → s.net.tasks ≡ task ∷ rest
      → s.pool.producer ≡ away
      → Step os n s (record {
        pool = record s.pool { producer = offering task };
        net = record s.net { tasks = rest };
      })
  -- `task()`
  perform :
      (i : ℕ) (task : Task)
      → i < n
      → s.pool.worker i ≡ executing task
      → Step os n s (record {
        pool = record s.pool {
          worker = update s.pool.worker i looping;
          finished = s.pool.finished ++ task ∷ [];
        };
        net = execute task s.net;
      })
  inside :
      {p : ThreadPool.System Task} (step : ThreadPool.Step n s.pool p)
      → internal step ≡ true
      → Step os n s (record s { pool = p })

pub data Reach (os : Errors) (n listen_fd : ℕ) : System → Type 0 where
  begin : Reach os n listen_fd (fresh listen_fd)
  next : {s t : System} → Reach os n listen_fd s → Step os n s t → Reach os n listen_fd t

-- The pool goes through its own steps.
pub Reach-pool :
    {os : Errors} {n listen_fd : ℕ} {s : System}
    → Reach os n listen_fd s
    → ThreadPool.Reach n s.pool
unfolding ThreadPool.start fresh
Reach-pool begin = ThreadPool.begin
Reach-pool (next reach (event e calm seen unused idle done result)) = Reach-pool reach
Reach-pool (next reach (call task rest e idle)) =
    ThreadPool.next (Reach-pool reach) (ThreadPool.call task idle)
Reach-pool (next reach (perform i task lt e)) =
    ThreadPool.next (Reach-pool reach) (ThreadPool.execute i task lt e)
Reach-pool (next reach (inside step q)) = ThreadPool.next (Reach-pool reach) step
