-- ===== src/ThreadPool/Safety.antt =====
-- The properties of a pool in every reachable state.
use kernel_net.Prelude.{ℕ, ◌+◌, ◌≡◌, ◌≢◌, ap, subst, true, ◌++◌, arith, total}
use kernel_net.ThreadPool.{broken, pushed, System, Reach}
use kernel_net.ThreadPool.Invariant.{locked, WorkerFits, weigh, held, Inv}
use kernel_net.ThreadPool.Tasks.{Reach-Inv, weigh-append}

module _ {A : Type 0} {n : ℕ} {s : System A} (reach : Reach n s) where
  -- At most one thread is between a lock of the mutex and its release: two workers there are one,
  -- and then the network thread is not there.
  pub mutual_exclusion :
      (i j : ℕ)
      → locked (s.worker i) ≡ true
      → locked (s.worker j) ≡ true
      → (i ≡ j) × (s.producer ≢ pushed)
  mutual_exclusion i j in_i in_j =
      (ground (arith, inv.owned i, inv.owned j), λ p. ground (arith, inv.owned i, inv.pushing))
    where
      inv : Inv n s
      inv = Reach-Inv reach

  -- No worker calls `front` on an empty queue.
  pub never_broken : (i : ℕ) → s.worker i ≢ broken
  never_broken i e = subst (WorkerFits s.running s.tasks) e (inv.worker_fits i)
    where
      inv : Inv n s
      inv = Reach-Inv reach

  -- Tasks leave the queue in the order in which they came.
  pub dequeues_in_order : s.enqueued ≡ s.dequeued ++ s.tasks
  dequeues_in_order = (Reach-Inv reach).in_order

  -- Under every weight of tasks, what was enqueued weighs as much as what has been executed, what
  -- the workers have in hand and what waits in the queue, together. So no task is lost, made up or
  -- executed twice.
  pub executes_once :
      (weight : A → ℕ)
      → weigh weight s.enqueued
        ≡ weigh weight s.finished + total (held weight) n s.worker + weigh weight s.tasks
  executes_once weight = omega (
    arith,
    ap (weigh weight) inv.in_order,
    weigh-append weight s.dequeued s.tasks,
    inv.conserved weight,
  )
    where
      inv : Inv n s
      inv = Reach-Inv reach
