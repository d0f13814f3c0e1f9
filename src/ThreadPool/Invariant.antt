-- ===== src/ThreadPool/Invariant.antt =====
-- What holds of a thread pool in every reachable state.
use kernel_net.Prelude.{ℕ, ◌+◌, ◌≡◌, Bool, true, false, ◌&&◌, List, [], ◌∷◌, ◌++◌, some, total}
use kernel_net.ThreadPool.{
  by_worker, by_producer, Worker, checking, parking, passed, holding, executing, gone, broken,
  pushed, Stopper, serving, System, is_empty,
}

abbrev pub is_serving : Stopper → Bool
is_serving serving = true
is_serving _ = false

module _ {A : Type 0} where
  -- Where `worker_loop` holds the mutex.
  abbrev pub locked : Worker A → Bool
  locked checking = true
  locked parking = true
  locked passed = true
  locked (holding _) = true
  locked _ = false

  abbrev pub WorkerFits : Bool → List A → Worker A → Type 0
  WorkerFits running tasks parking = tasks ≡ []
  WorkerFits running tasks passed = (is_empty tasks && running) ≡ false
  WorkerFits running tasks gone = running ≡ false
  WorkerFits running tasks broken = ⊥
  WorkerFits running tasks _ = Unit

  -- A weight tells tasks apart: lists with the same sum for every weight hold the same tasks.
  unfoldable pub weigh : (A → ℕ) → List A → ℕ
  weigh weight [] = 0
  weigh weight (task ∷ rest) = weight task + weigh weight rest

  abbrev pub held : (A → ℕ) → Worker A → ℕ
  held weight (holding task) = weight task
  held weight (executing task) = weight task
  held weight _ = 0

  pub record Inv (n : ℕ) (s : System A) : Type 0 where
    pub owned : (i : ℕ) → locked (s.worker i) ≡ true → s.mtx ≡ some (by_worker i)
    pub pushing : s.producer ≡ pushed → s.mtx ≡ some by_producer
    pub worker_fits : (i : ℕ) → WorkerFits s.running s.tasks (s.worker i)
    pub flag : s.running ≡ is_serving s.stopper
    pub in_order : s.enqueued ≡ s.dequeued ++ s.tasks
    pub conserved :
        (weight : A → ℕ)
        → weigh weight s.dequeued ≡ weigh weight s.finished + total (held weight) n s.worker
