-- ===== src/ThreadPool/Tasks.antt =====
-- The tasks of a pool, step by step.
use kernel_net.Prelude.{
  ℕ, ◌+◌, ◌≡◌, refl, ap, ◌∙◌, true, List, [], ◌∷◌, ◌++◌, none, arith, total, total-update,
  total_congr, total-const_zero, Bool-cases, List-cases, inl, inr, update, append_assoc,
}
use kernel_net.ThreadPool.{
  looping, locking, checking, asleep, waking, passed, holding, executing, gone, System, start,
  after_predicate, leaves, dequeue, decide, wake, Step, enter, quit, lock, check, park, spurious,
  relock, go_on, unlock, execute, call, push, release, notify_one, notify_none, stop, notify_all,
  join, Reach, begin, next,
}
use kernel_net.ThreadPool.Mutex.{Step-owned, Step-pushing}
use kernel_net.ThreadPool.Invariant.{WorkerFits, is_serving, weigh, held, Inv}

module _ {A : Type 0} (weight : A → ℕ) where
  pub weigh-append : (xs ys : List A) → weigh weight (xs ++ ys) ≡ weigh weight xs + weigh weight ys
  unfolding weigh
  weigh-append [] ys = omega arith
  weigh-append (x ∷ xs) ys = omega (arith, weigh-append xs ys)

  weigh_one : (x : A) → weigh weight (x ∷ []) ≡ weight x
  unfolding weigh
  weigh_one x = omega arith

module _ {A : Type 0} {n : ℕ} {s : System A} (inv : Inv n s) where
  -- What a worker without the mutex relies on does not depend on the queue.
  Step-WorkerFits :
      {t : System A} → Step n s t → (j : ℕ) → WorkerFits t.running t.tasks (t.worker j)
  unfolding after_predicate decide wake
  Step-WorkerFits (enter i lt e r) j = ground (arith, inv.worker_fits j)
  Step-WorkerFits (quit i lt e r) j = ground (arith, inv.worker_fits j)
  Step-WorkerFits (lock i lt e free) j = ground (arith, inv.worker_fits j)
  Step-WorkerFits (check i lt e) j = ground (arith, inv.worker_fits j)
  Step-WorkerFits (park i lt e) j = ground (arith, inv.worker_fits j)
  Step-WorkerFits (spurious i lt e) j = ground (arith, inv.worker_fits j)
  Step-WorkerFits (relock i lt e free) j = ground (arith, inv.worker_fits j)
  Step-WorkerFits (go_on i lt e) j =
      ground (arith, inv.worker_fits j, inv.worker_fits i, inv.owned i, inv.owned j)
  Step-WorkerFits (unlock i task lt e) j = ground (arith, inv.worker_fits j)
  Step-WorkerFits (execute i task lt e) j = ground (arith, inv.worker_fits j)
  Step-WorkerFits (call task e) j = inv.worker_fits j
  Step-WorkerFits (push task e free) j = ground (arith, inv.worker_fits j, inv.owned j)
  Step-WorkerFits (release e) j = inv.worker_fits j
  Step-WorkerFits (notify_one i lt p e) j = ground (arith, inv.worker_fits j)
  Step-WorkerFits (notify_none p all) j = inv.worker_fits j
  Step-WorkerFits (stop e) j = ground (arith, inv.worker_fits j)
  Step-WorkerFits (notify_all e) j = ground (arith, inv.worker_fits j)
  Step-WorkerFits (join e all) j = inv.worker_fits j

  -- A worker that passed the wait either returns, or finds a first task.
  pub decide_cases {ℓ} :
      (P : System A → Type ℓ) (i : ℕ)
      → s.worker i ≡ passed
      → (leaves s.running s.tasks ≡ true
          → P (record s { worker = update s.worker i gone; mtx = none }))
      → ((task : A) (rest : List A)
          → s.tasks ≡ task ∷ rest
          → P (record s {
            tasks = rest;
            worker = update s.worker i (holding task);
            dequeued = s.dequeued ++ task ∷ [];
          }))
      → P (decide i s)
  unfolding decide
  decide_cases P i e left taken = elim (Bool-cases (leaves s.running s.tasks)) [
    | inl go ↦ rw (go, decide) (left go)
    | inr stay ↦ elim (List-cases s.tasks) [
      | inl none_left ↦ absurd (ground (arith, inv.worker_fits i))
      | inr (task, rest, first) ↦ rw (stay, decide) (rw (first, dequeue) (taken task rest first))
    ]
  ]

  Step-flag : {t : System A} → Step n s t → t.running ≡ is_serving t.stopper
  unfolding decide
  Step-flag (go_on i lt e) = ground (arith, inv.flag)
  Step-flag (stop e) = refl
  Step-flag (notify_all e) = ground (arith, inv.flag)
  Step-flag (join e all) = ground (arith, inv.flag)
  Step-flag step = inv.flag

  Step-conserved :
      {t : System A}
      → Step n s t
      → (weight : A → ℕ)
      → weigh weight t.dequeued ≡ weigh weight t.finished + total (held weight) n t.worker
  unfolding after_predicate wake
  Step-conserved (enter i lt e r) w =
      ground (arith, inv.conserved w, total-update (held w) n s.worker i locking lt)
  Step-conserved (quit i lt e r) w =
      ground (arith, inv.conserved w, total-update (held w) n s.worker i gone lt)
  Step-conserved (lock i lt e free) w =
      ground (arith, inv.conserved w, total-update (held w) n s.worker i checking lt)
  Step-conserved (check i lt e) w = ground (
    arith,
    inv.conserved w,
    total-update (held w) n s.worker i (after_predicate s.running s.tasks) lt,
  )
  Step-conserved (park i lt e) w =
      ground (arith, inv.conserved w, total-update (held w) n s.worker i asleep lt)
  Step-conserved (spurious i lt e) w =
      ground (arith, inv.conserved w, total-update (held w) n s.worker i waking lt)
  Step-conserved (relock i lt e free) w =
      ground (arith, inv.conserved w, total-update (held w) n s.worker i checking lt)
  Step-conserved (go_on i lt e) w =
      decide_cases (λ t. weigh w t.dequeued ≡ weigh w t.finished + total (held w) n t.worker) i e
        (λ _. ground (arith, inv.conserved w, total-update (held w) n s.worker i gone lt))
        λ task rest first. ground (
          arith,
          inv.conserved w,
          total-update (held w) n s.worker i (holding task) lt,
          weigh-append w s.dequeued (task ∷ []),
          weigh_one w task,
        )
  Step-conserved (unlock i task lt e) w =
      ground (arith, inv.conserved w, total-update (held w) n s.worker i (executing task) lt)
  Step-conserved (execute i task lt e) w = ground (
    arith,
    inv.conserved w,
    total-update (held w) n s.worker i looping lt,
    weigh-append w s.finished (task ∷ []),
    weigh_one w task,
  )
  Step-conserved (notify_one i lt p e) w =
      ground (arith, inv.conserved w, total-update (held w) n s.worker i waking lt)
  Step-conserved (notify_all e) w =
      inv.conserved w
      ∙ ap (λ (m : ℕ). weigh w s.finished + m)
          (total_congr (held w) n s.worker (λ i. wake (s.worker i)) (λ i. ground arith))
  Step-conserved step w = inv.conserved w

  Step-in_order : {t : System A} → Step n s t → t.enqueued ≡ t.dequeued ++ t.tasks
  unfolding decide
  Step-in_order (push task e free) =
      ap (λ q. q ++ task ∷ []) inv.in_order ∙ append_assoc s.dequeued s.tasks (task ∷ [])
  Step-in_order (go_on i lt e) =
      decide_cases (λ t. t.enqueued ≡ t.dequeued ++ t.tasks) i e (λ _. inv.in_order)
        λ task rest first. rw (append_assoc s.dequeued (task ∷ []) rest, ← first) inv.in_order
  Step-in_order step = inv.in_order

start-Inv : {A : Type 0} (n : ℕ) → Inv {A = A} n start
unfolding start weigh
start-Inv n = record {
  owned = λ i h. cc;
  pushing = λ h. cc;
  worker_fits = λ i. tt;
  flag = refl;
  in_order = refl;
  conserved = λ weight. omega (arith, total-const_zero (held weight) n looping refl);
}

-- Every step keeps the invariant.
pub Step-Inv : {A : Type 0} {n : ℕ} {s t : System A} → Inv n s → Step n s t → Inv n t
Step-Inv inv step = record {
  owned = Step-owned inv step;
  pushing = Step-pushing inv step;
  worker_fits = Step-WorkerFits inv step;
  flag = Step-flag inv step;
  in_order = Step-in_order inv step;
  conserved = Step-conserved inv step;
}

pub Reach-Inv : {A : Type 0} {n : ℕ} {s : System A} → Reach n s → Inv n s
Reach-Inv {n} begin = start-Inv n
Reach-Inv (next reach step) = Step-Inv (Reach-Inv reach) step
