-- ===== src/ThreadPool/Order.antt =====
-- The order in which tasks are executed.
use kernel_net.Prelude.{
  ℕ, suc, ◌<◌, ◌≡◌, ◌≢◌, refl, sym, ap, ◌∙◌, Bool, List, [], ◌∷◌, ◌++◌, arith, update, append-nil,
  ℕ_discrete,
}
use kernel_net.ThreadPool.{
  Worker, looping, locking, checking, asleep, waking, passed, holding, executing, gone, System,
  start, after_predicate, decide, wake, Step, enter, quit, lock, check, park, spurious, relock,
  go_on, unlock, execute, call, push, release, notify_one, notify_none, notify_all, Reach, begin,
  next,
}
use kernel_net.ThreadPool.Hands.{in_hand}
use kernel_net.ThreadPool.Invariant.{Inv}
use kernel_net.ThreadPool.Tasks.{Reach-Inv, decide_cases}

module _ {A : Type 0} where
  -- What a worker has finished and what it has in hand is what left the queue.
  abbrev Sequential : System A → Type 0
  Sequential s = s.dequeued ≡ s.finished ++ in_hand (s.worker 0)

  -- Worker `i` is the only one.
  the_hand :
      (f : ℕ → Worker A) (i : ℕ) (w : Worker A) → i < 1 → in_hand (update f i w 0) ≡ in_hand w
  the_hand f i w lt = ap in_hand (ground arith)

  its_hand : (f : ℕ → Worker A) (i : ℕ) → i < 1 → in_hand (f 0) ≡ in_hand (f i)
  its_hand f i lt = ap (λ k. in_hand (f k)) (ground arith)

  -- It goes on with the task that it has, or with none.
  keeps :
      (s : System A) (i : ℕ) (w : Worker A)
      → i < 1
      → in_hand w ≡ in_hand (s.worker i)
      → Sequential s
      → s.dequeued ≡ s.finished ++ in_hand (update s.worker i w 0)
  keeps s i w lt same h =
      h
      ∙ ap (λ l. s.finished ++ l)
          (its_hand s.worker i lt ∙ sym same ∙ sym (the_hand s.worker i w lt))

  idle_after : (running : Bool) (tasks : List A) → in_hand (after_predicate running tasks) ≡ []
  unfolding after_predicate
  idle_after running tasks = ground arith

  takes :
      (s : System A) (i : ℕ) (task : A)
      → i < 1
      → s.worker i ≡ passed
      → Sequential s
      → s.dequeued ++ task ∷ [] ≡ s.finished ++ in_hand (update s.worker i (holding task) 0)
  takes s i task lt e h =
      ap (λ l. l ++ task ∷ [])
        (h
          ∙ ap (λ l. s.finished ++ l) (its_hand s.worker i lt ∙ ap in_hand e)
          ∙ append-nil s.finished)
      ∙ ap (λ l. s.finished ++ l) (sym (the_hand s.worker i (holding task) lt))

  completes :
      (s : System A) (i : ℕ) (task : A)
      → i < 1
      → s.worker i ≡ executing task
      → Sequential s
      → s.dequeued ≡ (s.finished ++ task ∷ []) ++ in_hand (update s.worker i looping 0)
  completes s i task lt e h =
      h
      ∙ ap (λ l. s.finished ++ l) (its_hand s.worker i lt ∙ ap in_hand e)
      ∙ sym (append-nil (s.finished ++ task ∷ []))
      ∙ ap (λ l. (s.finished ++ task ∷ []) ++ l) (sym (the_hand s.worker i looping lt))

  Step-Sequential : {s t : System A} → Inv 1 s → Step 1 s t → Sequential s → Sequential t
  unfolding wake
  Step-Sequential {s} inv (enter i lt e r) h = keeps s i locking lt (ap in_hand (sym e)) h
  Step-Sequential {s} inv (quit i lt e r) h = keeps s i gone lt (ap in_hand (sym e)) h
  Step-Sequential {s} inv (lock i lt e free) h = keeps s i checking lt (ap in_hand (sym e)) h
  Step-Sequential {s} inv (check i lt e) h =
      keeps s i (after_predicate s.running s.tasks) lt
        (idle_after s.running s.tasks ∙ ap in_hand (sym e)) h
  Step-Sequential {s} inv (park i lt e) h = keeps s i asleep lt (ap in_hand (sym e)) h
  Step-Sequential {s} inv (spurious i lt e) h = keeps s i waking lt (ap in_hand (sym e)) h
  Step-Sequential {s} inv (relock i lt e free) h = keeps s i checking lt (ap in_hand (sym e)) h
  Step-Sequential {s} inv (go_on i lt e) h =
      decide_cases inv Sequential i e (λ _. keeps s i gone lt (ap in_hand (sym e)) h)
        λ task rest first. takes s i task lt e h
  Step-Sequential {s} inv (unlock i task lt e) h =
      keeps s i (executing task) lt (ap in_hand (sym e)) h
  Step-Sequential {s} inv (execute i task lt e) h = completes s i task lt e h
  Step-Sequential {s} inv (notify_one i lt p e) h = keeps s i waking lt (ap in_hand (sym e)) h
  Step-Sequential {s} inv (notify_all e) h = h ∙ ap (λ l. s.finished ++ l) (woken (s.worker 0))
    where
      woken : (w : Worker A) → in_hand w ≡ in_hand (wake w)
      woken w = ground arith
  Step-Sequential inv step h = h

  Reach-Sequential : {s : System A} → Reach 1 s → Sequential s
  unfolding start
  Reach-Sequential begin = refl
  Reach-Sequential (next reach step) =
      Step-Sequential (Reach-Inv reach) step (Reach-Sequential reach)

  -- With one worker, the tasks that it has finished, the one that it has in hand and those that wait
  -- in the queue are those that were enqueued, in the same order.
  pub executes_in_order :
      {s : System A} → Reach 1 s → s.enqueued ≡ (s.finished ++ in_hand (s.worker 0)) ++ s.tasks
  executes_in_order {s} reach =
      (Reach-Inv reach).in_order ∙ ap (λ l. l ++ s.tasks) (Reach-Sequential reach)

module _ {A : Type 0} (m : ℕ) (a b : A) where
  stirring : ◌≢◌ {A = Worker A} looping asleep
  stirring e = cc

  abbrev Run : Type 0
  Run = (s : System A) × Reach (suc (suc m)) s

  abbrev first_queued : Run
  unfolding start
  first_queued = (
    _,
    next (next (next (next begin (call a refl)) (push a refl refl)) (release refl))
        (notify_none refl (λ i lt. stirring)),
  )

  -- Both tasks are enqueued before a worker starts.
  abbrev queued : Run
  unfolding start
  queued = (
    _,
    next (next (next (next first_queued.1 (call b refl)) (push b refl refl)) (release refl))
        (notify_none refl (λ i lt. stirring)),
  )

  -- Worker 0 has the first of them in hand.
  abbrev one_taken : Run
  unfolding start after_predicate decide ℕ_discrete
  one_taken = (
    _,
    next
        (next
          (next
            (next (next queued.1 (enter 0 (omega arith) refl refl))
              (lock 0 (omega arith) refl refl))
            (check 0 (omega arith) refl))
          (go_on 0 (omega arith) refl))
        (unlock 0 a (omega arith) refl),
  )

  abbrev both_taken : Run
  unfolding start after_predicate decide ℕ_discrete
  both_taken = (
    _,
    next
        (next
          (next
            (next (next one_taken.1 (enter 1 (omega arith) refl refl))
              (lock 1 (omega arith) refl refl))
            (check 1 (omega arith) refl))
          (go_on 1 (omega arith) refl))
        (unlock 1 b (omega arith) refl),
  )

  -- With two workers or more, tasks may finish in another order than that in which they came: for
  -- any two tasks there is a run in which they are enqueued in this order and finished in the other.
  pub may_swap :
      (s : System A) × Reach (suc (suc m)) s × (s.enqueued ≡ a ∷ b ∷ []) × (s.finished ≡ b ∷ a ∷ [])
  unfolding start after_predicate decide ℕ_discrete
  may_swap = (
    _,
    next (next both_taken.1 (execute 1 b (omega arith) refl)) (execute 0 a (omega arith) refl),
    refl,
    refl,
  )
