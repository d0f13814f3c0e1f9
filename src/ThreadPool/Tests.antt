-- ===== src/ThreadPool/Tests.antt =====
-- Runs of a pool with one worker, and the theorems at them.
use kernel_net.Prelude.{ℕ, ◌+◌, ◌≤◌, ◌⊎◌, ◌≡◌, ◌≢◌, refl, [], ◌∷◌, arith, ℕ_discrete, total}
use kernel_net.ThreadPool.{
  Worker, looping, joining, stopped, asleep, System, start, after_predicate, decide, is_empty, park,
  wake, stop, notify_all, enter, lock, check, go_on, unlock, execute, call, push, release,
  notify_none, Reach, begin, next,
}
use kernel_net.ThreadPool.Invariant.{weigh, held}
use kernel_net.ThreadPool.Safety.{executes_once}
use kernel_net.ThreadPool.Wakeup.{Attended, no_lost_wakeup}
use kernel_net.ThreadPool.Shutdown.{here, missed_notify, stop_may_hang}
use kernel_net.ThreadPool.Interrupted.{
  HandlerRun, handler_deadlocks, later as handled, here as begun,
}
use kernel_net.ThreadPool.Order.{may_swap}
use kernel_net.ThreadPool.Joining.{stop_returns}
use kernel_net.ThreadPool.Finishing.{steps_left, here as paused, later as onward}
use kernel_net.ThreadPool.Advance.{CanStep}
use kernel_net.ThreadPool.Drains.{IsIdle, executes_all, here as at_rest, later as working}
use kernel_net.ThreadPool.Serving.{work_left}
use kernel_net.ThreadPool.Drains as Drains
use kernel_net.ThreadPool.Finishing
use kernel_net.ThreadPool.Abandon.{stop_may_abandon}

record Run : Type 0 where
  last : System ℕ
  reach : Reach 1 last

up : ◌≢◌ {A = Worker ℕ} looping asleep
up e = cc

-- Task 7 is enqueued before the worker has started.
abbrev offered : Run
unfolding start ℕ_discrete
offered = record {
  last = _;
  reach =
      next (next (next (next begin (call 7 refl)) (push 7 refl refl)) (release refl))
        (notify_none refl (λ i lt. up));
}

-- The worker has dequeued it and still holds the mutex.
abbrev dequeued : Run
unfolding start after_predicate decide ℕ_discrete
dequeued = record {
  last = _;
  reach =
      next
        (next
          (next (next offered.reach (enter 0 (omega arith) refl refl))
            (lock 0 (omega arith) refl refl))
          (check 0 (omega arith) refl))
        (go_on 0 (omega arith) refl);
}

abbrev executed : Run
unfolding start after_predicate decide ℕ_discrete
executed = record {
  last = _;
  reach =
      next (next dequeued.reach (unlock 0 7 (omega arith) refl)) (execute 0 7 (omega arith) refl);
}

executed_seven : (executed.last.finished ≡ 7 ∷ []) × (executed.last.tasks ≡ [])
unfolding start after_predicate decide ℕ_discrete
executed_seven = (refl, refl)

executes_once_example :
    weigh (λ t. t) executed.last.enqueued
    ≡ weigh (λ t. t) executed.last.finished
      + total (held (λ t. t)) 1 executed.last.worker
      + weigh (λ t. t) executed.last.tasks
executes_once_example = executes_once executed.reach (λ t. t)

no_lost_wakeup_example : Attended 1 offered.last
unfolding start is_empty ℕ_discrete
no_lost_wakeup_example = no_lost_wakeup (omega arith) offered.reach refl refl

stop_may_hang_example :
    ((missed_notify {A = ℕ} 2).0.stopper ≡ joining)
    × ((missed_notify {A = ℕ} 2).0.worker 0 ≡ asleep)
stop_may_hang_example = stop_may_hang 2 here

stop_may_abandon_example :
    (s : System ℕ) × Reach 1 s × (s.stopper ≡ stopped) × (s.tasks ≡ 7 ∷ 8 ∷ []) × (s.finished ≡ [])
stop_may_abandon_example = stop_may_abandon (7 ∷ 8 ∷ [])

-- The worker sleeps and the network thread has the mutex.
abbrev inside_enqueue : Run
unfolding start after_predicate ℕ_discrete
inside_enqueue = record {
  last = _;
  reach =
      next
        (next
          (next
            (next
              (next (next begin (enter 0 (omega arith) refl refl)) (lock 0 (omega arith) refl refl))
              (check 0 (omega arith) refl))
            (park 0 (omega arith) refl))
          (call 7 refl))
        (push 7 refl refl);
}

-- The handler has called `stop`, which has woken the worker and joins it.
abbrev handler_joins : (t : System ℕ) × HandlerRun 1 inside_enqueue.last t
unfolding start after_predicate wake ℕ_discrete
handler_joins = (_, handled (handled begun (stop refl) refl) (notify_all refl) refl)

handler_deadlocks_example : handler_joins.0.stopper ≢ stopped
unfolding start after_predicate wake ℕ_discrete
handler_deadlocks_example =
    handler_deadlocks 0 inside_enqueue.reach refl refl (omega arith) refl handler_joins.1

may_swap_example :
    (s : System ℕ) × Reach 2 s × (s.enqueued ≡ 7 ∷ 8 ∷ []) × (s.finished ≡ 8 ∷ 7 ∷ [])
may_swap_example = may_swap 0 7 8

-- Task 7 is in the queue and the worker about to lock when `stop` is called.
abbrev joined : Run
unfolding start wake ℕ_discrete
joined = record {
  last = _;
  reach =
      next (next (next offered.reach (enter 0 (omega arith) refl refl)) (stop refl))
        (notify_all refl);
}

-- It has the mutex and has dequeued the task.
abbrev finishing : (t : System ℕ) × Finishing.Run 1 joined.last 3 t
unfolding start wake after_predicate decide ℕ_discrete
finishing = (
  _,
  onward
      (onward (onward paused (lock 0 (omega arith) refl refl) refl) (check 0 (omega arith) refl)
        refl)
      (go_on 0 (omega arith) refl) refl,
)

stop_returns_example :
    (3 + steps_left 1 finishing.0 ≤ steps_left 1 joined.last)
    × ((finishing.0.stopper ≡ stopped) ⊎ CanStep 1 finishing.0)
unfolding start wake after_predicate decide ℕ_discrete
stop_returns_example = stop_returns joined.reach refl refl (λ i lt. ground (arith, lt)) finishing.1

-- The worker takes task 7 and executes it.
abbrev working_on : (t : System ℕ) × Drains.Run 1 dequeued.last 2 t
unfolding start after_predicate decide ℕ_discrete
working_on = (
  _,
  working (working at_rest (unlock 0 7 (omega arith) refl) refl) (execute 0 7 (omega arith) refl)
      refl,
)

executes_all_example :
    (2 + work_left 1 working_on.0 ≤ work_left 1 dequeued.last)
    × ((IsIdle 1 working_on.0
          × ((weight : ℕ → ℕ)
              → weigh weight working_on.0.enqueued ≡ weigh weight working_on.0.finished))
        ⊎ CanStep 1 working_on.0)
unfolding start after_predicate decide ℕ_discrete
executes_all_example = executes_all (omega arith) dequeued.reach refl working_on.1
