-- ===== src/Epoll/Composed/Tests.antt =====
-- A run of the server beside its pool: client 7 connects and sends two bytes, and the worker runs the
-- echo.
use kernel_net.Prelude.{
  ℕ, ◌+◌, ◌≤◌, ◌⊎◌, ◌≡◌, ◌≢◌, refl, true, false, List, [], ◌∷◌, ◌++◌, ℤ, pos, arith, ℕ_discrete,
}
use kernel_net.Epoll.{
  Errors, Task, echo, Accepted, client, no_client, Event, handle_event, accept_connection, register,
  handle_read, enqueue,
}
use kernel_net.Epoll.Pool
use kernel_net.Epoll.Composed.{perform, System, Reach, begin, next, event, call, inside, fresh}
use kernel_net.Epoll.Composed.Simulates.{offered, view, simulates}
use kernel_net.Epoll.Composed.Alive.{executing_is_open, watched_or_closed_later}
use kernel_net.Epoll.Composed.Echoes.{received, echoed, echoes_in_order}
use kernel_net.Epoll.Composed.Drains.{
  Run as Settling, here, later, settling_work, CanSettle, IsSettled, echoes_all,
}
use kernel_net.Epoll.Tended.{bit, closes}
use kernel_net.ThreadPool.Hands.{in_hand}
use kernel_net.ThreadPool
use kernel_net.ThreadPool.{Worker, looping, asleep, after_predicate, decide, start}

abbrev linux : Errors
linux = record { eagain = 11; ewouldblock = 11 }

abbrev event_at : ℕ → List Accepted → ℤ → Event
event_at fd accepts n = record {
  fd = fd;
  epollerr = false;
  epollin = true;
  accepts = accepts;
  reads = record { n = n; errno = 0; buf = 104 ∷ 105 ∷ [] };
}

record Run : Type 0 where
  last : System
  reach : Reach linux 1 3 last

awake : ◌≢◌ {A = Worker Task} looping asleep
awake e = cc

abbrev heard : Run
unfolding fresh start handle_event accept_connection register handle_read enqueue ℕ_discrete
heard = record {
  last = _;
  reach =
      next
        (next begin (
          event (event_at 3 (client 7 true ∷ no_client 11 ∷ []) (pos 0)) refl
            (λ other. absurd (other refl)) (refl, tt) refl refl refl))
        (event (event_at 7 [] (pos 2)) refl (λ _. refl) tt refl refl refl);
}

-- The task is in the queue, and the worker runs.
abbrev enqueued : Run
unfolding fresh start handle_event accept_connection register handle_read enqueue ℕ_discrete
enqueued = record {
  last = _;
  reach =
      next
        (next
          (next (next heard.reach (call (echo 7 (104 ∷ 105 ∷ [])) [] refl refl))
            (inside (ThreadPool.push (echo 7 (104 ∷ 105 ∷ [])) refl refl) refl))
          (inside (ThreadPool.release refl) refl))
        (inside (ThreadPool.notify_none refl (λ i lt. awake)) refl);
}

abbrev echoing : Run
unfolding fresh start handle_event accept_connection register handle_read enqueue ℕ_discrete
    after_predicate decide
echoing = record {
  last = _;
  reach =
      next
        (next
          (next
            (next (next enqueued.reach (inside (ThreadPool.enter 0 (omega arith) refl refl) refl))
              (inside (ThreadPool.lock 0 (omega arith) refl refl) refl))
            (inside (ThreadPool.check 0 (omega arith) refl) refl))
          (inside (ThreadPool.go_on 0 (omega arith) refl) refl))
        (inside (ThreadPool.unlock 0 (echo 7 (104 ∷ 105 ∷ [])) (omega arith) refl) refl);
}

simulates_example : Pool.Reach linux 1 3 (view 1 echoing.last)
simulates_example = simulates linux 1 3 echoing.reach

executing_is_open_example : echoing.last.net.is_open 7 ≡ true
unfolding fresh start handle_event accept_connection register handle_read enqueue ℕ_discrete
    after_predicate decide
executing_is_open_example = executing_is_open (echo 7 (104 ∷ 105 ∷ [])) echoing.reach refl

watched_or_closed_later_example :
    bit (heard.last.net.watched 7)
      + closes 7 (
          in_hand (heard.last.pool.worker 0)
          ++ ((heard.last.pool.tasks ++ offered heard.last.pool.producer) ++ heard.last.net.tasks))
    ≡ bit (heard.last.net.is_open 7)
watched_or_closed_later_example = watched_or_closed_later 7 heard.reach

echoes_in_order_example :
    received echoing.reach 7
    ≡ echoed 7 (
        (((echoing.last.pool.finished ++ in_hand (echoing.last.pool.worker 0))
            ++ echoing.last.pool.tasks)
          ++ offered echoing.last.pool.producer)
        ++ echoing.last.net.tasks)
echoes_in_order_example = echoes_in_order 7 echoing.reach

received_hi : received echoing.reach 7 ≡ 104 ∷ 105 ∷ []
unfolding received fresh start handle_event accept_connection register handle_read enqueue
    ℕ_discrete after_predicate decide
received_hi = refl

-- The worker executes the echo.
abbrev echoed_hi : (t : System) × Settling linux 1 echoing.last 1 t
unfolding fresh start handle_event accept_connection register handle_read enqueue ℕ_discrete
    after_predicate decide
echoed_hi = (_, later here (perform 0 (echo 7 (104 ∷ 105 ∷ [])) (omega arith) refl) refl)

echoes_all_example :
    (1 + settling_work 1 echoed_hi.0 ≤ settling_work 1 echoing.last)
    × ((IsSettled 1 echoed_hi.0
          × ((k : ℕ) → received echoing.reach k ≡ echoed k echoed_hi.0.pool.finished))
        ⊎ CanSettle linux 1 echoed_hi.0)
unfolding fresh start handle_event accept_connection register handle_read enqueue ℕ_discrete
    after_predicate decide
echoes_all_example = echoes_all echoing.reach refl echoed_hi.1
