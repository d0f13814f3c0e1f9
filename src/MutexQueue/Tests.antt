-- ===== src/MutexQueue/Tests.antt =====
-- Runs of `bench_mutex` with one message and a queue of one slot, and the theorems at them.
use kernel_net.Prelude.{◌≡◌, refl, [], ◌∷◌, arith, upto}
use kernel_net.MutexQueue.{
  init, try_push, try_pop, System, start, after_test, push, test, pop, count, Reach, begin, next,
}
use kernel_net.MutexQueue.Safety.{consumer_received_all}
use kernel_net.MutexQueue.Progress.{Productive, can_advance}

record Run : Type 0 where
  last : System
  reach : Reach 1 1 last

-- The message is in the queue.
abbrev sent : Run
unfolding start init try_push
sent = record {
  last = _;
  reach = next begin (push (record { q = 0 ∷ []; capacity = 1 }) (omega arith) refl);
}

-- The consumer takes it, counts it and leaves.
abbrev received : Run
unfolding start init try_push try_pop after_test sent
received = record {
  last = _;
  reach =
      next
        (next
          (next (next sent.reach (test refl))
            (pop (record { item = 0; rest = record { q = []; capacity = 1 } }) refl refl))
          (count refl))
        (test refl);
}

consumer_received_all_example : received.last.received ≡ upto 1
unfolding start init try_push try_pop after_test sent received
consumer_received_all_example = consumer_received_all received.reach refl

can_advance_example : Productive 1 sent.last
unfolding start init try_push sent
can_advance_example = can_advance (omega arith) sent.reach (ground arith)
