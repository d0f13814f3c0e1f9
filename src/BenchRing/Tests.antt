-- ===== src/BenchRing/Tests.antt =====
-- Runs of `bench_ring` on a ring of two slots, and the theorems at them.
use kernel_net.Prelude.{some, upto, ℕ, ◌≤◌, ◌≡◌, ◌≢◌, refl, inl, true, false, arith}
use kernel_net.Ring.{slot}
use kernel_net.BenchRing.{
  exited, System, start, after_room, after_items, load_write, load_read, store_item, store_write,
  finish, begin_pop, load_written, read_item, store_read, done_set, Reach, begin, next,
}
use kernel_net.BenchRing.Safety.{no_race, exited_received_all}
use kernel_net.BenchRing.Work.{work}
use kernel_net.BenchRing.Channel
use kernel_net.BenchRing.Refine.{actions, view, refines_channel}
use kernel_net.BenchRing.Progress.{Steps, can_finish}

record Run (n : ℕ) : Type 0 where
  last : System
  reach : Reach 2 n last

-- One message of `n` is sent before the consumer runs.
abbrev one_sent : (n : ℕ) → 1 ≤ n → Run n
unfolding start after_room
one_sent n h = record {
  last = _;
  reach =
      next
        (next
          (next (next begin (load_write 0 refl h))
            (load_read 0 0 0 refl (omega arith) (omega arith)))
          (store_item 0 0 refl))
        (store_write 0 0 refl);
}

-- The producer is about to write the second slot, the consumer to read the first.
abbrev crossing : Run 2
unfolding start after_room after_items
crossing = record {
  last = _;
  reach =
      next
        (next
          (next (next (one_sent 2 (omega arith)).reach (load_write 1 refl (omega arith)))
            (load_read 1 1 0 refl (omega arith) (omega arith)))
          (begin_pop false refl))
        (load_written false 0 1 refl (omega arith) (omega arith));
}

-- The consumer takes the message, finds the ring empty, sees `done` and drains.
abbrev drained : Run 1
unfolding start after_room after_items
drained = record {
  last = _;
  reach =
      next
        (next
          (next
            (next
              (next
                (next
                  (next
                    (next
                      (next (next (one_sent 1 (omega arith)).reach (finish 1 refl (omega arith)))
                        (begin_pop false refl))
                      (load_written false 0 1 refl (omega arith) (omega arith)))
                    (read_item false 0 refl))
                  (store_read false 0 0 refl))
                (begin_pop false refl))
              (load_written false 1 1 refl (omega arith) (omega arith)))
            (done_set refl refl))
          (begin_pop true refl))
        (load_written true 1 1 refl (omega arith) (omega arith));
}

no_race_example : slot 2 1 ≢ slot 2 0
unfolding start after_room after_items
no_race_example =
    no_race {k = 1} (omega arith) (omega arith) crossing.reach 1 1 0 false (inl refl) refl

exited_received_all_example : drained.last.received ≡ upto 1
unfolding start after_room after_items
exited_received_all_example =
    exited_received_all {k = 1} (omega arith) (omega arith) drained.reach refl

can_finish_example :
    (t : System) × (m : ℕ) × (m ≤ work 2 crossing.last)
    × Steps 2 2 crossing.last m t
    × (t.consumer ≡ exited)
    × (t.received ≡ upto 2)
can_finish_example = can_finish {k = 1} (omega arith) (omega arith) crossing.reach

refines_channel_example : Channel.replay 2 (actions drained.reach) ≡ some (view 2 drained.last)
refines_channel_example = refines_channel {k = 1} (omega arith) (omega arith) drained.reach
