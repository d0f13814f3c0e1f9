-- ===== src/BenchRing/Work.antt =====
-- The work that the threads of `bench_ring` have left.
use kernel_net.Prelude.{ℕ, ◌+◌, ◌-◌, ◌*◌, ◌≤◌, ◌<◌, ◌≡◌, ◌≢◌, ◌⊎◌, refl, Bool, true, false, arith}
use kernel_net.BenchRing.{
  Producer, idle, loaded, cleared, written, finished, Consumer, polling, asked, ready, copied,
  refused, exited, System, start, after_room, Step, load_write, load_read, store_item, store_write,
  finish, begin_pop, load_written, read_item, store_read, done_unset, done_set, Reach, begin, next,
}

-- The steps that a producer still takes in its round of the loop.
abbrev pub producer_stage : Producer → ℕ
producer_stage (idle i) = 4
producer_stage (loaded i w) = 3
producer_stage (cleared i w) = 2
producer_stage (written i w) = 1
producer_stage finished = 0

-- The steps that a consumer still takes until it exits, by `done`, when no message comes between.
abbrev pub consumer_stage : Bool → Consumer → ℕ
consumer_stage done exited = 0
consumer_stage done (copied true r item) = 1
consumer_stage done (ready true r) = 2
consumer_stage done (asked true r) = 3
consumer_stage done (polling true) = 4
consumer_stage true refused = 5
consumer_stage done (copied false r item) = 6
consumer_stage done (ready false r) = 7
consumer_stage done (asked false r) = 8
consumer_stage done (polling false) = 9
consumer_stage false refused = 10

-- The steps still to come that are not retries.
abbrev pub work : ℕ → System → ℕ
work n s =
    (5 * (n - s.write_idx) + producer_stage s.producer)
    + (10 * (n - s.read_idx) + consumer_stage s.done s.consumer)

-- A step that lowers the work.
abbrev pub Productive : (size n : ℕ) → System → Type 0
Productive size n s = (t : System) × Step size n s t × (work n t < work n s)

-- The producer leaves its loop when it sets `done`.
pub Reach-done : {size n : ℕ} {s : System} → Reach size n s → s.producer ≡ finished → s.done ≡ true
unfolding start after_room
Reach-done begin e = absurd (ground arith)
Reach-done (next reach (load_write i at more)) e = absurd (ground arith)
Reach-done (next reach (load_read i w r at low high)) e = absurd (ground arith)
Reach-done (next reach (store_item i w at)) e = absurd (ground arith)
Reach-done (next reach (store_write i w at)) e = absurd (ground arith)
Reach-done (next reach (finish i at last)) e = refl
Reach-done (next reach (begin_pop drain at)) e = Reach-done reach e
Reach-done (next reach (load_written drain r w at low high)) e = Reach-done reach e
Reach-done (next reach (read_item drain r at)) e = Reach-done reach e
Reach-done (next reach (store_read drain r item at)) e = Reach-done reach e
Reach-done (next reach (done_unset at)) e = Reach-done reach e
Reach-done (next reach (done_set at seen)) e = Reach-done reach e

pub sooner : (c : Consumer) → consumer_stage true c ≤ consumer_stage false c
sooner c = ground arith

pub asked_soon : (o d : Bool) (r : ℕ) → consumer_stage o (asked d r) < consumer_stage o (polling d)
asked_soon o d r = ground arith

pub ready_soon : (o d : Bool) (r : ℕ) → consumer_stage o (ready d r) < consumer_stage o (asked d r)
ready_soon o d r = ground arith

pub copied_soon :
    (o d : Bool) (r item : ℕ) → consumer_stage o (copied d r item) < consumer_stage o (ready d r)
copied_soon o d r item = ground arith

pub polling_again :
    (o d : Bool) (r item : ℕ)
    → consumer_stage o (polling d) < consumer_stage o (copied d r item) + 10
polling_again o d r item = ground arith

pub finished_or_not : (p : Producer) → (p ≡ finished) ⊎ (p ≢ finished)
finished_or_not p = ground arith
