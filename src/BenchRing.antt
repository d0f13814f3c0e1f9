-- ===== src/BenchRing.antt =====
-- ring_buffer_benchmark.cc, `bench_ring`: a producer and a consumer thread on one ring buffer.
-- A step is one access to shared memory by one thread, with the local work that follows it. An
-- acquire load of the other thread's index may return any value of that index from the last one
-- this thread has seen up to the present one; loads of a thread's own index return its last store.
pub mod Invariant
pub mod Stores
pub mod Keeps
pub mod Safety
pub mod Work
pub mod Advance
pub mod Progress
pub mod Channel
pub mod Refine
mod Tests
use kernel_net.Prelude.{
  ℕ, ◌+◌, ◌^◌, ◌≤◌, ◌<◌, ◌≡◌, Bool, true, false, List, [], ◌∷◌, ◌++◌, add_size, sub_size, ltb, ◌==◌,
  if◌then◌else◌, get_or, set,
}
use kernel_net.Ring.{SpscRingBuffer, init, slot}

-- Where the producer stands, with its live locals: the loop variable `i`, and `w` of `push`.
pub data Producer : Type 0 where
  idle : (i : ℕ) → Producer  -- head of the `for`
  loaded : (i w : ℕ) → Producer  -- `write_idx_` is loaded
  cleared : (i w : ℕ) → Producer  -- there is room
  written : (i w : ℕ) → Producer  -- the item is in its slot
  finished : Producer

-- The consumer, with `r` and `item` of `pop`; `drain` tells the loop after `done` from the first.
pub data Consumer : Type 0 where
  polling : (drain : Bool) → Consumer  -- before a call of `pop`
  asked : (drain : Bool) (r : ℕ) → Consumer  -- `read_idx_` is loaded
  ready : (drain : Bool) (r : ℕ) → Consumer  -- there is an item
  copied : (drain : Bool) (r item : ℕ) → Consumer
  refused : Consumer  -- `pop` returned false; before the load of `done`
  exited : Consumer

-- `seen_read` and `seen_write` are the newest index of the other thread that each has seen;
-- `received` collects what the calls of `pop` yield.
pub record System : Type 0 where
  pub ring : SpscRingBuffer ℕ
  pub open ring use *
  pub done : Bool
  pub producer : Producer
  pub consumer : Consumer
  pub seen_read : ℕ
  pub seen_write : ℕ
  pub received : List ℕ

-- `RING_SIZE` is `2 ^ ring_bits`.
abbrev pub ring_bits : ℕ
ring_bits = 12

module _ (size : ℕ) where
  unfoldable pub start : System
  unfolding init
  start = record {
    ring = init size 0;
    done = false;
    producer = idle 0;
    consumer = polling false;
    seen_read = 0;
    seen_write = 0;
    received = [];
  }

  -- The test for room in `push`, and what the loop does with its result.
  unfoldable pub after_room : ℕ → ℕ → ℕ → Producer
  after_room i w r = if ltb size (sub_size (add_size w 1) r) then idle i else cleared i w

  -- The test for items in `pop`, and what either loop does with its result.
  unfoldable pub after_items : Bool → ℕ → ℕ → Consumer
  after_items drain r w = if r == w then (if drain then exited else refused) else ready drain r

  pub data Step (num_messages : ℕ) (s : System) : System → Type 0 where
    load_write :
        (i : ℕ)
        → s.producer ≡ idle i
        → i < num_messages
        → Step num_messages s (record s { producer = loaded i s.write_idx })
    load_read :
        (i w r : ℕ)
        → s.producer ≡ loaded i w
        → s.seen_read ≤ r
        → r ≤ s.read_idx
        → Step num_messages s (record s { producer = after_room i w r; seen_read = r })
    store_item :
        (i w : ℕ)
        → s.producer ≡ cleared i w
        → Step num_messages s (record s {
          ring = record s.ring { buffer = set s.buffer (slot size w) i };
          producer = written i w;
        })
    store_write :
        (i w : ℕ)
        → s.producer ≡ written i w
        → Step num_messages s (record s {
          ring = record s.ring { write_idx = add_size w 1 };
          producer = idle (i + 1);
        })
    finish :
        (i : ℕ)
        → s.producer ≡ idle i
        → num_messages ≤ i
        → Step num_messages s (record s { done = true; producer = finished })
    begin_pop :
        (drain : Bool)
        → s.consumer ≡ polling drain
        → Step num_messages s (record s { consumer = asked drain s.read_idx })
    load_written :
        (drain : Bool) (r w : ℕ)
        → s.consumer ≡ asked drain r
        → s.seen_write ≤ w
        → w ≤ s.write_idx
        → Step num_messages s (record s { consumer = after_items drain r w; seen_write = w })
    read_item :
        (drain : Bool) (r : ℕ)
        → s.consumer ≡ ready drain r
        → Step num_messages s
            (record s { consumer = copied drain r (get_or s.buffer (slot size r) 0) })
    store_read :
        (drain : Bool) (r item : ℕ)
        → s.consumer ≡ copied drain r item
        → Step num_messages s (record s {
          ring = record s.ring { read_idx = add_size r 1 };
          consumer = polling drain;
          received = s.received ++ item ∷ [];
        })
    -- The load of `done` may miss a recent store of `true`.
    done_unset : s.consumer ≡ refused → Step num_messages s (record s { consumer = polling false })
    -- If it does return `true`, all stores before that of `done` are visible.
    done_set :
        s.consumer ≡ refused
        → s.done ≡ true
        → Step num_messages s (record s { consumer = polling true; seen_write = s.write_idx })

  pub data Reach (num_messages : ℕ) : System → Type 0 where
    begin : Reach num_messages start
    next : {s t : System} → Reach num_messages s → Step num_messages s t → Reach num_messages t
