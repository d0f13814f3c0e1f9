-- ===== src/BenchRing/Invariant.antt =====
-- What holds of `bench_ring` in every reachable state. The indices never wrap, since they count
-- messages and `num_messages` is a `size_t`.
use kernel_net.Prelude.{
  upto, ℕ, ◌+◌, ◌%◌, ◌^◌, ◌≤◌, ◌<◌, ◌≡◌, Bool, true, false, List, length, get_or,
}
use kernel_net.Ring.{SpscRingBuffer}
use kernel_net.BenchRing.{
  Producer, idle, loaded, cleared, written, finished, Consumer, polling, asked, ready, copied,
  refused, exited, System,
}

-- The slot of index `j` holds message `j`.
abbrev pub Holds : ℕ → SpscRingBuffer ℕ → ℕ → Type 0
Holds k r j = get_or r.buffer (j % 2 ^ k) 0 ≡ j

-- The ring and the messages received, whatever the threads are doing.
pub record RingFits (k n : ℕ) (r : SpscRingBuffer ℕ) (received : List ℕ) : Type 0 where
  pub small : k ≤ 63
  pub size_t : n < 2 ^ 64
  pub behind : r.read_idx ≤ r.write_idx
  pub room : r.write_idx ≤ r.read_idx + 2 ^ k
  pub sent : r.write_idx ≤ n
  pub storage : length r.buffer ≡ 2 ^ k
  pub live : (j : ℕ) → r.read_idx ≤ j → j < r.write_idx → Holds k r j
  pub in_order : received ≡ upto r.read_idx

module _ (k n : ℕ) (s : System) where
  abbrev pub ProducerFits : Producer → Type 0
  ProducerFits (idle i) = i ≡ s.write_idx
  ProducerFits (loaded i w) = (i ≡ s.write_idx) × (w ≡ s.write_idx) × (s.write_idx < n)
  ProducerFits (cleared i w) =
      (i ≡ s.write_idx) × (w ≡ s.write_idx) × (s.write_idx < n) × (w < s.read_idx + 2 ^ k)
  ProducerFits (written i w) =
      (i ≡ s.write_idx)
      × (w ≡ s.write_idx)
      × (s.write_idx < n)
      × (w < s.read_idx + 2 ^ k)
      × Holds k s.ring w
  ProducerFits finished = s.write_idx ≡ n

  -- After `done` was seen, so were all messages.
  abbrev pub Drains : Bool → Type 0
  Drains true = (s.seen_write ≡ n) × (s.write_idx ≡ n)
  Drains false = Unit

  abbrev pub ConsumerFits : Consumer → Type 0
  ConsumerFits (polling d) = Drains d
  ConsumerFits (asked d r) = (r ≡ s.read_idx) × Drains d
  ConsumerFits (ready d r) = (r ≡ s.read_idx) × (r < s.seen_write) × Drains d
  ConsumerFits (copied d r v) = (r ≡ s.read_idx) × (r < s.seen_write) × (v ≡ r) × Drains d
  ConsumerFits refused = Unit
  ConsumerFits exited = (s.read_idx ≡ n) × (s.write_idx ≡ n)

  abbrev pub DoneFits : Bool → Type 0
  DoneFits true = s.write_idx ≡ n
  DoneFits false = Unit

  pub record Inv : Type 0 where
    pub ring_fits : RingFits k n s.ring s.received
    pub open ring_fits use *
    pub stale_read : s.seen_read ≤ s.read_idx
    pub stale_write : (s.read_idx ≤ s.seen_write) × (s.seen_write ≤ s.write_idx)
    pub producer_fits : ProducerFits s.producer
    pub consumer_fits : ConsumerFits s.consumer
    pub done_fits : DoneFits s.done
