-- ===== src/BenchRing/Safety.antt =====
-- What the two threads of `bench_ring` achieve together.
use kernel_net.Prelude.{
  upto, ℕ, ◌+◌, ◌-◌, ◌^◌, ◌≤◌, ◌<◌, ◌≡◌, ◌≢◌, ap, ◌∙◌, subst, ◌⊎◌, inl, inr, Bool, arith,
  bit_and-size, mod-ne,
}
use kernel_net.Ring.{slot}
use kernel_net.BenchRing.{cleared, written, ready, exited, System, Reach}
use kernel_net.BenchRing.Invariant.{ProducerFits, ConsumerFits, Inv}
use kernel_net.BenchRing.Keeps.{Reach-Inv}

-- While the producer is about to write a slot, or has written it and not yet published it, the
-- consumer is not about to read that slot: the plain accesses to the vector do not race.
pub no_race :
    {k n : ℕ} {s : System}
    → k ≤ 63
    → n < 2 ^ 64
    → Reach (2 ^ k) n s
    → (i w r : ℕ) (drain : Bool) → (s.producer ≡ cleared i w) ⊎ (s.producer ≡ written i w)
    → s.consumer ≡ ready drain r
    → slot (2 ^ k) w ≢ slot (2 ^ k) r
no_race {k} {n} {s} small fits reach i w r drain writing reading =
    rw (bit_and-size k w small, bit_and-size k r small, ← split)
      (mod-ne (2 ^ k) r (w - r) (omega (arith, ahead)) (omega (arith, ahead)))
  where
    inv : Inv k n s
    inv = Reach-Inv small fits reach

    reader : ConsumerFits k n s (ready drain r)
    reader = subst (ConsumerFits k n s) reading inv.consumer_fits

    writer : (w ≡ s.write_idx) × (w < s.read_idx + 2 ^ k)
    writer = elim writing [
      | inl e ↦ let f = subst (ProducerFits k n s) e inv.producer_fits in (f.1, f.3)
      | inr e ↦ let f = subst (ProducerFits k n s) e inv.producer_fits in (f.1, f.3)
    ]

    ahead : (r < w) × (w < r + 2 ^ k)
    ahead = omega (arith, reader, writer, inv.stale_write)

    split : r + (w - r) ≡ w
    split = omega (arith, ahead)

-- At every moment the consumer has received the first messages, in order and once each.
pub received_in_order :
    {k n : ℕ} {s : System}
    → k ≤ 63
    → n < 2 ^ 64
    → Reach (2 ^ k) n s
    → (s.received ≡ upto s.read_idx) × (s.read_idx ≤ n)
received_in_order small fits reach =
    let inv = Reach-Inv small fits reach in (inv.in_order, omega (arith, inv.behind, inv.sent))

-- When the consumer has left its drain loop, it has received every message of the producer.
pub exited_received_all :
    {k n : ℕ} {s : System}
    → k ≤ 63
    → n < 2 ^ 64
    → Reach (2 ^ k) n s
    → s.consumer ≡ exited
    → s.received ≡ upto n
exited_received_all {k} {n} {s} small fits reach e = inv.in_order ∙ ap upto at_end.0
  where
    inv : Inv k n s
    inv = Reach-Inv small fits reach

    at_end : ConsumerFits k n s exited
    at_end = subst (ConsumerFits k n s) e inv.consumer_fits
