-- ===== src/BenchRing/Advance.antt =====
-- A step of `bench_ring` that lowers the work left.
use kernel_net.Prelude.{
  ℕ, suc, ◌^◌, ◌<◌, ◌≡◌, ◌≢◌, inl, inr, refl, ap, Bool, true, false, arith, Bool-cases, dec_lt,
  add_size, two-pow-bounds, if◌then◌else◌,
}
use kernel_net.BenchRing.{
  Producer, idle, loaded, cleared, written, finished, Consumer, polling, asked, ready, copied,
  refused, exited, System, after_room, after_items, load_write, load_read, store_item, store_write,
  finish, begin_pop, load_written, read_item, store_read, done_unset, done_set,
}
use kernel_net.BenchRing.Invariant.{Inv, ProducerFits, ConsumerFits}
use kernel_net.BenchRing.Stores.{producer_at, consumer_at}
use kernel_net.BenchRing.Work.{
  producer_stage, consumer_stage, Productive, sooner, asked_soon, ready_soon, copied_soon,
  polling_again, finished_or_not,
}

module _ {k n : ℕ} {s : System} (inv : Inv k n s) where
  has_room :
      (i w : ℕ)
      → s.producer ≡ loaded i w
      → s.read_idx ≡ s.write_idx
      → after_room (2 ^ k) i w s.read_idx ≡ cleared i w
  unfolding after_room
  has_room i w e empty =
      ground (arith, producer_at inv e, two-pow-bounds k inv.small, inv.sent, inv.size_t)

  -- The producer goes on when the ring is empty.
  producer_advances :
      (p : Producer)
      → s.producer ≡ p
      → p ≢ finished
      → s.read_idx ≡ s.write_idx
      → s.done ≡ false
      → Productive (2 ^ k) n s
  producer_advances (idle i) e busy empty open_ = elim (dec_lt i n) [
    | yes more ↦ (_, load_write i e more, omega (arith, ap producer_stage e))
    | no last ↦ (
      _,
      finish i e (omega (arith, last)),
      omega (
        arith,
        ap producer_stage e,
        sooner s.consumer,
        ap (λ d. consumer_stage d s.consumer) open_,
      ),
    )
  ]
  producer_advances (loaded i w) e busy empty open_ = (
    _,
    load_read i w s.read_idx e inv.stale_read (omega arith),
    omega (arith, ap producer_stage e, ap producer_stage (has_room i w e empty)),
  )
  producer_advances (cleared i w) e busy empty open_ =
      (_, store_item i w e, omega (arith, ap producer_stage e))
  producer_advances (written i w) e busy empty open_ =
      let fits : ProducerFits k n s (written i w) = producer_at inv e in
      let one_more : add_size w 1 ≡ suc s.write_idx = omega (arith, fits, inv.size_t) in
      (_, store_write i w e, omega (arith, ap producer_stage e, one_more, fits.2))
  producer_advances finished e busy empty open_ = absurd (busy refl)

  finds : (d : Bool) (r : ℕ) → r < s.write_idx → after_items (2 ^ k) d r s.write_idx ≡ ready d r
  unfolding after_items
  finds d r less = ground (arith, less)

  finds_none :
      (d : Bool) (r : ℕ)
      → r ≡ s.write_idx
      → after_items (2 ^ k) d r s.write_idx ≡ (if d then exited else refused)
  unfolding after_items
  finds_none d r same = ground (arith, same)

  -- The consumer waits for the producer.
  waits :
      (s.producer ≡ finished → s.done ≡ true)
      → s.read_idx ≡ s.write_idx
      → s.done ≡ false
      → Productive (2 ^ k) n s
  waits stops empty open_ = elim (finished_or_not s.producer) [
    | inl over ↦ absurd (cc (stops over, open_))
    | inr busy ↦ producer_advances s.producer refl busy empty open_
  ]

  asked_at_end :
      (d : Bool) (r : ℕ)
      → s.consumer ≡ asked d r
      → r ≡ s.write_idx
      → (s.producer ≡ finished → s.done ≡ true)
      → Productive (2 ^ k) n s
  asked_at_end true r e at_end stops = (
    _,
    load_written true r s.write_idx e inv.stale_write.1 (omega arith),
    omega (
      arith,
      ap (consumer_stage s.done) e,
      ap (consumer_stage s.done) (finds_none true r at_end),
    ),
  )
  asked_at_end false r e at_end stops = elim (Bool-cases s.done) [
    | inl set_ ↦ (
      _,
      load_written false r s.write_idx e inv.stale_write.1 (omega arith),
      omega (
        arith,
        ap (consumer_stage s.done) e,
        ap (consumer_stage s.done) (finds_none false r at_end),
        ap (λ o. consumer_stage o refused) set_,
      ),
    )
    | inr open_ ↦ waits stops (omega (arith, at_end, consumer_at inv e)) open_
  ]

  -- What the consumer does when it has loaded its own index.
  asked_advances :
      (d : Bool) (r : ℕ)
      → s.consumer ≡ asked d r
      → (s.producer ≡ finished → s.done ≡ true)
      → Productive (2 ^ k) n s
  asked_advances d r e stops = elim (dec_lt r s.write_idx) [
    | yes more ↦ (
      _,
      load_written d r s.write_idx e inv.stale_write.1 (omega arith),
      omega (
        arith,
        ap (consumer_stage s.done) e,
        ap (consumer_stage s.done) (finds d r more),
        ready_soon s.done d r,
      ),
    )
    | no last ↦ asked_at_end d r e (omega (arith, last, consumer_at inv e, inv.behind)) stops
  ]

  refused_advances :
      s.consumer ≡ refused → (s.producer ≡ finished → s.done ≡ true) → Productive (2 ^ k) n s
  refused_advances e stops = elim (Bool-cases s.done) [
    | inl set_ ↦ (
      _,
      done_set e set_,
      omega (arith, ap (consumer_stage s.done) e, ap (λ o. consumer_stage o refused) set_),
    )
    | inr open_ ↦ elim (dec_lt s.read_idx s.write_idx) [
      | yes more ↦ (
        _,
        done_unset e,
        omega (arith, ap (consumer_stage s.done) e, ap (λ o. consumer_stage o refused) open_),
      )
      | no none_left ↦ waits stops (omega (arith, none_left, inv.behind)) open_
    ]
  ]

  pub advances :
      (c : Consumer)
      → s.consumer ≡ c
      → c ≢ exited
      → (s.producer ≡ finished → s.done ≡ true)
      → Productive (2 ^ k) n s
  advances (polling d) e busy stops = (
    _,
    begin_pop d e,
    omega (arith, ap (consumer_stage s.done) e, asked_soon s.done d s.read_idx),
  )
  advances (asked d r) e busy stops = asked_advances d r e stops
  advances (ready d r) e busy stops =
      (_, read_item d r e, omega (arith, ap (consumer_stage s.done) e, copied_soon s.done d r _))
  advances (copied d r item) e busy stops =
      let fits : ConsumerFits k n s (copied d r item) = consumer_at inv e in
      let one_more : add_size r 1 ≡ suc s.read_idx =
        omega (arith, fits, inv.stale_write, inv.sent, inv.size_t) in
      (
        _,
        store_read d r item e,
        omega (
          arith,
          ap (consumer_stage s.done) e,
          polling_again s.done d r item,
          one_more,
          fits,
          inv.stale_write,
          inv.sent,
        ),
      )
  advances refused e busy stops = refused_advances e stops
  advances exited e busy stops = absurd (busy refl)
