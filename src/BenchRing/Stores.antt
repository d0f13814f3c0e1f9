-- ===== src/BenchRing/Stores.antt =====
-- What a store of `bench_ring` does to the invariant.
use kernel_net.Prelude.{
  upto, ℕ, suc, ◌+◌, ◌-◌, ◌%◌, ◌^◌, ◌≤◌, ◌<◌, ◌≡◌, ◌≢◌, sym, ap, ◌∙◌, subst, Bool, true, false, [],
  ◌∷◌, ◌++◌, arith, add_size, length-set, get_or, set, get_or-set_self, get_or-set_ne, bit_and-size,
  two-pow-bounds, mod-ne, dec_lt,
}
use kernel_net.Ring.{slot}
use kernel_net.BenchRing.{
  Producer, idle, loaded, cleared, written, finished, Consumer, polling, asked, ready, copied,
  refused, exited, System, after_room, after_items,
}
use kernel_net.BenchRing.Invariant.{Holds, ProducerFits, ConsumerFits, DoneFits, Inv}

module _ {k n : ℕ} {s : System} (inv : Inv k n s) where
  pub producer_at : {p : Producer} → s.producer ≡ p → ProducerFits k n s p
  producer_at e = subst (ProducerFits k n s) e inv.producer_fits

  pub consumer_at : {c : Consumer} → s.consumer ≡ c → ConsumerFits k n s c
  consumer_at e = subst (ConsumerFits k n s) e inv.consumer_fits

  pub after_room-fits :
      (i w r : ℕ)
      → s.producer ≡ loaded i w
      → r ≤ s.read_idx
      → ProducerFits k n s (after_room (2 ^ k) i w r)
  unfolding after_room
  after_room-fits i w r e h = ground (arith, producer_at e, two-pow-bounds k)

  pub after_items-fits :
      (drain : Bool) (r w : ℕ)
      → s.consumer ≡ asked drain r
      → s.seen_write ≤ w
      → w ≤ s.write_idx
      → ConsumerFits k n (record s { seen_write = w }) (after_items (2 ^ k) drain r w)
  unfolding after_items
  after_items-fits true r w e low high = ground (arith, consumer_at e)
  after_items-fits false r w e low high = ground (arith, consumer_at e)

  -- The other thread's facts survive a store of an index.
  consumer-store_write :
      (c : Consumer)
      → ConsumerFits k n s c
      → s.write_idx < n
      → (w : ℕ) → ConsumerFits k n (record s { ring = record s.ring { write_idx = w } }) c
  consumer-store_write (polling false) f more w = tt
  consumer-store_write (polling true) f more w = absurd (omega arith)
  consumer-store_write (asked false r) f more w = f
  consumer-store_write (asked true r) f more w = absurd (omega arith)
  consumer-store_write (ready false r) f more w = f
  consumer-store_write (ready true r) f more w = absurd (omega arith)
  consumer-store_write (copied false r v) f more w = f
  consumer-store_write (copied true r v) f more w = absurd (omega arith)
  consumer-store_write refused f more w = tt
  consumer-store_write exited f more w = absurd (omega arith)

  producer-store_read :
      (p : Producer)
      → ProducerFits k n s p
      → (r : ℕ) → s.read_idx ≤ r
      → ProducerFits k n (record s { ring = record s.ring { read_idx = r } }) p
  producer-store_read (idle i) f r h = f
  producer-store_read (loaded i w) f r h = f
  producer-store_read (cleared i w) f r h = (f.0, f.1, f.2, omega arith)
  producer-store_read (written i w) f r h = (f.0, f.1, f.2, omega arith, f.4)
  producer-store_read finished f r h = f

  -- The slot that the producer writes is none of those that hold items.
  live-store_item :
      (i w : ℕ)
      → s.producer ≡ cleared i w
      → (j : ℕ) → s.read_idx ≤ j
      → j < s.write_idx
      → get_or (set s.buffer (slot (2 ^ k) w) i) (j % 2 ^ k) 0 ≡ j
  live-store_item i w e j low high =
      get_or-set_ne s.buffer (slot (2 ^ k) w) (j % 2 ^ k) i 0 apart ∙ inv.live j low high
    where
      fits : ProducerFits k n s (cleared i w)
      fits = producer_at e

      split : j + (w - j) ≡ w
      split = omega (arith, fits)

      apart : slot (2 ^ k) w ≢ j % 2 ^ k
      apart =
          rw (bit_and-size k w inv.small, ← split)
            (mod-ne (2 ^ k) j (w - j) (omega (arith, fits)) (omega (arith, fits)))

  pub store_item-Inv :
      (i w : ℕ)
      → s.producer ≡ cleared i w
      → Inv k n (record s {
        ring = record s.ring { buffer = set s.buffer (slot (2 ^ k) w) i };
        producer = written i w;
      })
  store_item-Inv i w e = record {
    ring_fits = record {
      small = inv.small;
      size_t = inv.size_t;
      behind = inv.behind;
      room = inv.room;
      sent = inv.sent;
      storage = length-set s.buffer (slot (2 ^ k) w) i ∙ inv.storage;
      live = live-store_item i w e;
      in_order = inv.in_order;
    };
    stale_read = inv.stale_read;
    stale_write = inv.stale_write;
    producer_fits = (fits.0, fits.1, fits.2, fits.3, stored);
    consumer_fits = inv.consumer_fits;
    done_fits = inv.done_fits;
  }
    where
      fits : ProducerFits k n s (cleared i w)
      fits = producer_at e

      stored : get_or (set s.buffer (slot (2 ^ k) w) i) (w % 2 ^ k) 0 ≡ w
      stored = rw (bit_and-size k w inv.small) (
          get_or-set_self s.buffer (w % 2 ^ k) i 0
            (omega (arith, inv.storage, two-pow-bounds k inv.small))
          ∙ (fits.0 ∙ sym fits.1))

  done-store_write :
      (d : Bool)
      → DoneFits k n s d
      → s.write_idx < n
      → (w : ℕ) → DoneFits k n (record s { ring = record s.ring { write_idx = w } }) d
  done-store_write false f more w = tt
  done-store_write true f more w = absurd (omega arith)

  pub store_write-Inv :
      (i w : ℕ)
      → s.producer ≡ written i w
      → Inv k n
          (record s { ring = record s.ring { write_idx = add_size w 1 }; producer = idle (i + 1) })
  store_write-Inv i w e = record {
    ring_fits = record {
      small = inv.small;
      size_t = inv.size_t;
      behind = omega (arith, inv.ring_fits, fits);
      room = omega (arith, inv.ring_fits, fits);
      sent = omega (arith, inv.ring_fits, fits);
      storage = inv.storage;
      live = live;
      in_order = inv.in_order;
    };
    stale_read = inv.stale_read;
    stale_write = omega (arith, inv.ring_fits, fits);
    producer_fits = omega (arith, inv.ring_fits, fits);
    consumer_fits = consumer-store_write s.consumer inv.consumer_fits fits.2 (add_size w 1);
    done_fits = done_fits;
  }
    where
      fits : ProducerFits k n s (written i w)
      fits = producer_at e

      live : (j : ℕ) → s.read_idx ≤ j → j < add_size w 1 → Holds k s.ring j
      live j low high = elim (dec_lt j s.write_idx) [
        | yes old ↦ inv.live j low old
        | no new ↦
            let last : w ≡ j = omega (arith, inv.ring_fits, fits) in
            subst (Holds k s.ring) last fits.4
      ]

      done_fits :
          DoneFits k n (record s { ring = record s.ring { write_idx = add_size w 1 } }) s.done
      done_fits = done-store_write s.done inv.done_fits fits.2 (add_size w 1)

  pub store_read-Inv :
      (drain : Bool) (r item : ℕ)
      → s.consumer ≡ copied drain r item
      → Inv k n (record s {
        ring = record s.ring { read_idx = add_size r 1 };
        consumer = polling drain;
        received = s.received ++ item ∷ [];
      })
  store_read-Inv drain r item e = record {
    ring_fits = record {
      small = inv.small;
      size_t = inv.size_t;
      behind = omega (arith, inv.ring_fits, fits);
      room = omega (arith, inv.ring_fits, fits);
      sent = inv.sent;
      storage = inv.storage;
      live = λ j low high. inv.live j (omega (arith, inv.ring_fits, fits)) high;
      in_order = in_order;
    };
    stale_read = omega (arith, inv.ring_fits, fits);
    stale_write = omega (arith, inv.ring_fits, fits);
    producer_fits =
        producer-store_read s.producer inv.producer_fits (add_size r 1)
          (omega (arith, inv.ring_fits, fits));
    consumer_fits = fits.3;
    done_fits = inv.done_fits;
  }
    where
      fits : ConsumerFits k n s (copied drain r item)
      fits = consumer_at e

      one_more : add_size r 1 ≡ suc s.read_idx
      one_more = omega (arith, inv.ring_fits, fits)

      in_order : s.received ++ item ∷ [] ≡ upto (add_size r 1)
      in_order =
          rw (one_more, inv.in_order) (ap (λ v. upto s.read_idx ++ v ∷ []) (omega (arith, fits)))
