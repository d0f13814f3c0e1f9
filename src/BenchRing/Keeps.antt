-- ===== src/BenchRing/Keeps.antt =====
-- The steps of `bench_ring` and the invariant.
use kernel_net.Prelude.{ℕ, ◌^◌, ◌≤◌, ◌<◌, ◌≡◌, refl, subst, arith, length-replicate, bit_and-size}
use kernel_net.BenchRing.{
  System, start, Step, load_write, load_read, store_item, store_write, finish, begin_pop,
  load_written, read_item, store_read, done_unset, done_set, Reach, begin, next,
}
use kernel_net.BenchRing.Invariant.{DoneFits, Inv}
use kernel_net.BenchRing.Stores.{
  producer_at, consumer_at, after_room-fits, after_items-fits, store_item-Inv, store_write-Inv,
  store_read-Inv,
}

start-Inv : (k n : ℕ) → k ≤ 63 → n < 2 ^ 64 → Inv k n (start (2 ^ k))
unfolding start
start-Inv k n small fits = record {
  ring_fits = record {
    small = small;
    size_t = fits;
    behind = omega arith;
    room = omega arith;
    sent = omega arith;
    storage = length-replicate (2 ^ k) 0;
    live = λ j below above. absurd (omega arith);
    in_order = refl;
  };
  stale_read = omega arith;
  stale_write = omega arith;
  producer_fits = refl;
  consumer_fits = tt;
  done_fits = tt;
}

-- Every step keeps the invariant.
pub Step-Inv : {k n : ℕ} {s t : System} → Inv k n s → Step (2 ^ k) n s t → Inv k n t
Step-Inv {s} inv (load_write i e more) = record {
  ring_fits = inv.ring_fits;
  stale_read = inv.stale_read;
  stale_write = inv.stale_write;
  producer_fits = omega (arith, producer_at inv e);
  consumer_fits = inv.consumer_fits;
  done_fits = inv.done_fits;
}
Step-Inv inv (load_read i w r e low high) = record {
  ring_fits = inv.ring_fits;
  stale_read = high;
  stale_write = inv.stale_write;
  producer_fits = after_room-fits inv i w r e high;
  consumer_fits = inv.consumer_fits;
  done_fits = inv.done_fits;
}
Step-Inv inv (store_item i w e) = store_item-Inv inv i w e
Step-Inv inv (store_write i w e) = store_write-Inv inv i w e
Step-Inv {n} {s} inv (finish i e last) = record {
  ring_fits = inv.ring_fits;
  stale_read = inv.stale_read;
  stale_write = inv.stale_write;
  producer_fits = all_sent;
  consumer_fits = inv.consumer_fits;
  done_fits = all_sent;
}
  where
    all_sent : s.write_idx ≡ n
    all_sent = omega (arith, producer_at inv e, inv.sent)
Step-Inv inv (begin_pop drain e) = record {
  ring_fits = inv.ring_fits;
  stale_read = inv.stale_read;
  stale_write = inv.stale_write;
  producer_fits = inv.producer_fits;
  consumer_fits = (refl, consumer_at inv e);
  done_fits = inv.done_fits;
}
Step-Inv inv (load_written drain r w e low high) = record {
  ring_fits = inv.ring_fits;
  stale_read = inv.stale_read;
  stale_write = (omega arith, high);
  producer_fits = inv.producer_fits;
  consumer_fits = after_items-fits inv drain r w e low high;
  done_fits = inv.done_fits;
}
Step-Inv {k} {s} inv (read_item drain r e) = record {
  ring_fits = inv.ring_fits;
  stale_read = inv.stale_read;
  stale_write = inv.stale_write;
  producer_fits = inv.producer_fits;
  consumer_fits =
      let fits = consumer_at inv e in
      (
        fits.0,
        fits.1,
        rw (bit_and-size k r inv.small) (inv.live r (omega arith) (omega arith)),
        fits.2,
      );
  done_fits = inv.done_fits;
}
Step-Inv inv (store_read drain r item e) = store_read-Inv inv drain r item e
Step-Inv inv (done_unset e) = record {
  ring_fits = inv.ring_fits;
  stale_read = inv.stale_read;
  stale_write = inv.stale_write;
  producer_fits = inv.producer_fits;
  consumer_fits = tt;
  done_fits = inv.done_fits;
}
Step-Inv {k} {n} {s} inv (done_set e seen) = record {
  ring_fits = inv.ring_fits;
  stale_read = inv.stale_read;
  stale_write = omega (arith, inv.ring_fits);
  producer_fits = inv.producer_fits;
  consumer_fits = (all_sent, all_sent);
  done_fits = inv.done_fits;
}
  where
    all_sent : s.write_idx ≡ n
    all_sent = subst (DoneFits k n s) seen inv.done_fits

-- So the invariant holds in every state of a run.
pub Reach-Inv : {k n : ℕ} {s : System} → k ≤ 63 → n < 2 ^ 64 → Reach (2 ^ k) n s → Inv k n s
Reach-Inv {k} {n} small fits begin = start-Inv k n small fits
Reach-Inv small fits (next reach step) = Step-Inv (Reach-Inv small fits reach) step
