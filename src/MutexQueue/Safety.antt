-- ===== src/MutexQueue/Safety.antt =====
-- What bench_mutex has received and what its queue holds.
use kernel_net.Prelude.{
  ℕ, suc, ◌+◌, ◌<◌, ◌≤◌, ◌≡◌, refl, sym, ap, ◌∙◌, subst, [], ◌∷◌, ◌++◌, some, length, upto,
  length-upto, length-append, append_assoc, append-nil, arith, List-cases, inl, inr, dec_lt,
}
use kernel_net.MutexQueue.{
  MutexQueue, init, try_push, Popped, try_pop, Consumer, testing, popping, counting, exited, System,
  start, after_test, Step, push, spin_full, test, pop, spin_empty, count, Reach, begin, next,
}

abbrev pub ConsumerFits : ℕ → ℕ → ℕ → Consumer → Type 0
ConsumerFits num got consumed testing = got ≡ consumed
ConsumerFits num got consumed popping = (got ≡ consumed) × (consumed < num)
ConsumerFits num got consumed counting = (got ≡ suc consumed) × (consumed < num)
ConsumerFits num got consumed exited = (got ≡ consumed) × (num ≤ consumed)

pub record Inv (cap num : ℕ) (s : System) : Type 0 where
  pub in_order : s.received ++ s.queue.q ≡ upto s.i
  pub fixed : s.queue.capacity ≡ cap
  pub room : length s.queue.q ≤ cap
  pub sent : s.i ≤ num
  pub consumer : ConsumerFits num (length s.received) s.consumed s.consumer

-- What a push that succeeds does.
pub pushes :
    (item : ℕ) (m t : MutexQueue ℕ)
    → try_push item m ≡ some t
    → (length m.q < m.capacity) × (t.q ≡ m.q ++ item ∷ []) × (t.capacity ≡ m.capacity)
unfolding try_push
pushes item m t e = elim (dec_lt (length m.q) m.capacity) [
  | yes less ↦ (less, ground (arith, e), ground (arith, e))
  | no full ↦ absurd (ground (arith, e))
]

-- What a pop that succeeds does.
pub pops :
    (m : MutexQueue ℕ) (p : Popped ℕ)
    → try_pop m ≡ some p
    → (m.q ≡ p.item ∷ p.rest.q) × (p.rest.capacity ≡ m.capacity)
unfolding try_pop
pops m p e = elim (List-cases m.q) [
  | inl empty ↦ absurd (ground (arith, e))
  | inr (x, xs, cons) ↦ (ground (arith, e), ground (arith, e))
]

after_test-Fits :
    (num got consumed : ℕ)
    → got ≡ consumed
    → ConsumerFits num got consumed (after_test num consumed)
unfolding after_test
after_test-Fits num got consumed e = elim (dec_lt consumed num) [
  | yes less ↦
      let goes_on : popping ≡ after_test num consumed = ground arith in
      subst (ConsumerFits num got consumed) goes_on (e, less)
  | no over ↦
      let ends : exited ≡ after_test num consumed = ground arith in
      subst (ConsumerFits num got consumed) ends (e, omega arith)
]

Step-Inv : {cap num : ℕ} {s t : System} → Step num s t → Inv cap num s → Inv cap num t
Step-Inv {s = s} (push m more e) inv =
    let (less, stored, same) = pushes s.i s.queue m e in
    record {
      in_order =
          ap (λ q. s.received ++ q) stored
          ∙ sym (append_assoc s.received s.queue.q (s.i ∷ []))
          ∙ ap (λ q. q ++ s.i ∷ []) inv.in_order;
      fixed = same ∙ inv.fixed;
      room = omega (arith, less, inv.fixed, ap length stored, length-append s.queue.q (s.i ∷ []));
      sent = more;
      consumer = inv.consumer;
    }
Step-Inv (spin_full more e) inv = inv
Step-Inv {num = num} {s} (test e) inv = record {
  in_order = inv.in_order;
  fixed = inv.fixed;
  room = inv.room;
  sent = inv.sent;
  consumer =
      after_test-Fits num (length s.received) s.consumed
        (subst (ConsumerFits num (length s.received) s.consumed) e inv.consumer);
}
Step-Inv {num = num} {s} (pop p e found) inv =
    let (cons, same) = pops s.queue p found in
    let (got, less) = subst (ConsumerFits num (length s.received) s.consumed) e inv.consumer in
    record {
      in_order =
          append_assoc s.received (p.item ∷ []) p.rest.q
          ∙ ap (λ q. s.received ++ q) (sym cons)
          ∙ inv.in_order;
      fixed = same ∙ inv.fixed;
      room = omega (arith, inv.room, ap length cons);
      sent = inv.sent;
      consumer = (omega (arith, got, length-append s.received (p.item ∷ [])), less);
    }
Step-Inv (spin_empty e found) inv = inv
Step-Inv {num = num} {s} (count e) inv =
    let (got, less) = subst (ConsumerFits num (length s.received) s.consumed) e inv.consumer in
    record {
      in_order = inv.in_order;
      fixed = inv.fixed;
      room = inv.room;
      sent = inv.sent;
      consumer = got;
    }

pub Reach-Inv : {cap num : ℕ} {s : System} → Reach cap num s → Inv cap num s
unfolding start init
Reach-Inv begin = record {
  in_order = refl;
  fixed = refl;
  room = omega arith;
  sent = omega arith;
  consumer = refl;
}
Reach-Inv (next reach step) = Step-Inv step (Reach-Inv reach)

-- In every reachable state of bench_mutex the queue holds no more than its capacity, and what has
-- been received followed by what is queued is the messages sent so far, in order.
pub bounded_in_order :
    {cap num : ℕ} {s : System}
    → Reach cap num s
    → (length s.queue.q ≤ cap) × (s.received ++ s.queue.q ≡ upto s.i)
bounded_in_order reach = let inv = Reach-Inv reach in (inv.room, inv.in_order)

-- In every reachable state of bench_mutex, a consumer that has exited has received every message,
-- once each and in order.
pub consumer_received_all :
    {cap num : ℕ} {s : System} → Reach cap num s → s.consumer ≡ exited → s.received ≡ upto num
consumer_received_all {cap} {num} {s} reach e =
    let inv = Reach-Inv reach in
    let (got, all) = subst (ConsumerFits num (length s.received) s.consumed) e inv.consumer in
    let sizes : length s.received + length s.queue.q ≡ s.i =
      sym (length-append s.received s.queue.q) ∙ ap length inv.in_order ∙ length-upto s.i in
    elim (List-cases s.queue.q) [
      | inl empty ↦
          let every : s.i ≡ num = omega (arith, sizes, got, all, inv.sent) in
          sym (append-nil s.received)
          ∙ ap (λ q. s.received ++ q) (sym empty)
          ∙ inv.in_order
          ∙ ap upto every
      | inr (x, xs, cons) ↦ absurd (omega (arith, sizes, got, all, inv.sent, ap length cons))
    ]
