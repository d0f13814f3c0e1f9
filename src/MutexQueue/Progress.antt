-- ===== src/MutexQueue/Progress.antt =====
-- How the work of bench_mutex comes to an end.
use kernel_net.Prelude.{
  ℕ, ◌+◌, ◌-◌, ◌*◌, ◌<◌, ◌≤◌, ◌≡◌, ◌≢◌, ◌⊎◌, refl, sym, ap, ◌∙◌, subst, [], ◌∷◌, ◌++◌, some, length,
  length-upto, length-append, arith, List-cases, inl, inr,
}
use kernel_net.MutexQueue.{
  try_push, front, try_pop, Consumer, testing, popping, counting, exited, System, after_test, Step,
  push, spin_full, test, pop, spin_empty, count, Reach,
}
use kernel_net.MutexQueue.Safety.{ConsumerFits, Inv, Reach-Inv}

-- The steps that a consumer still takes in its round of the loop.
abbrev pub stage : Consumer → ℕ
stage testing = 3
stage popping = 2
stage counting = 1
stage exited = 0

-- The steps still to come that are not spins.
abbrev pub work : ℕ → System → ℕ
work num s = (num - s.i) + (3 * (num - s.consumed) + stage s.consumer)

after_test-stage : (num consumed : ℕ) → stage (after_test num consumed) < 3
unfolding after_test
after_test-stage num consumed = ground arith

Step-work :
    {cap num : ℕ} {s t : System}
    → Inv cap num s
    → Step num s t
    → (s ≡ t) ⊎ (work num t < work num s)
Step-work inv (push m more e) = inr (omega (arith, more))
Step-work inv (spin_full more e) = inl refl
Step-work {num = num} {s} inv (test e) =
    inr (omega (arith, ap stage e, after_test-stage num s.consumed))
Step-work inv (pop p e found) = inr (omega (arith, ap stage e))
Step-work inv (spin_empty e found) = inl refl
Step-work {num = num} {s} inv (count e) =
    let (got, less) = subst (ConsumerFits num (length s.received) s.consumed) e inv.consumer in
    inr (omega (arith, ap stage e, less))

-- A step that lowers the work.
abbrev pub Productive : ℕ → System → Type 0
Productive num s = (t : System) × Step num s t × (work num t < work num s)

can_push :
    {cap num : ℕ} {s : System}
    → Inv cap num s
    → 1 ≤ cap
    → s.i < num
    → s.queue.q ≡ []
    → Productive num s
unfolding try_push
can_push {s = s} inv wide more empty =
    let fits : length s.queue.q < s.queue.capacity =
      omega (arith, ap length empty, wide, inv.fixed) in
    let stores : try_push s.i s.queue ≡ some (record s.queue { q = s.queue.q ++ s.i ∷ [] }) =
      ground (arith, fits) in
    (_, push (record s.queue { q = s.queue.q ++ s.i ∷ [] }) more stores, omega (arith, more))

-- A consumer that waits finds an item, or the producer has room.
pop_or_push :
    {cap num : ℕ} {s : System} → Inv cap num s → 1 ≤ cap → s.consumer ≡ popping → Productive num s
unfolding try_pop
pop_or_push {num = num} {s} inv wide e = elim (List-cases s.queue.q) [
  | inl empty ↦
      let (got, less) = subst (ConsumerFits num (length s.received) s.consumed) e inv.consumer in
      let sizes : length s.received + length s.queue.q ≡ s.i =
        sym (length-append s.received s.queue.q) ∙ ap length inv.in_order ∙ length-upto s.i in
      can_push inv wide (omega (arith, sizes, ap length empty, got, less)) empty
  | inr (x, xs, cons) ↦ (
    _,
    pop (record { item = x; rest = record s.queue { q = xs } }) e (ap (front s.queue) cons),
    omega (arith, ap stage e),
  )
]

advances :
    {cap num : ℕ} (s : System) (c : Consumer)
    → s.consumer ≡ c
    → Inv cap num s
    → 1 ≤ cap
    → c ≢ exited
    → Productive num s
advances {num = num} s testing e inv wide busy =
    (_, test e, omega (arith, ap stage e, after_test-stage num s.consumed))
advances s popping e inv wide busy = pop_or_push inv wide e
advances {num = num} s counting e inv wide busy =
    let (got, less) = subst (ConsumerFits num (length s.received) s.consumed) e inv.consumer in
    (_, count e, omega (arith, ap stage e, less))
advances s exited e inv wide busy = absurd (busy refl)

-- bench_mutex does not get stuck: in every reachable state, with a capacity of at least 1, in which
-- the consumer has not exited, some thread can take a step that lowers the work left.
pub can_advance :
    {cap num : ℕ} {s : System} → 1 ≤ cap → Reach cap num s → s.consumer ≢ exited → Productive num s
can_advance {s = s} wide reach busy = advances s s.consumer refl (Reach-Inv reach) wide busy

-- In every reachable state of bench_mutex, a step either is a spin, which changes nothing, or lowers
-- the work left.
pub spins_or_works :
    {cap num : ℕ} {s t : System}
    → Reach cap num s
    → Step num s t
    → (s ≡ t) ⊎ (work num t < work num s)
spins_or_works reach step = Step-work (Reach-Inv reach) step
