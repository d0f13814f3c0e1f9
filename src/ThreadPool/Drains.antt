-- ===== src/ThreadPool/Drains.antt =====
-- The pool at work, while nothing calls `enqueue` or `stop`.
use kernel_net.Prelude.{
  ℕ, suc, ◌+◌, ◌<◌, ◌≤◌, ◌≡◌, ◌⊎◌, inl, inr, refl, ap, subst, true, Option, none, some, [], arith,
  total-zero, List-cases,
}
use kernel_net.ThreadPool.{
  Holder, by_worker, by_producer, asleep, Producer, away, offering, pushed, notifying, serving,
  System, is_empty, Step, push, release, notify_one, Reach, next,
}
use kernel_net.ThreadPool.Invariant.{weigh, held}
use kernel_net.ThreadPool.Tasks.{Reach-Inv}
use kernel_net.ThreadPool.Advance.{is_ordinary, CanStep, asleep_or_not, search, holder_steps}
use kernel_net.ThreadPool.Held.{HeldBy, Reach-Held}
use kernel_net.ThreadPool.Wakeup.{Attended, alert, signals, no_lost_wakeup}
use kernel_net.ThreadPool.Safety.{executes_once}
use kernel_net.ThreadPool.Serving.{work_left, runs, Step-Lowers, awake_steps}

-- A run of `k` ordinary steps.
pub data Run {A : Type 0} (n : ℕ) (s : System A) : ℕ → System A → Type 0 where
  here : Run n s 0 s
  later :
      {k : ℕ} {t u : System A}
      → Run n s k t
      → (step : Step n t u) → is_ordinary step ≡ true
      → Run n s (suc k) u

-- Every worker sleeps, the queue is empty and no call of `enqueue` is under way.
abbrev pub IsIdle : {A : Type 0} → ℕ → System A → Type 0
IsIdle n s = (s.tasks ≡ []) × (s.producer ≡ away) × ((i : ℕ) → i < n → s.worker i ≡ asleep)

module _ {A : Type 0} {n : ℕ} {s : System A} (pos : 0 < n) (reach : Reach n s)
    (serves : s.stopper ≡ serving) where
  -- Nobody would look at a task.
  unattended : ((i : ℕ) → i < n → s.worker i ≡ asleep) → s.producer ≡ away → ¬ Attended n s
  unattended all out (inl to_come) = cc (ap signals out, to_come)
  unattended all out (inr (i, lt, up)) = cc (ap alert (all i lt), up)

  no_task_left : ((i : ℕ) → i < n → s.worker i ≡ asleep) → s.producer ≡ away → s.tasks ≡ []
  unfolding is_empty
  no_task_left all out = elim (List-cases s.tasks) [
    | inl none_left ↦ none_left
    | inr (task, rest, first) ↦ absurd (
        unattended all out
          (no_lost_wakeup pos reach (runs (Reach-Inv reach) serves) (ap is_empty first)))
  ]

  all_asleep :
      ((i : ℕ) → i < n → s.worker i ≡ asleep)
      → s.mtx ≡ none
      → (p : Producer A) → s.producer ≡ p
      → IsIdle n s ⊎ CanStep n s
  all_asleep all free away e = inl (no_task_left all e, e, all)
  all_asleep all free (offering task) e = inr (_, push task e free, refl)
  all_asleep all free pushed e = inr (_, release e, refl)
  all_asleep all free notifying e = inr (_, notify_one 0 pos e (all 0 pos), refl)

  by_mutex : (m : Option Holder) → s.mtx ≡ m → IsIdle n s ⊎ CanStep n s
  by_mutex none free = elim (search asleep asleep_or_not n s.worker) [
    | inl all ↦ all_asleep all free s.producer refl
    | inr (i, lt, up) ↦ inr (awake_steps (Reach-Inv reach) serves i lt free (s.worker i) refl up)
  ]
  by_mutex (some (by_worker i)) has =
      let (lt, at_it) = subst (HeldBy n s.worker s.producer) has (Reach-Held reach) in
      inr (holder_steps i lt (s.worker i) refl at_it)
  by_mutex (some by_producer) has =
      inr (_, release (subst (HeldBy n s.worker s.producer) has (Reach-Held reach)), refl)

  pub rests_or_steps : IsIdle n s ⊎ CanStep n s
  rests_or_steps = by_mutex s.mtx refl

  -- In an idle pool every task was executed.
  idle_executed : IsIdle n s → (weight : A → ℕ) → weigh weight s.enqueued ≡ weigh weight s.finished
  unfolding weigh
  idle_executed (none_left, out, all) weight = omega (
    arith,
    executes_once reach weight,
    total-zero (held weight) n s.worker (λ i lt. ap (held weight) (all i lt)),
    ap (weigh weight) none_left,
  )

-- A run ends in a reachable state, and takes no more steps than there is work left.
Run-bound :
    {A : Type 0} {n : ℕ} {s : System A} {k : ℕ} {t : System A}
    → Reach n s
    → s.stopper ≡ serving
    → Run n s k t
    → Reach n t × (t.stopper ≡ serving) × (k + work_left n t ≤ work_left n s)
Run-bound reach serves here = (reach, serves, omega arith)
Run-bound reach serves (later run step q) =
    let (there, on, bound) = Run-bound reach serves run in
    let (still, less) = Step-Lowers (Reach-Inv there) on step q in
    (next there step, still, omega (arith, bound, less))

-- While a pool with at least one worker serves, every task that was enqueued is executed once no new
-- call of `enqueue` begins, without any spurious wake-up: a run has at most as many steps as there is
-- work left, whatever the interleaving, and at its end either some thread can take a step, or all
-- workers sleep, the queue is empty, and under every weight of tasks those executed weigh as much as
-- those enqueued.
pub executes_all :
    {A : Type 0} {n k : ℕ} {s t : System A}
    → 0 < n
    → Reach n s
    → s.stopper ≡ serving
    → Run n s k t
    → (k + work_left n t ≤ work_left n s)
      × ((IsIdle n t × ((weight : A → ℕ) → weigh weight t.enqueued ≡ weigh weight t.finished))
          ⊎ CanStep n t)
executes_all {n} {t = t} pos reach serves run =
    let (there, on, bound) = Run-bound reach serves run in
    (
      bound,
      elim (rests_or_steps pos there on) [
        | inl idle ↦ inl (idle, idle_executed pos there on idle)
        | inr can ↦ inr can
      ],
    )
