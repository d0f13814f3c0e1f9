-- ===== src/ThreadPool/Joining.antt =====
-- `stop` in its joins, when no worker sleeps.
use kernel_net.Prelude.{
  ℕ, ◌+◌, ◌<◌, ◌≤◌, ◌≡◌, ◌≢◌, ◌⊎◌, inl, inr, refl, ap, subst, true, Option, none, some, arith,
}
use kernel_net.ThreadPool.{
  Holder, by_worker, by_producer, Worker, looping, locking, asleep, waking, executing, gone, broken,
  away, Stopper, serving, flagged, joining, stopped, System, quit, lock, relock, execute, join,
  Reach,
}
use kernel_net.ThreadPool.Invariant.{WorkerFits}
use kernel_net.ThreadPool.Tasks.{Reach-Inv}
use kernel_net.ThreadPool.Advance.{CanStep, gone_or_not, search, holder_steps}
use kernel_net.ThreadPool.Held.{HeldBy, Reach-Held}
use kernel_net.ThreadPool.Finishing.{
  attentive, joins_left, steps_left, Run, Finishing, ends, Run-Finishing,
}

module _ {A : Type 0} {n : ℕ} where
  -- A worker that has not returned goes on when the mutex is free.
  worker_steps :
      {s : System A} (f : Finishing n s) (i : ℕ)
      → i < n
      → s.mtx ≡ none
      → (w : Worker A) → s.worker i ≡ w
      → w ≢ gone
      → CanStep n s
  worker_steps f i lt free looping e other = (_, quit i lt e (ends f), refl)
  worker_steps f i lt free locking e other = (_, lock i lt e free, refl)
  worker_steps f i lt free waking e other = (_, relock i lt e free, refl)
  worker_steps f i lt free (executing task) e other = (_, execute i task lt e, refl)
  worker_steps f i lt free asleep e other = absurd (ground (arith, f.up i lt, e))
  worker_steps f i lt free gone e other = absurd (other refl)
  worker_steps {s} f i lt free broken e other =
      absurd (subst (WorkerFits s.running s.tasks) e (f.inv.worker_fits i))
  worker_steps f i lt free w e other = holder_steps i lt w e refl

  steps_on : {s : System A} → Finishing n s → s.stopper ≡ joining → CanStep n s
  steps_on {s} f at = by_mutex s.mtx refl
    where
      by_mutex : (m : Option Holder) → s.mtx ≡ m → CanStep n s
      by_mutex none free = elim (search gone gone_or_not n s.worker) [
        | inl all ↦ (_, join at all, refl)
        | inr (i, lt, other) ↦ worker_steps f i lt free (s.worker i) refl other
      ]
      by_mutex (some (by_worker i)) has =
          let (lt, at_it) = subst (HeldBy n s.worker s.producer) has f.held in
          holder_steps i lt (s.worker i) refl at_it
      by_mutex (some by_producer) has =
          absurd (cc (f.out, subst (HeldBy n s.worker s.producer) has f.held))

-- When `stop` joins the workers, none of which is asleep or about to sleep, and the network thread is
-- not in `enqueue` and does not call it again: `stop` returns. Every run, however the threads
-- interleave, has at most as many steps as are left, and where `stop` has not returned some thread
-- can take a step.
pub stop_returns :
    {A : Type 0} {n k : ℕ} {s t : System A}
    → Reach n s
    → s.stopper ≡ joining
    → s.producer ≡ away
    → ((i : ℕ) → i < n → attentive (s.worker i) ≡ true)
    → Run n s k t
    → (k + steps_left n t ≤ steps_left n s) × ((t.stopper ≡ stopped) ⊎ CanStep n t)
stop_returns {n} {s} {t} reach at out up run =
    let (g, bound) =
      Run-Finishing
        (record {
          inv = Reach-Inv reach;
          held = Reach-Held reach;
          out = out;
          up = up;
          ending = omega (arith, ap joins_left at);
        })
        run in
    (bound, by_stopper g t.stopper refl)
  where
    by_stopper :
        {A : Type 0} {n : ℕ} {t : System A}
        → Finishing n t
        → (p : Stopper) → t.stopper ≡ p
        → (t.stopper ≡ stopped) ⊎ CanStep n t
    by_stopper g stopped e = inl e
    by_stopper g joining e = inr (steps_on g e)
    by_stopper g serving e = absurd (omega (arith, g.ending, ap joins_left e))
    by_stopper g flagged e = absurd (omega (arith, g.ending, ap joins_left e))
