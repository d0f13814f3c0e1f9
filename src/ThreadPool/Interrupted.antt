-- ===== src/ThreadPool/Interrupted.antt =====
-- `stop` called by a signal handler that interrupts the network thread in `enqueue`: the signal handlers
-- of echo_server/flavors/epoll/main.cpp and echo_server/flavors/kqueue/main.cpp call `shutdown`, which
-- calls `stop`, on whatever thread the signal reaches.
use kernel_net.Prelude.{ℕ, ◌<◌, ◌≡◌, ◌≢◌, sym, ◌∙◌, Bool, true, false, arith}
use kernel_net.ThreadPool.{
  Worker, locking, asleep, waking, pushed, serving, stopped, System, after_predicate, decide, wake,
  Step, enter, quit, lock, check, park, spurious, relock, go_on, unlock, execute, call, push,
  release, notify_one, notify_none, stop, notify_all, join, Reach, next,
}
use kernel_net.ThreadPool.Invariant.{Inv}
use kernel_net.ThreadPool.Tasks.{Reach-Inv}
use kernel_net.ThreadPool.Shutdown.{decide_keeps}

-- Steps of the network thread, outside the handler.
abbrev pub of_producer : {A : Type 0} {n : ℕ} {s t : System A} → Step n s t → Bool
of_producer (call task e) = true
of_producer (push task e free) = true
of_producer (release e) = true
of_producer (notify_one i lt p e) = true
of_producer (notify_none p all) = true
of_producer _ = false

-- Until the handler returns, the thread that it interrupted takes no step.
pub data HandlerRun {A : Type 0} (n : ℕ) (s : System A) : System A → Type 0 where
  here : HandlerRun n s s
  later :
      {t u : System A}
      → HandlerRun n s t
      → (step : Step n t u) → of_producer step ≡ false
      → HandlerRun n s u

-- A worker that must lock the mutex before it does anything else.
abbrev pub needs_lock : {A : Type 0} → Worker A → Bool
needs_lock locking = true
needs_lock asleep = true
needs_lock waking = true
needs_lock _ = false

record IsHeld {A : Type 0} (i : ℕ) (s : System A) : Type 0 where
  inside : s.producer ≡ pushed
  waits : needs_lock (s.worker i) ≡ true
  unfinished : s.stopper ≢ stopped

module _ {A : Type 0} {n : ℕ} {s : System A} (inv : Inv n s) (j : ℕ) (bound : j < n)
    (held : IsHeld j s) where
  Step-inside :
      {t : System A} → (step : Step n s t) → of_producer step ≡ false → t.producer ≡ pushed
  unfolding decide
  Step-inside (enter i lt e r) q = held.inside
  Step-inside (quit i lt e r) q = held.inside
  Step-inside (lock i lt e free) q = held.inside
  Step-inside (check i lt e) q = held.inside
  Step-inside (park i lt e) q = held.inside
  Step-inside (spurious i lt e) q = held.inside
  Step-inside (relock i lt e free) q = held.inside
  Step-inside (go_on i lt e) q = ground (arith, held.inside)
  Step-inside (unlock i task lt e) q = held.inside
  Step-inside (execute i task lt e) q = held.inside
  Step-inside (call task e) q = cc
  Step-inside (push task e free) q = cc
  Step-inside (release e) q = cc
  Step-inside (notify_one i lt p e) q = cc
  Step-inside (notify_none p all) q = cc
  Step-inside (stop e) q = held.inside
  Step-inside (notify_all e) q = held.inside
  Step-inside (join e all) q = held.inside

  Step-waits :
      {t : System A}
      → (step : Step n s t) → of_producer step ≡ false
      → needs_lock (t.worker j) ≡ true
  unfolding decide wake after_predicate
  Step-waits (enter i lt e r) q = ground (arith, held.waits)
  Step-waits (quit i lt e r) q = ground (arith, held.waits)
  Step-waits (lock i lt e free) q =
      ground (arith, held.waits, held.inside, inv.owned i, inv.pushing)
  Step-waits (check i lt e) q = ground (arith, held.waits, held.inside, inv.owned i, inv.pushing)
  Step-waits (park i lt e) q = ground (arith, held.waits, held.inside, inv.owned i, inv.pushing)
  Step-waits (spurious i lt e) q = ground (arith, held.waits)
  Step-waits (relock i lt e free) q =
      ground (arith, held.waits, held.inside, inv.owned i, inv.pushing)
  Step-waits (go_on i lt e) q = ground (arith, held.waits, held.inside, inv.owned i, inv.pushing)
  Step-waits (unlock i task lt e) q =
      ground (arith, held.waits, held.inside, inv.owned i, inv.pushing)
  Step-waits (execute i task lt e) q = ground (arith, held.waits)
  Step-waits (call task e) q = cc
  Step-waits (push task e free) q = cc
  Step-waits (release e) q = cc
  Step-waits (notify_one i lt p e) q = cc
  Step-waits (notify_none p all) q = cc
  Step-waits (stop e) q = held.waits
  Step-waits (notify_all e) q = ground (arith, held.waits)
  Step-waits (join e all) q = held.waits

  Step-unfinished :
      {t : System A} → (step : Step n s t) → of_producer step ≡ false → t.stopper ≢ stopped
  unfolding decide
  Step-unfinished (enter i lt e r) q z = held.unfinished z
  Step-unfinished (quit i lt e r) q z = held.unfinished z
  Step-unfinished (lock i lt e free) q z = held.unfinished z
  Step-unfinished (check i lt e) q z = held.unfinished z
  Step-unfinished (park i lt e) q z = held.unfinished z
  Step-unfinished (spurious i lt e) q z = held.unfinished z
  Step-unfinished (relock i lt e free) q z = held.unfinished z
  Step-unfinished (go_on i lt e) q z =
      let (_, _, stopper, _) = decide_keeps i s in held.unfinished (sym stopper ∙ z)
  Step-unfinished (unlock i task lt e) q z = held.unfinished z
  Step-unfinished (execute i task lt e) q z = held.unfinished z
  Step-unfinished (call task e) q z = cc
  Step-unfinished (push task e free) q z = cc
  Step-unfinished (release e) q z = cc
  Step-unfinished (notify_one i lt p e) q z = cc
  Step-unfinished (notify_none p all) q z = cc
  Step-unfinished (stop e) q z = cc
  Step-unfinished (notify_all e) q z = cc
  Step-unfinished (join e all) q z = ground (arith, held.waits, all j bound)

HandlerRun-Reach : {A : Type 0} {n : ℕ} {s t : System A} → Reach n s → HandlerRun n s t → Reach n t
HandlerRun-Reach reach here = reach
HandlerRun-Reach reach (later run step q) = next (HandlerRun-Reach reach run) step

HandlerRun-IsHeld :
    {A : Type 0} {n : ℕ} {s t : System A} (j : ℕ)
    → j < n
    → Reach n s
    → IsHeld j s
    → HandlerRun n s t
    → IsHeld j t
HandlerRun-IsHeld j bound reach held here = held
HandlerRun-IsHeld j bound reach held (later run step q) =
    let before = HandlerRun-IsHeld j bound reach held run in
    let inv = Reach-Inv (HandlerRun-Reach reach run) in
    record {
      inside = Step-inside inv j bound before step q;
      waits = Step-waits inv j bound before step q;
      unfinished = Step-unfinished inv j bound before step q;
    }

-- When a signal interrupts the network thread in `enqueue` with the mutex held, while some worker
-- is about to lock it or asleep, and the handler calls `stop`: `stop` never returns, however the
-- workers go on and whatever wakes them.
pub handler_deadlocks :
    {A : Type 0} {n : ℕ} {s t : System A} (j : ℕ)
    → Reach n s
    → s.producer ≡ pushed
    → s.stopper ≡ serving
    → j < n
    → needs_lock (s.worker j) ≡ true
    → HandlerRun n s t
    → t.stopper ≢ stopped
handler_deadlocks j reach inside begins bound waits run =
    (HandlerRun-IsHeld j bound reach
      (record { inside = inside; waits = waits; unfinished = λ z. cc (begins, z) }) run).unfinished
