-- ===== src/ThreadPool/Mutex.antt =====
-- The holder of the mutex, step by step.
use kernel_net.Prelude.{ℕ, ◌≡◌, refl, true, some, arith}
use kernel_net.ThreadPool.{
  by_worker, by_producer, pushed, System, after_predicate, decide, wake, Step, enter, quit, lock,
  check, park, spurious, relock, go_on, unlock, execute, call, push, release, notify_one,
  notify_none, stop, notify_all, join,
}
use kernel_net.ThreadPool.Invariant.{locked, Inv}

module _ {A : Type 0} {n : ℕ} {s : System A} (inv : Inv n s) where
  pub Step-owned :
      {t : System A}
      → Step n s t
      → (j : ℕ) → locked (t.worker j) ≡ true
      → t.mtx ≡ some (by_worker j)
  unfolding after_predicate decide wake
  Step-owned (enter i lt e r) j h = ground (arith, inv.owned j)
  Step-owned (quit i lt e r) j h = ground (arith, inv.owned j)
  Step-owned (lock i lt e free) j h = ground (arith, inv.owned j)
  Step-owned (check i lt e) j h = ground (arith, inv.owned j, inv.owned i)
  Step-owned (park i lt e) j h = ground (arith, inv.owned j, inv.owned i)
  Step-owned (spurious i lt e) j h = ground (arith, inv.owned j)
  Step-owned (relock i lt e free) j h = ground (arith, inv.owned j)
  Step-owned (go_on i lt e) j h = ground (arith, inv.owned j, inv.owned i)
  Step-owned (unlock i task lt e) j h = ground (arith, inv.owned j, inv.owned i)
  Step-owned (execute i task lt e) j h = ground (arith, inv.owned j)
  Step-owned (call task e) j h = inv.owned j h
  Step-owned (push task e free) j h = ground (arith, inv.owned j)
  Step-owned (release e) j h = ground (arith, inv.owned j, inv.pushing)
  Step-owned (notify_one i lt p e) j h = ground (arith, inv.owned j)
  Step-owned (notify_none p all) j h = inv.owned j h
  Step-owned (stop e) j h = inv.owned j h
  Step-owned (notify_all e) j h = ground (arith, inv.owned j)
  Step-owned (join e all) j h = inv.owned j h

  pub Step-pushing : {t : System A} → Step n s t → t.producer ≡ pushed → t.mtx ≡ some by_producer
  unfolding decide
  Step-pushing (enter i lt e r) h = inv.pushing h
  Step-pushing (quit i lt e r) h = inv.pushing h
  Step-pushing (lock i lt e free) h = ground (arith, inv.pushing h)
  Step-pushing (check i lt e) h = inv.pushing h
  Step-pushing (park i lt e) h = ground (arith, inv.pushing h, inv.owned i)
  Step-pushing (spurious i lt e) h = inv.pushing h
  Step-pushing (relock i lt e free) h = ground (arith, inv.pushing h)
  Step-pushing (go_on i lt e) h = ground (arith, inv.pushing, inv.owned i)
  Step-pushing (unlock i task lt e) h = ground (arith, inv.pushing h, inv.owned i)
  Step-pushing (execute i task lt e) h = inv.pushing h
  Step-pushing (call task e) h = cc
  Step-pushing (push task e free) h = refl
  Step-pushing (release e) h = cc
  Step-pushing (notify_one i lt p e) h = cc
  Step-pushing (notify_none p all) h = cc
  Step-pushing (stop e) h = inv.pushing h
  Step-pushing (notify_all e) h = inv.pushing h
  Step-pushing (join e all) h = inv.pushing h
