-- ===== src/ThreadPool/Held.antt =====
-- A mutex that is locked is held by a thread that goes on to release it.
use kernel_net.Prelude.{ℕ, ◌<◌, ◌≡◌, refl, true, Option, none, some, arith, update}
use kernel_net.ThreadPool.{
  Holder, by_worker, by_producer, Worker, Producer, pushed, System, start, after_predicate, wake,
  Step, enter, quit, lock, check, park, spurious, relock, go_on, unlock, execute, call, push,
  release, notify_one, notify_none, stop, notify_all, join, Reach, begin, next,
}
use kernel_net.ThreadPool.Invariant.{locked, Inv}
use kernel_net.ThreadPool.Tasks.{Reach-Inv, decide_cases}

module _ {A : Type 0} where
  abbrev pub HeldBy : ℕ → (ℕ → Worker A) → Producer A → Option Holder → Type 0
  HeldBy n worker producer none = Unit
  HeldBy n worker producer (some (by_worker i)) = (i < n) × (locked (worker i) ≡ true)
  HeldBy n worker producer (some by_producer) = producer ≡ pushed

  abbrev pub Held : ℕ → System A → Type 0
  Held n s = HeldBy n s.worker s.producer s.mtx

  -- A worker moves on, and has the mutex if it had it.
  one_moves :
      (n : ℕ) (f : ℕ → Worker A) (i : ℕ) (w : Worker A) (p : Producer A) (mtx : Option Holder)
      → (locked (f i) ≡ true → locked w ≡ true)
      → HeldBy n f p mtx
      → HeldBy n (update f i w) p mtx
  one_moves n f i w p none still h = tt
  one_moves n f i w p (some (by_worker j)) still (lt, h) = (lt, ground (arith, h, still))
  one_moves n f i w p (some by_producer) still h = h

  -- The network thread moves on without the mutex.
  producer_moves :
      (n : ℕ) (f : ℕ → Worker A) (p q : Producer A) (mtx : Option Holder)
      → (p ≡ pushed → q ≡ pushed)
      → HeldBy n f p mtx
      → HeldBy n f q mtx
  producer_moves n f p q none still h = tt
  producer_moves n f p q (some (by_worker j)) still h = h
  producer_moves n f p q (some by_producer) still h = still h

  all_woken :
      (n : ℕ) (f : ℕ → Worker A) (p : Producer A) (mtx : Option Holder)
      → HeldBy n f p mtx
      → HeldBy n (λ i. wake (f i)) p mtx
  unfolding wake
  all_woken n f p none h = tt
  all_woken n f p (some (by_worker j)) (lt, h) = (lt, ground (arith, h))
  all_woken n f p (some by_producer) h = h

  pub Step-Held : {n : ℕ} {s t : System A} → Inv n s → Step n s t → Held n s → Held n t
  unfolding after_predicate
  Step-Held {n} {s} inv (enter i lt e r) h =
      one_moves n s.worker i _ s.producer s.mtx (λ l. ground (arith, l, e)) h
  Step-Held {n} {s} inv (quit i lt e r) h =
      one_moves n s.worker i _ s.producer s.mtx (λ l. ground (arith, l, e)) h
  Step-Held inv (lock i lt e free) h = (lt, ground arith)
  Step-Held {n} {s} inv (check i lt e) h =
      one_moves n s.worker i _ s.producer s.mtx (λ l. ground arith) h
  Step-Held inv (park i lt e) h = tt
  Step-Held {n} {s} inv (spurious i lt e) h =
      one_moves n s.worker i _ s.producer s.mtx (λ l. ground (arith, l, e)) h
  Step-Held inv (relock i lt e free) h = (lt, ground arith)
  Step-Held {n} {s} inv (go_on i lt e) h =
      decide_cases inv (Held n) i e (λ _. tt)
        λ task rest first. one_moves n s.worker i _ s.producer s.mtx (λ l. refl) h
  Step-Held inv (unlock i task lt e) h = tt
  Step-Held {n} {s} inv (execute i task lt e) h =
      one_moves n s.worker i _ s.producer s.mtx (λ l. ground (arith, l, e)) h
  Step-Held {n} {s} inv (call task e) h = producer_moves n s.worker s.producer _ s.mtx (λ l. cc) h
  Step-Held inv (push task e free) h = refl
  Step-Held inv (release e) h = tt
  Step-Held {n} {s} inv (notify_one i lt p e) h =
      producer_moves n _ s.producer _ s.mtx (λ l. cc)
        (one_moves n s.worker i _ s.producer s.mtx (λ l. ground (arith, l, e)) h)
  Step-Held {n} {s} inv (notify_none p all) h =
      producer_moves n s.worker s.producer _ s.mtx (λ l. cc) h
  Step-Held inv (stop e) h = h
  Step-Held {n} {s} inv (notify_all e) h = all_woken n s.worker s.producer s.mtx h
  Step-Held inv (join e all) h = h

  pub Reach-Held : {n : ℕ} {s : System A} → Reach n s → Held n s
  unfolding start
  Reach-Held begin = tt
  Reach-Held (next reach step) = Step-Held (Reach-Inv reach) step (Reach-Held reach)
