-- ===== src/ThreadPool/Shutdown.antt =====
-- `stop` beside a worker that is about to sleep.
use kernel_net.Prelude.{
  Bool-cases, List-cases, ap, sym, inl, inr, ℕ, ◌<◌, ◌≡◌, ◌≢◌, refl, ℕ_discrete, update_ne, ◌∙◌,
  Bool, true, false, suc, arith, update,
}
use kernel_net.ThreadPool.{
  Worker, asleep, passed, holding, gone, broken, away, joining, System, start, after_predicate,
  leaves, dequeue, decide, wake, Step, enter, quit, lock, check, park, spurious, relock, go_on,
  unlock, execute, call, push, release, notify_one, notify_none, stop, notify_all, join, Reach,
  begin, next,
}

-- A step that neither starts a call of `enqueue` nor is a spurious wake-up.
abbrev pub quiet : {A : Type 0} {n : ℕ} {s t : System A} → Step n s t → Bool
quiet (spurious i lt e) = false
quiet (call task e) = false
quiet _ = true

pub data QuietRun {A : Type 0} (n : ℕ) (s : System A) : System A → Type 0 where
  here : QuietRun n s s
  later :
      {t u : System A} → QuietRun n s t → (step : Step n t u) → quiet step ≡ true → QuietRun n s u

-- A sleeper that `notify_all` has missed.
record IsStuck {A : Type 0} (s : System A) : Type 0 where
  missed : s.worker 0 ≡ asleep
  waits : s.stopper ≡ joining
  alone : s.producer ≡ away

-- A step of a worker that is awake leaves the sleeper alone.
sleeps_on :
    {A : Type 0} (f : ℕ → Worker A) (i : ℕ) (w p : Worker A)
    → f i ≡ w
    → w ≢ asleep
    → f 0 ≡ asleep
    → update f i p 0 ≡ asleep
sleeps_on f i w p e up down = update_ne f i 0 p (λ z. up (sym e ∙ ap f z ∙ down)) ∙ down

-- What `decide` leaves alone.
pub decide_keeps :
    {A : Type 0} (i : ℕ) (s : System A)
    → (w : Worker A) × ((decide i s).worker ≡ update s.worker i w)
      × ((decide i s).stopper ≡ s.stopper)
      × ((decide i s).producer ≡ s.producer)
unfolding decide
decide_keeps i s = elim (Bool-cases (leaves s.running s.tasks)) [
  | inl go ↦ (gone, rw (go, decide), rw (go, decide), rw (go, decide))
  | inr stay ↦ elim (List-cases s.tasks) [
    | inl none_left ↦ (
      broken,
      rw (stay, decide) (rw (none_left, dequeue)),
      rw (stay, decide) (rw (none_left, dequeue)),
      rw (stay, decide) (rw (none_left, dequeue)),
    )
    | inr (task, rest, first) ↦ (
      holding task,
      rw (stay, decide) (rw (first, dequeue)),
      rw (stay, decide) (rw (first, dequeue)),
      rw (stay, decide) (rw (first, dequeue)),
    )
  ]
]

Step-IsStuck :
    {A : Type 0} {n : ℕ} {s t : System A}
    → 0 < n
    → (step : Step n s t) → quiet step ≡ true
    → IsStuck s
    → IsStuck t
Step-IsStuck {s} pos (enter i lt e r) q stuck = record {
  missed = sleeps_on s.worker i _ _ e (λ z. cc) stuck.missed;
  waits = stuck.waits;
  alone = stuck.alone;
}
Step-IsStuck {s} pos (quit i lt e r) q stuck = record {
  missed = sleeps_on s.worker i _ _ e (λ z. cc) stuck.missed;
  waits = stuck.waits;
  alone = stuck.alone;
}
Step-IsStuck {s} pos (lock i lt e free) q stuck = record {
  missed = sleeps_on s.worker i _ _ e (λ z. cc) stuck.missed;
  waits = stuck.waits;
  alone = stuck.alone;
}
Step-IsStuck {s} pos (check i lt e) q stuck = record {
  missed = sleeps_on s.worker i _ _ e (λ z. cc) stuck.missed;
  waits = stuck.waits;
  alone = stuck.alone;
}
Step-IsStuck {s} pos (park i lt e) q stuck = record {
  missed = sleeps_on s.worker i _ _ e (λ z. cc) stuck.missed;
  waits = stuck.waits;
  alone = stuck.alone;
}
Step-IsStuck {s} pos (relock i lt e free) q stuck = record {
  missed = sleeps_on s.worker i _ _ e (λ z. cc) stuck.missed;
  waits = stuck.waits;
  alone = stuck.alone;
}
Step-IsStuck {s} pos (unlock i task lt e) q stuck = record {
  missed = sleeps_on s.worker i _ _ e (λ z. cc) stuck.missed;
  waits = stuck.waits;
  alone = stuck.alone;
}
Step-IsStuck {s} pos (execute i task lt e) q stuck = record {
  missed = sleeps_on s.worker i _ _ e (λ z. cc) stuck.missed;
  waits = stuck.waits;
  alone = stuck.alone;
}
Step-IsStuck {s} pos (go_on i lt e) q stuck =
    let (w, worker, stopper, producer) = decide_keeps i s in
    record {
      missed = ap (λ f. f 0) worker ∙ sleeps_on s.worker i passed w e (λ z. cc) stuck.missed;
      waits = stopper ∙ stuck.waits;
      alone = producer ∙ stuck.alone;
    }
Step-IsStuck pos (spurious i lt e) q stuck = cc
Step-IsStuck pos (call task e) q stuck = cc
Step-IsStuck pos (push task e free) q stuck = cc (stuck.alone)
Step-IsStuck pos (release e) q stuck = cc (stuck.alone)
Step-IsStuck pos (notify_one i lt p e) q stuck = cc (stuck.alone)
Step-IsStuck pos (notify_none p all) q stuck = cc (stuck.alone)
Step-IsStuck pos (stop e) q stuck = cc (stuck.waits)
Step-IsStuck pos (notify_all e) q stuck = cc (stuck.waits)
Step-IsStuck pos (join e all) q stuck = let left = all 0 pos in absurd (clash left stuck.missed)
  where
    clash : {A : Type 0} {w : Worker A} → w ≡ gone → w ≡ asleep → ⊥
    clash p q = cc

QuietRun-IsStuck :
    {A : Type 0} {n : ℕ} {s t : System A} → 0 < n → IsStuck s → QuietRun n s t → IsStuck t
QuietRun-IsStuck pos stuck here = stuck
QuietRun-IsStuck pos stuck (later run step q) =
    Step-IsStuck pos step q (QuietRun-IsStuck pos stuck run)

-- Worker 0 finds the queue empty and the pool running; `stop` sets the flag, without the mutex,
-- and notifies; only then does the worker go to sleep.
abbrev pub missed_notify : {A : Type 0} (n : ℕ) → (s : System A) × Reach (suc n) s
unfolding start after_predicate wake ℕ_discrete
missed_notify n = (
  _,
  next
      (next
        (next
          (next (next (next begin (enter 0 first refl refl)) (lock 0 first refl refl))
            (check 0 first refl))
          (stop refl))
        (notify_all refl))
      (park 0 first refl),
)
  where
    first : 0 < suc n
    first = omega arith

-- `stop` may hang: with any number of workers there is a run after which, unless `enqueue` is
-- called again or the wait ends spuriously, `stop` stays in its joins for good.
pub stop_may_hang :
    {A : Type 0} (n : ℕ) {t : System A}
    → QuietRun (suc n) (missed_notify n).0 t
    → (t.stopper ≡ joining) × (t.worker 0 ≡ asleep)
unfolding start after_predicate wake ℕ_discrete
stop_may_hang n run =
    let stuck =
      QuietRun-IsStuck (omega arith) (record { missed = refl; waits = refl; alone = refl }) run in
    (stuck.waits, stuck.missed)
