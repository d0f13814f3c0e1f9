-- ===== src/ThreadPool/Wakeup.antt =====
-- A task in the queue beside workers that sleep.
use kernel_net.Prelude.{
  ℕ, ◌<◌, ◌≡◌, ◌≢◌, ◌⊎◌, inl, inr, refl, subst, Bool, true, false, List, arith,
}
use kernel_net.ThreadPool.{
  Worker, looping, parking, asleep, gone, broken, Producer, pushed, notifying, System, is_empty,
  start, after_predicate, leaves, wake, Step, enter, quit, lock, check, park, spurious, relock,
  go_on, unlock, execute, call, push, release, notify_one, notify_none, stop, notify_all, join,
  Reach, begin, next,
}
use kernel_net.ThreadPool.Invariant.{WorkerFits, Inv}
use kernel_net.ThreadPool.Tasks.{Reach-Inv, decide_cases}

-- A worker that looks at the queue again before it sleeps.
abbrev pub alert : {A : Type 0} → Worker A → Bool
alert parking = false
alert asleep = false
alert gone = false
alert broken = false
alert _ = true

-- A call of `enqueue` that has pushed its task and will still notify.
abbrev pub signals : {A : Type 0} → Producer A → Bool
signals pushed = true
signals notifying = true
signals _ = false

abbrev pub Attended : {A : Type 0} → ℕ → System A → Type 0
Attended n s = (signals s.producer ≡ true) ⊎ ((i : ℕ) × (i < n) × (alert (s.worker i) ≡ true))

alert_of :
    {A : Type 0} (tasks : List A) (w : Worker A)
    → WorkerFits true tasks w
    → is_empty tasks ≡ false
    → w ≢ asleep
    → alert w ≡ true
unfolding is_empty
alert_of tasks parking fits some_left up = absurd (ground arith)
alert_of tasks asleep fits some_left up = absurd (up refl)
alert_of tasks gone fits some_left up = cc
alert_of tasks looping fits some_left up = refl
alert_of tasks broken fits some_left up = absurd fits
alert_of tasks _ fits some_left up = refl

module _ {A : Type 0} {n : ℕ} {s : System A} (inv : Inv n s) where
  Step-Attended :
      {t : System A}
      → 0 < n
      → Step n s t
      → (s.running ≡ true → is_empty s.tasks ≡ false → Attended n s)
      → t.running ≡ true
      → is_empty t.tasks ≡ false
      → Attended n t
  unfolding after_predicate is_empty leaves wake
  Step-Attended pos (enter i lt e r) before on some_left = inr (i, lt, ground arith)
  Step-Attended pos (quit i lt e r) before on some_left = cc
  Step-Attended pos (lock i lt e free) before on some_left = inr (i, lt, ground arith)
  Step-Attended pos (check i lt e) before on some_left = inr (i, lt, ground arith)
  Step-Attended pos (park i lt e) before on some_left = absurd (ground (arith, inv.worker_fits i))
  Step-Attended pos (spurious i lt e) before on some_left = inr (i, lt, ground arith)
  Step-Attended pos (relock i lt e free) before on some_left = inr (i, lt, ground arith)
  Step-Attended pos (go_on i lt e) before on some_left =
      decide_cases inv (λ t. t.running ≡ true → is_empty t.tasks ≡ false → Attended n t) i e
        (λ left r f. absurd (ground arith)) (λ task rest first r f. inr (i, lt, ground arith)) on
        some_left
  Step-Attended pos (unlock i task lt e) before on some_left = inr (i, lt, ground arith)
  Step-Attended pos (execute i task lt e) before on some_left = inr (i, lt, ground arith)
  Step-Attended pos (call task e) before on some_left = ground (arith, before on some_left)
  Step-Attended pos (push task e free) before on some_left = inl refl
  Step-Attended pos (release e) before on some_left = inl refl
  Step-Attended pos (notify_one i lt p e) before on some_left = inr (i, lt, ground arith)
  Step-Attended pos (notify_none p all) before on some_left = inr (
    0,
    pos,
    alert_of s.tasks (s.worker 0)
        (subst (λ r. WorkerFits r s.tasks (s.worker 0)) on (inv.worker_fits 0)) some_left
        (all 0 pos),
  )
  Step-Attended pos (stop e) before on some_left = cc
  Step-Attended pos (notify_all e) before on some_left = absurd (ground (arith, inv.flag))
  Step-Attended pos (join e all) before on some_left = before on some_left

-- As long as the pool is running, a task in the queue is attended to: the call of `enqueue` that
-- brought it has still to notify, or some worker will look at the queue before it sleeps.
pub no_lost_wakeup :
    {A : Type 0} {n : ℕ} {s : System A}
    → 0 < n
    → Reach n s
    → s.running ≡ true
    → is_empty s.tasks ≡ false
    → Attended n s
unfolding start is_empty
no_lost_wakeup pos begin on some_left = cc
no_lost_wakeup pos (next reach step) on some_left =
    Step-Attended (Reach-Inv reach) pos step (no_lost_wakeup pos reach) on some_left
