-- ===== src/ThreadPool/Serving.antt =====
-- The work that a serving pool has left.
use kernel_net.Prelude.{
  ℕ, ◌+◌, ◌*◌, ◌<◌, ◌≡◌, ◌≢◌, refl, ap, ◌∙◌, subst, true, Bool, none, List, [], ◌∷◌, arith, update,
  total, total-update, length, length-append,
}
use kernel_net.ThreadPool.{
  Worker, looping, locking, checking, parking, asleep, waking, passed, holding, executing, gone,
  broken, Producer, away, offering, pushed, notifying, serving, System, after_predicate, Step,
  enter, quit, lock, check, park, spurious, relock, go_on, unlock, execute, call, push, release,
  notify_one, notify_none, stop, notify_all, join,
}
use kernel_net.ThreadPool.Invariant.{Inv, is_serving, WorkerFits}
use kernel_net.ThreadPool.Tasks.{decide_cases}
use kernel_net.ThreadPool.Advance.{is_ordinary, CanStep, holder_steps}

-- The steps that a worker takes at most before it sleeps, if it finds no task.
abbrev pub worker_rank : {A : Type 0} → Worker A → ℕ
worker_rank looping = 5
worker_rank locking = 4
worker_rank checking = 3
worker_rank parking = 1
worker_rank asleep = 0
worker_rank waking = 4
worker_rank passed = 2
worker_rank (holding _) = 7
worker_rank (executing _) = 6
worker_rank gone = 0
worker_rank broken = 0

-- The same for a call of `enqueue`, with what its task and its notification bring about.
abbrev pub producer_rank : {A : Type 0} → Producer A → ℕ
producer_rank away = 0
producer_rank (offering _) = 13
producer_rank pushed = 6
producer_rank notifying = 5

abbrev pub work_left : {A : Type 0} → ℕ → System A → ℕ
work_left n s = 6 * length s.tasks + (producer_rank s.producer + total worker_rank n s.worker)

after_predicate_rank :
    {A : Type 0} (running : Bool) (tasks : List A) → worker_rank (after_predicate running tasks) < 3
unfolding after_predicate
after_predicate_rank running tasks = ground arith

module _ {A : Type 0} {n : ℕ} {s : System A} (inv : Inv n s) (serves : s.stopper ≡ serving) where
  pub runs : s.running ≡ true
  runs = inv.flag ∙ ap is_serving serves

  abbrev Lowers : System A → Type 0
  Lowers t = (t.stopper ≡ serving) × (work_left n t < work_left n s)

  -- Worker `i` goes on to `w`, and the queue and the network thread are left alone.
  one_goes_on :
      (i : ℕ) (w : Worker A)
      → i < n
      → worker_rank w < worker_rank (s.worker i)
      → (s.stopper ≡ serving)
        × (6 * length s.tasks
              + (producer_rank s.producer + total worker_rank n (update s.worker i w))
            < work_left n s)
  one_goes_on i w lt less =
      (serves, omega (arith, less, total-update worker_rank n s.worker i w lt))

  pub Step-Lowers : {t : System A} (step : Step n s t) → is_ordinary step ≡ true → Lowers t
  Step-Lowers (enter i lt e r) q = one_goes_on i locking lt (omega (arith, ap worker_rank e))
  Step-Lowers (quit i lt e r) q = absurd (cc (runs, r))
  Step-Lowers (lock i lt e free) q = one_goes_on i checking lt (omega (arith, ap worker_rank e))
  Step-Lowers (check i lt e) q =
      one_goes_on i (after_predicate s.running s.tasks) lt
        (omega (arith, ap worker_rank e, after_predicate_rank s.running s.tasks))
  Step-Lowers (park i lt e) q = one_goes_on i asleep lt (omega (arith, ap worker_rank e))
  Step-Lowers (spurious i lt e) q = absurd (ground arith)
  Step-Lowers (relock i lt e free) q = one_goes_on i checking lt (omega (arith, ap worker_rank e))
  Step-Lowers (go_on i lt e) q =
      decide_cases inv Lowers i e (λ _. one_goes_on i gone lt (omega (arith, ap worker_rank e)))
        λ task rest first. (
          serves,
          omega (
            arith,
            ap length first,
            ap worker_rank e,
            total-update worker_rank n s.worker i (holding task) lt,
          ),
        )
  Step-Lowers (unlock i task lt e) q =
      one_goes_on i (executing task) lt (omega (arith, ap worker_rank e))
  Step-Lowers (execute i task lt e) q = one_goes_on i looping lt (omega (arith, ap worker_rank e))
  Step-Lowers (call task e) q = absurd (ground arith)
  Step-Lowers (push task e free) q =
      (serves, omega (arith, ap producer_rank e, length-append s.tasks (task ∷ [])))
  Step-Lowers (release e) q = (serves, omega (arith, ap producer_rank e))
  Step-Lowers (notify_one i lt p e) q = (
    serves,
    omega (
      arith,
      ap producer_rank p,
      ap worker_rank e,
      total-update worker_rank n s.worker i waking lt,
    ),
  )
  Step-Lowers (notify_none p all) q = (serves, omega (arith, ap producer_rank p))
  Step-Lowers (stop e) q = absurd (ground arith)
  Step-Lowers (notify_all e) q = absurd (cc (serves, e))
  Step-Lowers (join e all) q = absurd (cc (serves, e))

  -- A worker that is awake goes on when the mutex is free.
  pub awake_steps :
      (i : ℕ) → i < n → s.mtx ≡ none → (w : Worker A) → s.worker i ≡ w → w ≢ asleep → CanStep n s
  awake_steps i lt free looping e up = (_, enter i lt e runs, refl)
  awake_steps i lt free locking e up = (_, lock i lt e free, refl)
  awake_steps i lt free waking e up = (_, relock i lt e free, refl)
  awake_steps i lt free (executing task) e up = (_, execute i task lt e, refl)
  awake_steps i lt free asleep e up = absurd (up refl)
  awake_steps i lt free gone e up =
      absurd (cc (runs, subst (WorkerFits s.running s.tasks) e (inv.worker_fits i)))
  awake_steps i lt free broken e up =
      absurd (subst (WorkerFits s.running s.tasks) e (inv.worker_fits i))
  awake_steps i lt free w e up = holder_steps i lt w e refl
