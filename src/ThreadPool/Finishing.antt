-- ===== src/ThreadPool/Finishing.antt =====
-- The steps that are left when `stop` is in its joins and no worker sleeps.
use kernel_net.Prelude.{
  ℕ, suc, ◌+◌, ◌<◌, ◌≤◌, ◌≡◌, refl, ap, ◌∙◌, true, false, Bool, List, arith, update, total,
  total-update,
}
use kernel_net.ThreadPool.{
  Worker, looping, locking, checking, parking, asleep, waking, passed, holding, executing, gone,
  broken, away, Stopper, joining, stopped, System, after_predicate, Step, enter, quit, lock, check,
  park, spurious, relock, go_on, unlock, execute, call, push, release, notify_one, notify_none,
  stop, notify_all, join,
}
use kernel_net.ThreadPool.Invariant.{Inv, is_serving}
use kernel_net.ThreadPool.Tasks.{Step-Inv, decide_cases}
use kernel_net.ThreadPool.Held.{Held, Step-Held}

-- Neither asleep nor about to sleep.
abbrev pub attentive : {A : Type 0} → Worker A → Bool
attentive parking = false
attentive asleep = false
attentive _ = true

-- The steps that a worker takes at most before it returns, when `running_` is false.
abbrev pub rank : {A : Type 0} → Worker A → ℕ
rank looping = 1
rank locking = 6
rank checking = 5
rank parking = 8
rank asleep = 7
rank waking = 6
rank passed = 4
rank (holding _) = 3
rank (executing _) = 2
rank gone = 0
rank broken = 0

abbrev pub joins_left : Stopper → ℕ
joins_left stopped = 0
joins_left joining = 1
joins_left _ = 2

abbrev pub steps_left : {A : Type 0} → ℕ → System A → ℕ
steps_left n s = joins_left s.stopper + total rank n s.worker

abbrev pub is_call : {A : Type 0} {n : ℕ} {s t : System A} → Step n s t → Bool
is_call (call task e) = true
is_call _ = false

-- A run of `k` steps in which no call of `enqueue` begins.
pub data Run {A : Type 0} (n : ℕ) (s : System A) : ℕ → System A → Type 0 where
  here : Run n s 0 s
  later :
      {k : ℕ} {t u : System A}
      → Run n s k t
      → (step : Step n t u) → is_call step ≡ false
      → Run n s (suc k) u

pub record Finishing {A : Type 0} (n : ℕ) (s : System A) : Type 0 where
  pub inv : Inv n s
  pub held : Held n s
  pub out : s.producer ≡ away
  pub up : (i : ℕ) → i < n → attentive (s.worker i) ≡ true
  pub ending : joins_left s.stopper < 2

over : (p : Stopper) → joins_left p < 2 → is_serving p ≡ false
over p h = ground (arith, h)

passes :
    {A : Type 0} (running : Bool) (tasks : List A)
    → running ≡ false
    → after_predicate running tasks ≡ passed
unfolding after_predicate
passes running tasks h = ground (arith, h)

-- What a step comes to.
abbrev Lowers : {A : Type 0} → ℕ → System A → System A → Type 0
Lowers n s t =
    (t.producer ≡ away)
    × ((i : ℕ) → i < n → attentive (t.worker i) ≡ true)
    × (joins_left t.stopper < 2)
    × (steps_left n t < steps_left n s)

module _ {A : Type 0} {n : ℕ} where
  pub ends : {s : System A} → Finishing n s → s.running ≡ false
  ends {s} f = f.inv.flag ∙ over s.stopper f.ending

  one_attends :
      (f : ℕ → Worker A) (i : ℕ) (w : Worker A)
      → attentive w ≡ true
      → ((j : ℕ) → j < n → attentive (f j) ≡ true)
      → (j : ℕ) → j < n
      → attentive (update f i w j) ≡ true
  one_attends f i w up all j lt = ground (arith, up, all j lt)

  one_goes_on :
      {s : System A} (f : Finishing n s) (i : ℕ) (w : Worker A)
      → i < n
      → attentive w ≡ true
      → rank w < rank (s.worker i)
      → (s.producer ≡ away)
        × ((j : ℕ) → j < n → attentive (update s.worker i w j) ≡ true)
        × (joins_left s.stopper < 2)
        × (joins_left s.stopper + total rank n (update s.worker i w) < steps_left n s)
  one_goes_on {s} f i w lt up less = (
    f.out,
    one_attends s.worker i w up f.up,
    f.ending,
    omega (arith, less, total-update rank n s.worker i w lt),
  )

  Step-Lowers :
      {s t : System A} → Finishing n s → (step : Step n s t) → is_call step ≡ false → Lowers n s t
  Step-Lowers {s} f (enter i lt e r) q = absurd (cc (ends f, r))
  Step-Lowers {s} f (quit i lt e r) q = one_goes_on f i gone lt refl (omega (arith, ap rank e))
  Step-Lowers {s} f (lock i lt e free) q =
      one_goes_on f i checking lt refl (omega (arith, ap rank e))
  Step-Lowers {s} f (check i lt e) q =
      rw (passes s.running s.tasks (ends f))
        (one_goes_on f i passed lt refl (omega (arith, ap rank e)))
  Step-Lowers {s} f (park i lt e) q = absurd (ground (arith, f.up i lt, e))
  Step-Lowers {s} f (spurious i lt e) q = absurd (ground (arith, f.up i lt, e))
  Step-Lowers {s} f (relock i lt e free) q =
      one_goes_on f i checking lt refl (omega (arith, ap rank e))
  Step-Lowers {s} f (go_on i lt e) q =
      decide_cases f.inv (Lowers n s) i e
        (λ _. one_goes_on f i gone lt refl (omega (arith, ap rank e)))
        λ task rest first. one_goes_on f i (holding task) lt refl (omega (arith, ap rank e))
  Step-Lowers {s} f (unlock i task lt e) q =
      one_goes_on f i (executing task) lt refl (omega (arith, ap rank e))
  Step-Lowers {s} f (execute i task lt e) q =
      one_goes_on f i looping lt refl (omega (arith, ap rank e))
  Step-Lowers {s} f (call task e) q = absurd (ground arith)
  Step-Lowers {s} f (push task e free) q = absurd (ground (arith, f.out, e))
  Step-Lowers {s} f (release e) q = absurd (ground (arith, f.out, e))
  Step-Lowers {s} f (notify_one i lt p e) q = absurd (ground (arith, f.out, p))
  Step-Lowers {s} f (notify_none p all) q = absurd (ground (arith, f.out, p))
  Step-Lowers {s} f (stop e) q = absurd (omega (arith, f.ending, ap joins_left e))
  Step-Lowers {s} f (notify_all e) q = absurd (omega (arith, f.ending, ap joins_left e))
  Step-Lowers {s} f (join e all) q = (f.out, f.up, omega arith, omega (arith, ap joins_left e))

  Step-Finishing :
      {s t : System A} → Finishing n s → (step : Step n s t) → is_call step ≡ false → Finishing n t
  Step-Finishing f step q =
      let (out, up, ending, less) = Step-Lowers f step q in
      record {
        inv = Step-Inv f.inv step;
        held = Step-Held f.inv step f.held;
        out = out;
        up = up;
        ending = ending;
      }

  -- A run takes no more steps than are left.
  pub Run-Finishing :
      {s t : System A} {k : ℕ}
      → Finishing n s
      → Run n s k t
      → Finishing n t × (k + steps_left n t ≤ steps_left n s)
  Run-Finishing f here = (f, omega arith)
  Run-Finishing f (later run step q) =
      let (g, bound) = Run-Finishing f run in
      let (_, _, _, less) = Step-Lowers g step q in
      (Step-Finishing g step q, omega (arith, bound, less))
