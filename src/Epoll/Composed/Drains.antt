-- ===== src/Epoll/Composed/Drains.antt =====
-- The server and its pool at work, while no event comes and nothing calls `stop`.
use kernel_net.Prelude.{
  ℕ, suc, ◌+◌, ◌*◌, ◌<◌, ◌≤◌, ◌≡◌, ◌⊎◌, inl, inr, refl, sym, ap, ◌∙◌, true, false, Bool, [], ◌++◌,
  arith, length, List-cases, append-nil,
}
use kernel_net.Epoll.{Errors, Task, echo, close_client, close}
use kernel_net.Epoll.Pool.{execute}
use kernel_net.Epoll.Composed.{System, Reach, next, Step, event, call, perform, inside, Reach-pool}
use kernel_net.Epoll.Composed.Simulates.{offered}
use kernel_net.Epoll.Composed.Echoes.{received, echoed, echoes_in_order}
use kernel_net.ThreadPool
use kernel_net.ThreadPool.{serving, away, asleep}
use kernel_net.ThreadPool.Advance.{is_ordinary}
use kernel_net.ThreadPool.Drains.{IsIdle, rests_or_steps}
use kernel_net.ThreadPool.Hands.{in_hand}
use kernel_net.ThreadPool.Serving.{producer_rank, work_left, Step-Lowers}
use kernel_net.ThreadPool.Tasks.{Reach-Inv}

-- Neither an event nor a call of `stop` nor a spurious wake-up.
abbrev pub is_settling : {os : Errors} {n : ℕ} {s t : System} → Step os n s t → Bool
is_settling (event e calm seen unused idle done result) = false
is_settling (call task rest e idle) = true
is_settling (perform i task lt e) = true
is_settling (inside step q) = is_ordinary step

pub data Run (os : Errors) (n : ℕ) (s : System) : ℕ → System → Type 0 where
  here : Run os n s 0 s
  later :
      {m : ℕ} {t u : System}
      → Run os n s m t
      → (step : Step os n t u) → is_settling step ≡ true
      → Run os n s (suc m) u

-- A task that an event has left is still to be enqueued.
abbrev pub settling_work : ℕ → System → ℕ
settling_work n s = 14 * length s.net.tasks + work_left n s.pool

abbrev pub CanSettle : Errors → ℕ → System → Type 0
CanSettle os n s = (t : System) × (step : Step os n s t) × (is_settling step ≡ true)

-- Nothing is under way.
abbrev pub IsSettled : ℕ → System → Type 0
IsSettled n s = (s.net.tasks ≡ []) × IsIdle n s.pool

length-execute : (task : Task) (s : System) → length (execute task s.net).tasks ≡ length s.net.tasks
unfolding execute close
length-execute (echo fd buf) s = refl
length-execute (close_client fd) s = refl

module _ {os : Errors} {n listen_fd : ℕ} {s : System} (reach : Reach os n listen_fd s)
    (serves : s.pool.stopper ≡ serving) where
  settles :
      {t : System} (step : Step os n s t)
      → is_settling step ≡ true
      → (t.pool.stopper ≡ serving) × (settling_work n t < settling_work n s)
  settles (event e calm seen unused idle done result) q = absurd (ground arith)
  settles (call task rest e idle) q = (serves, omega (arith, ap length e, ap producer_rank idle))
  settles (perform i task lt e) q =
      let (on, less) =
        Step-Lowers (Reach-Inv (Reach-pool reach)) serves (ThreadPool.execute i task lt e) refl in
      (on, omega (arith, less, length-execute task s))
  settles (inside step i) q =
      let (on, less) = Step-Lowers (Reach-Inv (Reach-pool reach)) serves step q in
      (on, omega (arith, less))

  -- A step of the pool as one of the whole.
  lift :
      {p : ThreadPool.System Task} (step : ThreadPool.Step n s.pool p)
      → is_ordinary step ≡ true
      → CanSettle os n s
  lift (ThreadPool.execute i task lt e) q = (_, perform i task lt e, refl)
  lift (ThreadPool.call task e) q = absurd (ground arith)
  lift step q = (_, inside step refl, q)

  done_or_steps : 0 < n → IsSettled n s ⊎ CanSettle os n s
  done_or_steps pos = elim (rests_or_steps pos (Reach-pool reach) serves) [
    | inr (p, step, q) ↦ inr (lift step q)
    | inl idle ↦ elim (List-cases s.net.tasks) [
      | inl none_left ↦ inl (none_left, idle)
      | inr (task, rest, first) ↦ inr (_, call task rest first idle.1, refl)
    ]
  ]

module _ {os : Errors} {n listen_fd : ℕ} where
  -- The run with the steps that led to it.
  abbrev pub along :
      {s : System} {m : ℕ} {t : System}
      → Reach os n listen_fd s
      → Run os n s m t
      → Reach os n listen_fd t
  along reach here = reach
  along reach (later run step q) = next (along reach run) step

  Run-bound :
      {s : System} {m : ℕ} {t : System} (reach : Reach os n listen_fd s)
      → s.pool.stopper ≡ serving
      → (run : Run os n s m t)
      → (t.pool.stopper ≡ serving) × (m + settling_work n t ≤ settling_work n s)
  Run-bound reach serves here = (serves, omega arith)
  Run-bound reach serves (later run step q) =
      let (on, bound) = Run-bound reach serves run in
      let (still, less) = settles (along reach run) on step q in (still, omega (arith, bound, less))

  -- Nothing is read meanwhile.
  received-along :
      {s : System} {m : ℕ} {t : System} (k : ℕ) (reach : Reach os n listen_fd s)
      (run : Run os n s m t)
      → received (along reach run) k ≡ received reach k
  unfolding received
  received-along k reach here = refl
  received-along k reach (later run (event e calm seen unused idle done result) q) =
      absurd (ground arith)
  received-along k reach (later run (call task rest e idle) q) = received-along k reach run
  received-along k reach (later run (perform i task lt e) q) = received-along k reach run
  received-along k reach (later run (inside step i) q) = received-along k reach run

-- In a settled server with one worker, every byte read was echoed.
echoed_by_end :
    {os : Errors} {listen_fd : ℕ} {s : System} (k : ℕ) (reach : Reach os 1 listen_fd s)
    → IsSettled 1 s
    → received reach k ≡ echoed k s.pool.finished
echoed_by_end {s = s} k reach (handled, (queue, out, all)) =
    echoes_in_order k reach
    ∙ ap (echoed k) (
        ap
          (λ w.
            (((s.pool.finished ++ in_hand w) ++ s.pool.tasks) ++ offered s.pool.producer)
            ++ s.net.tasks)
          (all 0 (omega arith))
        ∙ ap (λ l. (((s.pool.finished ++ []) ++ l) ++ offered s.pool.producer) ++ s.net.tasks) queue
        ∙ ap (λ p. (((s.pool.finished ++ []) ++ []) ++ offered p) ++ s.net.tasks) out
        ∙ ap (λ l. (((s.pool.finished ++ []) ++ []) ++ []) ++ l) handled
        ∙ simp append-nil)

-- The epoll server with one worker echoes all that it reads. From any reachable state in which `stop`
-- was not called, without further events, EPOLLERR or spurious wake-ups, a run has at most as many steps
-- as there is work left, whatever the interleaving, and at its end either some thread can take a step,
-- or nothing is under way and the tasks executed have the bytes that were read from each descriptor,
-- in the same order, to write back to it.
pub echoes_all :
    {os : Errors} {listen_fd m : ℕ} {s t : System} (reach : Reach os 1 listen_fd s)
    → s.pool.stopper ≡ serving
    → (run : Run os 1 s m t)
    → (m + settling_work 1 t ≤ settling_work 1 s)
      × ((IsSettled 1 t × ((k : ℕ) → received reach k ≡ echoed k t.pool.finished))
          ⊎ CanSettle os 1 t)
echoes_all reach serves run =
    let (on, bound) = Run-bound reach serves run in
    (
      bound,
      elim (done_or_steps (along reach run) on (omega arith)) [
        | inl settled ↦ inl (
          settled,
          λ k. sym (received-along k reach run) ∙ echoed_by_end k (along reach run) settled,
        )
        | inr can ↦ inr can
      ],
    )
