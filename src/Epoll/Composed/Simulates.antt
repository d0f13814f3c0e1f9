-- ===== src/Epoll/Composed/Simulates.antt =====
-- The steps of the server with its thread pool are steps of the server with a queue.
use kernel_net.Prelude.{
  ℕ, ◌<◌, ◌≡◌, refl, sym, ap, ◌∙◌, subst, Bool, true, List, [], ◌∷◌, ◌++◌, append_assoc, append-nil,
  update, length, length-append, arith,
}
use kernel_net.Epoll.{Errors, Task}
use kernel_net.Epoll.Pool
use kernel_net.Epoll.Pool.{execute}
use kernel_net.Epoll.Behind.{
  behind, option_behind, Unused-behind, execute-behind, handle_event-behind,
}
use kernel_net.ThreadPool.Hands.{
  in_hand, collect, collect_congr, collect-nothing, split, length-collect,
}
use kernel_net.Epoll.Composed.{
  System, fresh, internal, event, call, perform, inside, Reach, begin, next, Reach-pool,
}
use kernel_net.ThreadPool
use kernel_net.ThreadPool.{
  Worker, Producer, away, offering, pushed, gone, passed, holding, after_predicate, wake,
}
use kernel_net.ThreadPool.Invariant.{Inv}
use kernel_net.ThreadPool.Tasks.{Reach-Inv, decide_cases}

-- What `enqueue` has still to put into the queue.
abbrev pub offered : Producer Task → List Task
offered (offering task) = task ∷ []
offered _ = []

-- The queue with what is on its way there.
abbrev pub older : ThreadPool.System Task → List Task
older p = p.tasks ++ offered p.producer

-- What a composed state is for the abstract server.
abbrev pub view : ℕ → System → Pool.System
view n s = record { server = behind (older s.pool) s.net; hands = collect n s.pool.worker }

idle_after : (running : Bool) (tasks : List Task) → in_hand (after_predicate running tasks) ≡ []
unfolding after_predicate
idle_after running tasks = ground arith

idle_wake : (w : Worker Task) → in_hand (wake w) ≡ in_hand w
unfolding wake
idle_wake w = ground arith

-- A task moves from the event that left it to the call of `enqueue`.
pub moves :
    (ts : List Task) (task : Task) (rest : List Task)
    → (ts ++ []) ++ task ∷ rest ≡ (ts ++ task ∷ []) ++ rest
moves ts task rest =
    ap (λ l. l ++ task ∷ rest) (append-nil ts) ∙ sym (append_assoc ts (task ∷ []) rest)

-- A worker goes on without a task, or with the one that it has.
collect-same :
    (n : ℕ) (f : ℕ → Worker Task) (i : ℕ) (w : Worker Task)
    → i < n
    → in_hand w ≡ in_hand (f i)
    → collect n (update f i w) ≡ collect n f
collect-same n f i w lt same =
    let parts = split n f i lt in
    parts.then w ∙ ap (λ l. parts.before ++ (l ++ parts.after)) same ∙ sym parts.now

module _ (os : Errors) (n listen_fd : ℕ) where
  abbrev Seen : System → Type 0
  Seen s = Pool.Reach os n listen_fd (view n s)

  -- A step that changes neither the queue nor the hands.
  stutter :
      (s : System) {queue hands : List Task}
      → queue ≡ older s.pool
      → hands ≡ collect n s.pool.worker
      → Seen s
      → Pool.Reach os n listen_fd
          (record { server = record s.net { tasks = queue ++ s.net.tasks }; hands = hands })
  stutter s same_queue same_hands seen = rw (same_queue, same_hands) seen

  takes :
      (s : System) (i : ℕ) (task : Task) (rest : List Task)
      → i < n
      → s.pool.worker i ≡ passed
      → s.pool.tasks ≡ task ∷ rest
      → Seen s
      → Seen (record s {
        pool = record s.pool {
          tasks = rest;
          worker = update s.pool.worker i (holding task);
          dequeued = s.pool.dequeued ++ task ∷ [];
        };
      })
  takes s i task rest lt at_i first seen =
      let parts = split n s.pool.worker i lt in
      let then = parts.then (holding task) in
      let Q : List Task → List Task = λ l. (l ++ offered s.pool.producer) ++ s.net.tasks in
      subst
        (λ hands.
          Pool.Reach os n listen_fd
            (record { server = record s.net { tasks = Q rest }; hands = hands }))
        (sym then)
        (Pool.next seen (
          Pool.take_task task (Q rest) parts.before parts.after (ap Q first)
            (parts.now ∙ ap (λ w. parts.before ++ (in_hand w ++ parts.after)) at_i)
            (room parts.before parts.after
              (parts.now ∙ ap (λ w. parts.before ++ (in_hand w ++ parts.after)) at_i) then)))
    where
      room :
          (before after : List Task)
          → collect n s.pool.worker ≡ before ++ after
          → collect n (update s.pool.worker i (holding task)) ≡ before ++ task ∷ after
          → length (collect n s.pool.worker) < n
      room before after now then = omega (
        arith,
        ap length now,
        ap length then,
        length-append before after,
        length-append before (task ∷ after),
        length-collect n (update s.pool.worker i (holding task)),
      )

  inside-Seen :
      (s : System) {p : ThreadPool.System Task} (step : ThreadPool.Step n s.pool p)
      → internal step ≡ true
      → Inv n s.pool
      → Seen s
      → Seen (record s { pool = p })
  inside-Seen s (ThreadPool.enter i lt e r) q inv seen =
      stutter s refl (collect-same n s.pool.worker i _ lt (sym (ap in_hand e))) seen
  inside-Seen s (ThreadPool.quit i lt e r) q inv seen =
      stutter s refl (collect-same n s.pool.worker i _ lt (sym (ap in_hand e))) seen
  inside-Seen s (ThreadPool.lock i lt e free) q inv seen =
      stutter s refl (collect-same n s.pool.worker i _ lt (sym (ap in_hand e))) seen
  inside-Seen s (ThreadPool.check i lt e) q inv seen =
      stutter s refl
        (collect-same n s.pool.worker i _ lt
          (idle_after s.pool.running s.pool.tasks ∙ sym (ap in_hand e)))
        seen
  inside-Seen s (ThreadPool.park i lt e) q inv seen =
      stutter s refl (collect-same n s.pool.worker i _ lt (sym (ap in_hand e))) seen
  inside-Seen s (ThreadPool.spurious i lt e) q inv seen =
      stutter s refl (collect-same n s.pool.worker i _ lt (sym (ap in_hand e))) seen
  inside-Seen s (ThreadPool.relock i lt e free) q inv seen =
      stutter s refl (collect-same n s.pool.worker i _ lt (sym (ap in_hand e))) seen
  inside-Seen s (ThreadPool.go_on i lt e) q inv seen =
      decide_cases inv (λ p. Seen (record s { pool = p })) i e
        (λ go. stutter s refl (collect-same n s.pool.worker i gone lt (sym (ap in_hand e))) seen)
        (λ task rest first. takes s i task rest lt e first seen)
  inside-Seen s (ThreadPool.unlock i task lt e) q inv seen =
      stutter s refl (collect-same n s.pool.worker i _ lt (sym (ap in_hand e))) seen
  inside-Seen s (ThreadPool.execute i task lt e) q inv seen = absurd (cc q)
  inside-Seen s (ThreadPool.call task e) q inv seen = absurd (cc q)
  inside-Seen s (ThreadPool.push task e free) q inv seen =
      stutter s
        (append-nil (s.pool.tasks ++ task ∷ []) ∙ sym (ap (λ p. s.pool.tasks ++ offered p) e)) refl
        seen
  inside-Seen s (ThreadPool.release e) q inv seen =
      stutter s (sym (ap (λ p. s.pool.tasks ++ offered p) e)) refl seen
  inside-Seen s (ThreadPool.notify_one i lt e sleeps) q inv seen =
      stutter s (sym (ap (λ p. s.pool.tasks ++ offered p) e))
        (collect-same n s.pool.worker i _ lt (sym (ap in_hand sleeps))) seen
  inside-Seen s (ThreadPool.notify_none e all) q inv seen =
      stutter s (sym (ap (λ p. s.pool.tasks ++ offered p) e)) refl seen
  inside-Seen s (ThreadPool.stop e) q inv seen = stutter s refl refl seen
  inside-Seen s (ThreadPool.notify_all e) q inv seen =
      stutter s refl (collect_congr n _ _ (λ k. idle_wake (s.pool.worker k))) seen
  inside-Seen s (ThreadPool.join e all) q inv seen = stutter s refl refl seen

  -- Whatever the interleaving: a state of the server with its thread pool, seen as the queue with
  -- the task that is being enqueued and the tasks that the workers have in hand, is a reachable
  -- state of the server with a queue.
  pub simulates : {s : System} → Reach os n listen_fd s → Pool.Reach os n listen_fd (view n s)
  unfolding ThreadPool.start fresh
  simulates begin = rw (collect-nothing n ThreadPool.looping refl) Pool.begin
  simulates (next {s = before} reach (event {t} e calm seen unused idle done result)) =
      Pool.next (simulates reach) (
        Pool.event e calm seen (Unused-behind (older before.pool) e.accepts before.net unused) (
          handle_event-behind (older before.pool) os e before.net
          ∙ ap (option_behind (older before.pool)) result))
  simulates (next {s} reach (call task rest e idle)) =
      subst
        (λ ts.
          Pool.Reach os n listen_fd
            (record { server = record s.net { tasks = ts }; hands = collect n s.pool.worker }))
        (ap (λ p. (s.pool.tasks ++ offered p) ++ s.net.tasks) idle
          ∙ ap (λ ts. (s.pool.tasks ++ []) ++ ts) e
          ∙ moves s.pool.tasks task rest)
        (simulates reach)
  simulates (next {s} reach (perform i task lt e)) =
      let parts = split n s.pool.worker i lt in
      subst
        (λ hands.
          Pool.Reach os n listen_fd
            (record { server = behind (older s.pool) (execute task s.net); hands = hands }))
        (sym (parts.then ThreadPool.looping))
        (subst
          (λ server.
            Pool.Reach os n listen_fd
              (record { server = server; hands = parts.before ++ parts.after }))
          (execute-behind (older s.pool) task s.net)
          (Pool.next (simulates reach) (
            Pool.finish parts.before parts.after task
              (parts.now ∙ ap (λ w. parts.before ++ (in_hand w ++ parts.after)) e))))
  simulates (next {s} reach (inside step q)) =
      inside-Seen s step q (Reach-Inv (Reach-pool reach)) (simulates reach)
