-- ===== src/Epoll/Composed/Echoes.antt =====
-- What is written back to a client beside the detailed pool, and in which order.
use kernel_net.Prelude.{
  ℕ, zero, suc, ◌≡◌, refl, sym, ap, ◌∙◌, subst, true, false, List, [], ◌∷◌, ◌++◌, some, ℤ, pos,
  negsuc, ◌==◌, if◌then◌else◌, append_assoc, append-nil, take, Bool-cases, inl, inr, arith, none,
  Option,
}
use kernel_net.Epoll.{
  Errors, Task, echo, close_client, Server, Accepted, client, no_client, register, close, Event,
  handle_event, handle_read, accept_connection, give_up, deregister, enqueue, would_block,
}
use kernel_net.Epoll.Composed.{
  System, Reach, begin, next, event, call, perform, inside, internal, fresh, Reach-pool,
}
use kernel_net.Epoll.Composed.Simulates.{offered, moves}
use kernel_net.Epoll.Pool.{execute}
use kernel_net.ThreadPool
use kernel_net.ThreadPool.{leaves, push, passed}
use kernel_net.ThreadPool.Hands.{in_hand}
use kernel_net.ThreadPool.Order.{executes_in_order}
use kernel_net.ThreadPool.Tasks.{Reach-Inv, decide_cases}

-- The bytes that tasks are to write to descriptor `k`, in their order.
unfoldable pub echoed : ℕ → List Task → List ℕ
echoed k [] = []
echoed k (echo fd buf ∷ ts) = (if fd == k then buf else []) ++ echoed k ts
echoed k (close_client fd ∷ ts) = echoed k ts

-- The bytes that `read` has put into the buffer.
abbrev pub read_bytes : ℤ → List ℕ → List ℕ
read_bytes (pos n) buf = take n buf
read_bytes (negsuc _) buf = []

-- What an event brings from descriptor `k`.
abbrev pub heard : ℕ → ℕ → Event → List ℕ
heard listen_fd k e =
    if e.fd == listen_fd
    then []
    else (if e.epollin then (if e.fd == k then read_bytes e.reads.n e.reads.buf else []) else [])

-- What was read from descriptor `k` in a run.
unfoldable pub received :
    {os : Errors} {n listen_fd : ℕ} {s : System} → Reach os n listen_fd s → ℕ → List ℕ
received begin k = []
received (next {s} reach (event e calm seen unused idle done result)) k =
    received reach k ++ heard s.net.listen_fd k e
received (next reach step) k = received reach k

echoed-append : (k : ℕ) (ts us : List Task) → echoed k (ts ++ us) ≡ echoed k ts ++ echoed k us
unfolding echoed
echoed-append k [] us = refl
echoed-append k (echo fd buf ∷ ts) us =
    ap (λ l. (if fd == k then buf else []) ++ l) (echoed-append k ts us)
    ∙ sym (append_assoc (if fd == k then buf else []) (echoed k ts) (echoed k us))
echoed-append k (close_client fd ∷ ts) us = echoed-append k ts us

abbrev TasksOf : Option Server → List Task → Type 0
TasksOf none ts = Unit
TasksOf (some t) ts = t.tasks ≡ ts

accept_connection-tasks :
    (answers : List Accepted) (s : Server) → TasksOf (accept_connection answers s) s.tasks
unfolding accept_connection register close
accept_connection-tasks [] s = tt
accept_connection-tasks (no_client errno ∷ answers) s = refl
accept_connection-tasks (client fd true ∷ answers) s =
    accept_connection-tasks answers (register fd true s)
accept_connection-tasks (client fd false ∷ answers) s =
    accept_connection-tasks answers (register fd false s)

module _ (os : Errors) (k : ℕ) where
  abbrev Leaves : Option Server → List ℕ → Type 0
  Leaves none bytes = Unit
  Leaves (some t) bytes = echoed k t.tasks ≡ bytes

  handle_read-Leaves :
      (fd : ℕ) (n : ℤ) (errno : ℕ) (buf : List ℕ) (s : Server)
      → s.tasks ≡ []
      → echoed k (handle_read os fd n errno buf s).tasks
        ≡ (if fd == k then read_bytes n buf else [])
  unfolding handle_read echoed give_up enqueue deregister
  handle_read-Leaves fd (pos zero) errno buf s none_left = rw none_left (ground arith)
  handle_read-Leaves fd (negsuc _) errno buf s none_left =
      elim (Bool-cases (would_block os errno)) [
        | inl later ↦ rw (later, none_left) (ground arith)
        | inr failed ↦ rw (failed, none_left) (ground arith)
      ]
  handle_read-Leaves fd (pos (suc n)) errno buf s none_left =
      rw none_left (append-nil (if fd == k then take (suc n) buf else []))

  accepts-Leaves : (o : Option Server) → TasksOf o [] → Leaves o []
  unfolding echoed
  accepts-Leaves none same = tt
  accepts-Leaves (some t) same = ap (echoed k) same

  handle_event-Leaves :
      (e : Event) (s : Server)
      → e.epollerr ≡ false
      → s.tasks ≡ []
      → Leaves (handle_event os e s) (heard s.listen_fd k e)
  unfolding handle_event echoed
  handle_event-Leaves e s calm none_left = elim (Bool-cases (e.fd == s.listen_fd)) [
    | inl new ↦
        rw (calm, new)
          (accepts-Leaves (accept_connection e.accepts s) (
            subst (TasksOf (accept_connection e.accepts s)) none_left
              (accept_connection-tasks e.accepts s)))
    | inr old ↦ elim (Bool-cases e.epollin) [
      | inl readable ↦
          rw (calm, old, readable)
            (handle_read-Leaves e.fd e.reads.n e.reads.errno e.reads.buf s none_left)
      | inr idle ↦ rw (calm, old, idle) (ap (echoed k) none_left)
    ]
  ]

-- The tasks that have gone into the queue and the one that is on its way there.
abbrev arrived : ThreadPool.System Task → List Task
arrived p = p.enqueued ++ offered p.producer

internal-arrived :
    {n : ℕ} {p q : ThreadPool.System Task} (step : ThreadPool.Step n p q)
    → internal step ≡ true
    → ThreadPool.Reach n p
    → arrived q ≡ arrived p
internal-arrived {p} (push task e free) i reach =
    append-nil (p.enqueued ++ task ∷ []) ∙ ap (λ w. p.enqueued ++ offered w) (sym e)
internal-arrived {p} (ThreadPool.release e) i reach = ap (λ w. p.enqueued ++ offered w) (sym e)
internal-arrived {p} (ThreadPool.notify_one j lt e z) i reach =
    ap (λ w. p.enqueued ++ offered w) (sym e)
internal-arrived {p} (ThreadPool.notify_none e z) i reach =
    ap (λ w. p.enqueued ++ offered w) (sym e)
internal-arrived {p} (ThreadPool.go_on j lt e) i reach =
    decide_cases (Reach-Inv reach) (λ t. arrived t ≡ arrived p) j e (λ _. refl)
      (λ task rest first. refl)
internal-arrived (ThreadPool.call task e) i reach = absurd (ground arith)
internal-arrived step i reach = refl

-- All the tasks so far.
abbrev all_of : System → List Task
all_of s = arrived s.pool ++ s.net.tasks

module _ {os : Errors} {n listen_fd : ℕ} (k : ℕ) where
  Reach-all_of :
      {s : System} (reach : Reach os n listen_fd s) → received reach k ≡ echoed k (all_of s)
  unfolding received echoed fresh ThreadPool.start execute close
  Reach-all_of begin = refl
  Reach-all_of (next {s} reach (event {t} e calm seen unused idle done result)) =
      rw
        (
          Reach-all_of reach,
          done,
          append-nil (arrived s.pool),
          echoed-append k (arrived s.pool) t.tasks,
        )
        (ap (λ l. echoed k (arrived s.pool) ++ l)
          (sym (
            subst (λ o. Leaves os k o (heard s.net.listen_fd k e)) result
              (handle_event-Leaves os k e s.net calm done))))
  Reach-all_of (next {s} reach (call task rest e idle)) =
      Reach-all_of reach
      ∙ ap (echoed k) (
          ap (λ w. (s.pool.enqueued ++ offered w) ++ s.net.tasks) idle
          ∙ ap (λ l. (s.pool.enqueued ++ []) ++ l) e
          ∙ moves s.pool.enqueued task rest)
  Reach-all_of (next reach (perform i (echo fd buf) lt e)) = Reach-all_of reach
  Reach-all_of (next reach (perform i (close_client fd) lt e)) = Reach-all_of reach
  Reach-all_of (next {s} reach (inside step q)) =
      Reach-all_of reach
      ∙ ap (λ l. echoed k (l ++ s.net.tasks)) (sym (internal-arrived step q (Reach-pool reach)))

-- With one worker and no event with EPOLLERR, whatever the interleaving of the network thread, the
-- worker and `stop`: the bytes that the tasks executed so far wrote or tried to write to a
-- descriptor, then those that the task in hand, those in the queue and those on their way there
-- are to write to it, are the bytes that were read from it, in the same order.
pub echoes_in_order :
    {os : Errors} {listen_fd : ℕ} {s : System} (k : ℕ) (reach : Reach os 1 listen_fd s)
    → received reach k
      ≡ echoed k (
          (((s.pool.finished ++ in_hand (s.pool.worker 0)) ++ s.pool.tasks)
            ++ offered s.pool.producer)
          ++ s.net.tasks)
echoes_in_order {s} k reach =
    Reach-all_of k reach
    ∙ ap (λ l. echoed k ((l ++ offered s.pool.producer) ++ s.net.tasks))
        (executes_in_order (Reach-pool reach))
