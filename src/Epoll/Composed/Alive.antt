-- ===== src/Epoll/Composed/Alive.antt =====
-- How long a client's descriptor lives beside the detailed pool, with one worker.
use kernel_net.Prelude.{ℕ, ◌+◌, ◌≡◌, ap, ◌∙◌, subst, true, [], ◌++◌}
use kernel_net.Epoll.{Errors, Task}
use kernel_net.Epoll.Pool.{fd_of}
use kernel_net.Epoll.Tended.{bit, closes}
use kernel_net.ThreadPool.Hands.{in_hand, collect_one}
use kernel_net.Epoll.Lifetime.{in_hand_is_open, watched_or_closing}
use kernel_net.Epoll.Composed.{System, Reach}
use kernel_net.Epoll.Composed.Simulates.{offered, simulates}
use kernel_net.ThreadPool.{executing}

-- With one worker and no event with EPOLLERR, whatever the interleaving of the network thread, the
-- worker and `stop`: the descriptor that the worker's task writes to or closes is open.
pub executing_is_open :
    {os : Errors} {listen_fd : ℕ} {s : System} (t : Task)
    → Reach os 1 listen_fd s
    → s.pool.worker 0 ≡ executing t
    → s.net.is_open (fd_of t) ≡ true
executing_is_open {os} {listen_fd} {s} t reach at =
    in_hand_is_open t [] (simulates os 1 listen_fd reach)
      (collect_one s.pool.worker ∙ ap in_hand at)

-- With one worker and no event with EPOLLERR, whatever the interleaving: a client's descriptor is
-- open exactly when epoll watches it or a task to close it is in hand, queued or on its way to the
-- queue, never both and never two such tasks.
pub watched_or_closed_later :
    {os : Errors} {listen_fd : ℕ} {s : System} (fd : ℕ)
    → Reach os 1 listen_fd s
    → bit (s.net.watched fd)
        + closes fd (
            in_hand (s.pool.worker 0) ++ ((s.pool.tasks ++ offered s.pool.producer) ++ s.net.tasks))
      ≡ bit (s.net.is_open fd)
watched_or_closed_later {os} {listen_fd} {s} fd reach =
    subst
      (λ hands.
        bit (s.net.watched fd)
          + closes fd (hands ++ ((s.pool.tasks ++ offered s.pool.producer) ++ s.net.tasks))
        ≡ bit (s.net.is_open fd))
      (collect_one s.pool.worker) (watched_or_closing fd (simulates os 1 listen_fd reach))
