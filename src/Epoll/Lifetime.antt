-- ===== src/Epoll/Lifetime.antt =====
-- How long a client's descriptor lives, with one worker and with more.
use kernel_net.Prelude.{
  ℕ, ◌+◌, ◌<◌, ◌≤◌, ◌≡◌, refl, sym, ap, subst, true, List, [], ◌∷◌, ◌++◌, arith, length,
  length-append,
}
use kernel_net.Epoll.{Errors, Task, echo, close_client, Server, close}
use kernel_net.Epoll.Pool.{
  System, fd_of, execute, Step, event, take_task, finish, Reach, begin, next,
}
use kernel_net.Epoll.Tended.{
  bit, closes, echoes, Tended, idle-Tended, execute-Tended, Kept, handle_event-Kept,
}

-- One worker at most is at a task.
record Single (s : System) : Type 0 where
  few : length s.hands ≤ 1
  kept : Kept s.hands s.server

execute-tasks : (t : Task) (s : Server) → (execute t s).tasks ≡ s.tasks
unfolding execute close
execute-tasks (echo fd buf) s = refl
execute-tasks (close_client fd) s = refl

finish-Single :
    (hands before after : List Task) (t : Task) (s : Server)
    → hands ≡ before ++ t ∷ after
    → length hands ≤ 1
    → Kept hands s
    → Single (record { server = execute t s; hands = before ++ after })
finish-Single hands [] [] t s e few kept = record {
  few = omega arith;
  kept =
      subst (Tended (execute t s)) (sym (execute-tasks t s))
        (execute-Tended t (subst (λ all. Tended s (all ++ s.tasks)) e kept));
}
finish-Single hands [] (a ∷ after) t s e few kept = absurd (omega (arith, few, ap length e))
finish-Single hands (b ∷ before) after t s e few kept =
    absurd (omega (arith, few, ap length e, length-append before (t ∷ after)))

take_task-Single :
    (hands : List Task) (t : Task) (rest before after : List Task) (s : Server)
    → s.tasks ≡ t ∷ rest
    → hands ≡ before ++ after
    → length hands < 1
    → Kept hands s
    → Single (record { server = record s { tasks = rest }; hands = before ++ t ∷ after })
take_task-Single [] t rest [] [] s e split room kept = record {
  few = omega arith;
  kept = idle-Tended (subst (Tended s) e kept) rest;
}
take_task-Single [] t rest [] (a ∷ after) s e split room kept = absurd (cc split)
take_task-Single [] t rest (b ∷ before) after s e split room kept = absurd (cc split)
take_task-Single (h ∷ hands) t rest before after s e split room kept = absurd (omega (arith, room))

Step-Single : {os : Errors} {s t : System} → Step os 1 s t → Single s → Single t
Step-Single {os} {s} (event e calm seen unused result) i = record {
  few = i.few;
  kept = handle_event-Kept os s.hands e calm seen unused result i.kept;
}
Step-Single {os} {s} (take_task t rest before after e split room) i =
    take_task-Single s.hands t rest before after s.server e split room i.kept
Step-Single {os} {s} (finish before after t e) i =
    finish-Single s.hands before after t s.server e i.few i.kept

Reach-Single : {os : Errors} {listen_fd : ℕ} {s : System} → Reach os 1 listen_fd s → Single s
unfolding closes echoes
Reach-Single begin = record {
  few = omega arith;
  kept = record { one = λ fd. refl; live = λ fd h. absurd (omega (arith, h)); last = tt };
}
Reach-Single (next reach step) = Step-Single step (Reach-Single reach)

-- With one worker and no event with EPOLLERR, in every reachable state the descriptor that the
-- worker is about to write to or to close is open.
pub in_hand_is_open :
    {os : Errors} {listen_fd : ℕ} {s : System} (t : Task) (rest : List Task)
    → Reach os 1 listen_fd s
    → s.hands ≡ t ∷ rest
    → s.server.is_open (fd_of t) ≡ true
unfolding closes echoes
in_hand_is_open {s = s} t rest reach e =
    first t (subst (λ hands. Tended s.server (hands ++ s.server.tasks)) e (Reach-Single reach).kept)
  where
    first :
        (t : Task)
        → Tended s.server ((t ∷ rest) ++ s.server.tasks)
        → s.server.is_open (fd_of t) ≡ true
    first (echo fd buf) tended = tended.live fd (ground arith)
    first (close_client fd) tended = ground (arith, tended.one fd)

-- With one worker and no event with EPOLLERR, in every reachable state a client's descriptor is
-- open exactly when epoll watches it or a task to close it is queued or in hand, never both and
-- never two such tasks: none leaks, and none is closed twice.
pub watched_or_closing :
    {os : Errors} {listen_fd : ℕ} {s : System} (fd : ℕ)
    → Reach os 1 listen_fd s
    → bit (s.server.watched fd) + closes fd (s.hands ++ s.server.tasks) ≡ bit (s.server.is_open fd)
watched_or_closing fd reach = (Reach-Single reach).kept.one fd
