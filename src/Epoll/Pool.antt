-- ===== src/Epoll/Pool.antt =====
-- The network thread beside the workers. The pool's queue is first in, first out; a worker takes the
-- front task, is at it for a while, and has then closed the descriptor or written to it.
use kernel_net.Prelude.{ℕ, ◌<◌, ◌≡◌, ◌≢◌, true, false, List, [], ◌∷◌, ◌++◌, some, length}
use kernel_net.Epoll.{
  Errors, Task, echo, close_client, Server, close, Accepted, client, no_client, register, Event,
  handle_event,
}

-- `hands` holds the tasks that the workers are at, in any order.
pub record System : Type 0 where
  pub server : Server
  pub hands : List Task

abbrev pub fd_of : Task → ℕ
fd_of (echo fd buf) = fd
fd_of (close_client fd) = fd

-- What a task does to the descriptors.
unfoldable pub execute : Task → Server → Server
execute (echo fd buf) s = s
execute (close_client fd) s = close fd s

-- `accept4` returns descriptors that are not open.
abbrev pub Unused : List Accepted → Server → Type 0
Unused [] s = Unit
Unused (no_client errno ∷ answers) s = Unit
Unused (client fd added ∷ answers) s = (s.is_open fd ≡ false) × Unused answers (register fd added s)

-- One event is handled, or a worker takes a task or finishes one. epoll reports only descriptors
-- that it watches; events with EPOLLERR are left out.
pub data Step (os : Errors) (workers : ℕ) : System → System → Type 0 where
  event :
      {s : System} {t : Server} (e : Event)
      → e.epollerr ≡ false
      → (e.fd ≢ s.server.listen_fd → s.server.watched e.fd ≡ true)
      → Unused e.accepts s.server
      → handle_event os e s.server ≡ some t
      → Step os workers s (record s { server = t })
  take_task :
      {s : System} (t : Task) (rest before after : List Task)
      → s.server.tasks ≡ t ∷ rest
      → s.hands ≡ before ++ after
      → length s.hands < workers
      → Step os workers s
          (record { server = record s.server { tasks = rest }; hands = before ++ t ∷ after })
  finish :
      {s : System} (before after : List Task) (t : Task)
      → s.hands ≡ before ++ t ∷ after
      → Step os workers s (record { server = execute t s.server; hands = before ++ after })

abbrev pub fresh : ℕ → System
fresh listen_fd = record {
  server = record { listen_fd = listen_fd; is_open = λ _. false; watched = λ _. false; tasks = [] };
  hands = [];
}

pub data Reach (os : Errors) (workers listen_fd : ℕ) : System → Type 0 where
  begin : Reach os workers listen_fd (fresh listen_fd)
  next :
      {s t : System}
      → Reach os workers listen_fd s
      → Step os workers s t
      → Reach os workers listen_fd t
