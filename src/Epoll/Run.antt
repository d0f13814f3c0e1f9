-- ===== src/Epoll/Run.antt =====
-- `run`, `shutdown` and the destructor: the whole life of a server, from its constructor on. The network
-- thread tests `running_` before each round; what `shutdown` does to the pool is in ThreadPool and
-- Epoll/Composed.
pub mod Listens
pub mod Life
mod Tests
use kernel_net.Prelude.{
  ℕ, ◌≡◌, Bool, true, false, List, [], ◌∷◌, ◌++◌, Option, none, some, ℤ, pos, negsuc, ◌>>=◌, ◌==◌,
  ◌&&◌, take, if◌then◌else◌,
}
use kernel_net.Epoll.{Errors, Server, Event, turn, Calls, Built, threw, built, construct}

-- The fields that the loop and the destructor use; `closed` has the server's own descriptors that
-- are closed, each as often as it is.
pub record Process : Type 0 where
  pub running : Bool
  pub server : Server
  pub epoll_fd : ℕ
  pub closed : List ℕ

-- One test of `running_`: whether `shutdown` has been called since the last one, and what
-- `epoll_wait` answers if there is a round.
pub record Round : Type 0 where
  pub shut : Bool
  pub nfds : ℤ
  pub events : List Event

-- The loop has been left, or goes on when the rounds given are over.
pub data Outcome : Type 0 where
  ended : Process → Outcome
  looping : Process → Outcome

-- `running_ = false`
unfoldable pub shutdown : Process → Process
shutdown p = record p { running = false }

unfoldable pub arrive : Bool → Process → Process
arrive shut p = if shut then shutdown p else p

-- The loop's `close(fd)` on EPOLLERR, where `fd` is the listening descriptor.
unfoldable pub listen_errors : ℕ → List Event → List ℕ
listen_errors listen_fd [] = []
listen_errors listen_fd (e ∷ es) =
    let rest = listen_errors listen_fd es in
    if e.epollerr && (e.fd == listen_fd) then listen_fd ∷ rest else rest

-- The descriptors of its own that a round closes.
unfoldable pub round_closes : ℕ → ℤ → List Event → List ℕ
round_closes listen_fd (negsuc _) events = []
round_closes listen_fd (pos nfds) events = listen_errors listen_fd (take nfds events)

module _ (os : Errors) where
  -- `while (running_)`
  unfoldable pub rounds : List Round → Process → Option Outcome
  rounds [] p = some (looping p)
  rounds (r ∷ rs) p =
      let q = arrive r.shut p in
      let result = turn os r.nfds r.events q.server >>= λ broke_or_went_on. elim broke_or_went_on [
        | none ↦ some (ended q)
        | some s ↦ rounds rs (record q {
          server = s;
          closed = q.closed ++ round_closes q.server.listen_fd r.nfds r.events;
        })
      ] in
      if q.running then result else some (ended q)

-- `~EchoServer`
unfoldable pub destroy : Process → Process
destroy p = record p { closed = p.closed ++ p.epoll_fd ∷ p.server.listen_fd ∷ [] }

unfoldable pub leave : Outcome → Option (List ℕ)
leave (ended p) = some (destroy p).closed
leave (looping p) = none

-- From the constructor to the destructor: the server's own descriptors that were closed.
module _ (os : Errors) where
  unfoldable pub live : List Round → Built → Option (List ℕ)
  live rs (threw closed) = some closed
  live rs (built s epoll_fd) =
      rounds os rs (record { running = true; server = s; epoll_fd = epoll_fd; closed = [] })
      >>= leave

  unfoldable pub life : List Round → Calls → Option (List ℕ)
  life rs c = live rs (construct c)
