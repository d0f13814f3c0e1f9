-- ===== src/IoUringZc/Run.antt =====
-- `run`, `shutdown` and the destructor of the zero-copy server, like those in IoUring/Run. A signal handler
-- may call `shutdown` at any time; the loop sees it when it next tests `running_`.
pub mod Same
use kernel_net.Prelude.{
  ℕ, ◌≡◌, Bool, true, false, List, [], ◌∷◌, ◌++◌, Option, none, some, ℤ, pos, negsuc, ◌>>=◌,
  if◌then◌else◌,
}
use kernel_net.Uring.{Sqe, Cqe, Platform}
use kernel_net.IoUringZc.{Server, System, Turn, constructed, submit_accept, turn, close}

pub record Process : Type 0 where
  pub running : Bool
  pub system : System

-- One test of `running_`: whether `shutdown` has been called since the last one, and what the round
-- finds if there is one: the result of the wait, the completions, and what stays in flight.
pub record Round : Type 0 where
  pub shut : Bool
  pub ret : ℤ
  pub cqes : List Cqe
  pub left : List Sqe

-- The loop has been left, or goes on when the rounds given are over.
pub data Outcome : Type 0 where
  ended : Process → Outcome
  looping : Process → Outcome

unfoldable pub shutdown : Process → Process
shutdown p = record p { running = false }

unfoldable pub arrive : Bool → Process → Process
arrive shut p = if shut then shutdown p else p

-- A round has come to its end.
unfoldable pub advance : List Sqe → Turn → Process → Process
advance left u p = record p { system = record { server = u.server; flying = left ++ u.submitted } }

module _ (os : Platform) where
  -- `while (running_)`
  unfoldable pub rounds : List Round → Process → Option Outcome
  rounds [] p = some (looping p)
  rounds (r ∷ rs) p =
      let q = arrive r.shut p in
      let result = turn os r.ret r.cqes q.system.server >>= λ broke_or_went_on.
      elim broke_or_went_on [ none ↦ some (ended q) | some u ↦ rounds rs (advance r.left u q) ] in
      if q.running then result else some (ended q)

  -- `event_loop`, which is all that `run` does.
  unfoldable pub event_loop : List Round → Server → Option Outcome
  event_loop rs s = submit_accept os s >>= λ primed.
      rounds rs (record { running = true; system = record { server = primed; flying = [] } })

unfoldable pub close_listen : ℤ → Server → Server
close_listen (pos fd) s = close (pos fd) s
close_listen (negsuc _) s = s

-- `~IoUringZcEchoServer`
unfoldable pub destroy : Process → Process
destroy p = record p {
  system = record { server = close_listen p.system.server.listen_fd p.system.server; flying = [] };
}
