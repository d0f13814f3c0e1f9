-- ===== src/Main.antt =====
-- The main functions of the four servers, echo_server/flavors/*/main.cpp: their arguments, and how they
-- end. They share one loop over the arguments and differ in the defaults and in the server that
-- they make. `std::stoi` and `std::stoul` are parameters.
pub mod Written
pub mod Exits
pub mod Pooled
pub mod Signals
mod Tests
use Prim.Native.String.{String}
use text.Mathlib.Text.{◌==◌ as str_eq}
use kernel_net.Prelude.{
  ℕ, ◌+◌, ◌-◌, ◌%◌, ◌^◌, Bool, true, false, List, [], ◌∷◌, Option, none, some, ℤ, pos, negsuc,
  ◌>>=◌, if◌then◌else◌,
}
use kernel_net.Arguments.{
  Numbers, to_uint16, Kind, sets, help, skipped, Parsed, usage, threw, parsed, parse_loop,
}
use kernel_net.Epoll
use kernel_net.Epoll.{Errors}
use kernel_net.Epoll.Run as EpollRun
use kernel_net.Kqueue
use kernel_net.Kqueue.Run as KqueueRun
use kernel_net.IoUring
use kernel_net.IoUringZc
use kernel_net.IoUring.Run
use kernel_net.IoUringZc.Run as ZcRun
use kernel_net.Uring.{Platform}

pub record Options : Type 0 where
  pub port : ℕ
  pub workers : ℕ

abbrev pub epoll_defaults : Options
epoll_defaults = record { port = 8080; workers = 1 }

abbrev pub kqueue_defaults : Options
kqueue_defaults = record { port = 8080; workers = 1 }

abbrev pub iouring_defaults : Options
iouring_defaults = record { port = 8082; workers = 0 }

abbrev pub iouring_zc_defaults : Options
iouring_zc_defaults = record { port = 8083; workers = 0 }

module _ (numbers : Numbers) where
  open numbers use {stoi, stoul}

  -- `port = static_cast<uint16_t>(std::stoi(argv[++i]))`
  unfoldable pub set_port : String → Options → Option Options
  set_port value o = stoi value >>= λ n. some (record o { port = to_uint16 n })

  -- `workers = std::stoul(argv[++i])`
  unfoldable pub set_workers : String → Options → Option Options
  set_workers value o = stoul value >>= λ n. some (record o { workers = n })

  -- The tests of the loop.
  unfoldable pub kind : String → Kind Options
  kind arg =
      if str_eq arg "--port"
      then sets set_port
      else if str_eq arg "--workers"
      then sets set_workers
      else if str_eq arg "--help"
      then help
      else skipped

-- How a program ends; an exception that leaves `main` terminates it.
pub data Exit : Type 0 where
  exited : (code : ℕ) → Exit
  terminated : Exit

-- `main`, with `run` for the constructor and `run` of the server: false when the constructor throws,
-- none when the server goes on. An exception of the constructor is caught, one of the loop over the
-- arguments is not.
unfoldable pub serve : (Options → Option Bool) → Parsed Options → Option Exit
serve run usage = some (exited 0)
serve run threw = some terminated
serve run (parsed o) = run o >>= λ made. some (exited (if made then 0 else 1))

-- `run` of a server that was made, from what each round finds; the pool is left aside.
unfoldable pub epoll_finished : EpollRun.Outcome → Option Bool
epoll_finished (EpollRun.ended p) = some true
epoll_finished (EpollRun.looping p) = none

unfoldable pub epoll_run : Errors → List EpollRun.Round → Epoll.Built → Option Bool
epoll_run os rounds (Epoll.threw closed) = some false
epoll_run os rounds (Epoll.built s epoll_fd) =
    EpollRun.rounds os rounds
      (record { running = true; server = s; epoll_fd = epoll_fd; closed = [] })
    >>= epoll_finished

unfoldable pub kqueue_finished : KqueueRun.Outcome → Option Bool
kqueue_finished (KqueueRun.ended p) = some true
kqueue_finished (KqueueRun.looping p) = none

unfoldable pub kqueue_run : Errors → List KqueueRun.Round → Kqueue.Built → Option Bool
kqueue_run os rounds (Kqueue.threw closed) = some false
kqueue_run os rounds (Kqueue.built s kq) =
    KqueueRun.rounds os rounds (record { running = true; server = s; kq = kq; closed = [] })
    >>= kqueue_finished

-- `run` of an io_uring server that was made, from what each round finds.
unfoldable pub finished : Run.Outcome → Option Bool
finished (Run.ended p) = some true
finished (Run.looping p) = none

unfoldable pub iouring_run : Platform → List Run.Round → IoUring.Built → Option Bool
iouring_run os rounds (IoUring.threw closed) = some false
iouring_run os rounds (IoUring.built server) = Run.event_loop os rounds server >>= finished

unfoldable pub zc_finished : ZcRun.Outcome → Option Bool
zc_finished (ZcRun.ended p) = some true
zc_finished (ZcRun.looping p) = none

unfoldable pub iouring_zc_run : Platform → List ZcRun.Round → IoUringZc.Built → Option Bool
iouring_zc_run os rounds (IoUringZc.threw closed) = some false
iouring_zc_run os rounds (IoUringZc.built server) =
    ZcRun.event_loop os rounds server >>= zc_finished

module _ (numbers : Numbers) where
  unfoldable pub main : Options → (Options → Option Bool) → List String → Option Exit
  main defaults run argv = serve run (parse_loop (kind numbers) argv defaults)

  -- The four programs, from what the calls of the constructor answer and what each round finds.
  unfoldable pub main_epoll :
      Errors → List EpollRun.Round → (Options → Epoll.Calls) → List String → Option Exit
  main_epoll os rounds calls =
      main epoll_defaults (λ o. epoll_run os rounds (Epoll.construct (calls o)))

  unfoldable pub main_kqueue :
      Errors → List KqueueRun.Round → (Options → Kqueue.Calls) → List String → Option Exit
  main_kqueue os rounds calls =
      main kqueue_defaults (λ o. kqueue_run os rounds (Kqueue.construct (calls o)))

  unfoldable pub main_iouring :
      Platform → List Run.Round → (Options → IoUring.Calls) → List String → Option Exit
  main_iouring os rounds calls =
      main iouring_defaults (λ o. iouring_run os rounds (IoUring.construct (calls o)))

  unfoldable pub main_iouring_zc :
      Platform → List ZcRun.Round → (Options → IoUringZc.Calls) → List String → Option Exit
  main_iouring_zc os rounds calls =
      main iouring_zc_defaults (λ o. iouring_zc_run os rounds (IoUringZc.construct (calls o)))
