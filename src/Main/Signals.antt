-- ===== src/Main/Signals.antt =====
-- The signal handlers of the four programs: `g_server` is empty until the constructor has returned.
use kernel_net.Prelude.{◌≡◌, refl, List, [], ◌∷◌, ◌++◌, Option, none, some}
use kernel_net.Epoll.Run as EpollRun
use kernel_net.Kqueue.Run as KqueueRun
use kernel_net.IoUring.Run
use kernel_net.IoUringZc.Run as ZcRun

-- `if (g_server) g_server->shutdown();`
unfoldable pub epoll_handler : Option EpollRun.Process → Option EpollRun.Process
epoll_handler none = none
epoll_handler (some p) = some (EpollRun.shutdown p)

unfoldable pub kqueue_handler : Option KqueueRun.Process → Option KqueueRun.Process
kqueue_handler none = none
kqueue_handler (some p) = some (KqueueRun.shutdown p)

unfoldable pub iouring_handler : Option Run.Process → Option Run.Process
iouring_handler none = none
iouring_handler (some p) = some (Run.shutdown p)

unfoldable pub iouring_zc_handler : Option ZcRun.Process → Option ZcRun.Process
iouring_zc_handler none = none
iouring_zc_handler (some p) = some (ZcRun.shutdown p)

-- What happens to `g_server` of the epoll program, in the order of time.
pub data Moment : Type 0 where
  signal : Moment
  made : EpollRun.Process → Moment  -- `g_server = std::make_unique<EchoServer>(...)`

unfoldable pub epoll_moments : List Moment → Option EpollRun.Process → Option EpollRun.Process
epoll_moments [] g = g
epoll_moments (signal ∷ ms) g = epoll_moments ms (epoll_handler g)
epoll_moments (made p ∷ ms) g = epoll_moments ms (some p)

abbrev pub AllSignals : List Moment → Type 0
AllSignals [] = Unit
AllSignals (signal ∷ ms) = AllSignals ms
AllSignals (made p ∷ ms) = ⊥

-- Signals that come before the server is stored are lost: the server runs as if there had been none.
pub early_signals_lost :
    (ms rest : List Moment)
    → AllSignals ms
    → epoll_moments (ms ++ rest) none ≡ epoll_moments rest none
unfolding epoll_moments epoll_handler
early_signals_lost [] rest all = refl
early_signals_lost (signal ∷ ms) rest all = early_signals_lost ms rest all
early_signals_lost (made p ∷ ms) rest all = absurd all

-- A signal that comes later stops it.
pub late_signal_stops :
    (p : EpollRun.Process) (ms : List Moment)
    → AllSignals ms
    → epoll_moments (made p ∷ signal ∷ ms) none ≡ some (EpollRun.shutdown p)
unfolding epoll_moments epoll_handler EpollRun.shutdown
late_signal_stops p [] all = refl
late_signal_stops p (signal ∷ ms) all = late_signal_stops (EpollRun.shutdown p) ms all
late_signal_stops p (made q ∷ ms) all = absurd all
