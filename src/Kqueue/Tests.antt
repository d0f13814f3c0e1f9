-- ===== src/Kqueue/Tests.antt =====
-- A round of the kqueue server with two events and macOS's error numbers, and the theorems at it.
use kernel_net.Prelude.{ℕ, ◌≡◌, true, false, List, [], ◌∷◌, ℤ, pos, negsuc, map}
use kernel_net.Epoll.{Errors, Server, Accepted, client, no_client}
use kernel_net.Kqueue.{Event}
use kernel_net.Epoll.Run as EpollRun
use kernel_net.Kqueue.Run.{Process, Round, rounds}
use kernel_net.Kqueue.Run.Alike.{as_round, as_process, as_outcome, loop_same}

abbrev macos : Errors
macos = record { eagain = 35; ewouldblock = 35 }

abbrev serving : Server
serving = record { listen_fd = 3; is_open = λ _. false; watched = λ _. false; tasks = [] }

-- Client 7 connects, sends two bytes and ends.
abbrev event_at : ℕ → List Accepted → ℤ → Event
event_at fd accepts n = record {
  ident = fd;
  ev_error = false;
  filter = negsuc 0;
  accepts = accepts;
  reads = record { n = n; errno = 0; buf = 104 ∷ 105 ∷ [] };
}

abbrev visit : List Event
visit =
    event_at 3 (client 7 true ∷ no_client 35 ∷ []) (pos 0)
    ∷ event_at 7 [] (pos 2)
    ∷ event_at 7 [] (pos 0)
    ∷ []

-- A visit, and then a call of `shutdown`.
abbrev day : List Round
day =
    record { shut = false; nfds = pos 3; events = visit }
    ∷ record { shut = true; nfds = pos 0; events = [] }
    ∷ []

abbrev process : Process
process = record { running = true; server = serving; kq = 4; closed = [] }

loop_same_example :
    EpollRun.rounds macos (map as_round day) (as_process process)
    ≡ as_outcome (rounds macos day process)
loop_same_example = loop_same macos day process
