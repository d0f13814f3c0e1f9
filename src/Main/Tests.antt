-- ===== src/Main/Tests.antt =====
-- Command lines of the servers, with the numbers that occur in them.
use text.Mathlib.Text.{◌==◌ as str_eq}
use kernel_net.IoUring
use kernel_net.IoUring.Run.{Round}
use kernel_net.Uring.{Platform}
use kernel_net.Main.Pooled.{main_kqueue_same}
use kernel_net.Epoll.{Errors, client, no_client}
use kernel_net.Kqueue
use kernel_net.Kqueue.Run as KqueueRun
use kernel_net.Kqueue.Run.Alike.{as_round, as_calls}
use kernel_net.Prelude.{
  ltb, List, negsuc, ◌==◌, false, ◌≡◌, refl, true, [], ◌∷◌, ◌++◌, map, none, some, pos, arith,
  if◌then◌else◌,
}
use kernel_net.Arguments.{Numbers, to_uint16, parsed, parse_loop}
use kernel_net.Arguments.Items.{given, render, set, set_all}
use kernel_net.Main.{
  epoll_defaults, iouring_defaults, main_epoll, main_kqueue, kind, set_port, terminated, serve,
  main, Options,
}
use kernel_net.Main.Written.{flags, parse_loop-flags}

abbrev readable : Numbers
readable = record {
  stoi = λ text.
      if str_eq text "9000"
      then some (pos 9000)
      else if str_eq text "70000"
      then some (pos 70000)
      else none;
  stoul = λ text. if str_eq text "4" then some 4 else none;
}

parse_loop-flags_example :
    parse_loop
      (kind readable)
      (render ((given "--port" "70000" ∷ []) ++ flags "9000" "4"))
      iouring_defaults
    ≡ parsed (record { port = 9000; workers = 4 })
unfolding set set_all kind set_port to_uint16
parse_loop-flags_example =
    parse_loop-flags readable (given "--port" "70000" ∷ []) iouring_defaults
      (record { port = 4464; workers = 0 }) (record { port = 9000; workers = 4 }) "9000" "4"
      ((set_port readable, refl), tt) refl (omega arith) refl refl

-- A number that cannot be read ends the program outside the `try` block.
unreadable :
    main readable epoll_defaults (λ o. some true) ("--port" ∷ "http" ∷ []) ≡ some terminated
unfolding main serve parse_loop kind set_port
unreadable = refl

abbrev linux : Platform
linux = record { eagain = 11; etime = 62; eintr = 4; sqe_left = λ n. ltb n 256 }

-- A wait that times out, and then a call of `shutdown`.
abbrev quiet_second : List Round
quiet_second =
    record { shut = false; ret = negsuc 61; cqes = []; left = [] }
    ∷ record { shut = true; ret = pos 0; cqes = []; left = [] }
    ∷ []

-- The constructor throws on port 80, and succeeds on others.
abbrev calls : Options → IoUring.Calls
calls o = record {
  socket = pos 3;
  bind = if o.port == 80 then negsuc 12 else pos 0;
  listen = pos 0;
  queue_init = pos 0;
}

abbrev macos : Errors
macos = record { eagain = 35; ewouldblock = 35 }

-- Client 7 connects, then `shutdown` is called.
abbrev visit : List KqueueRun.Round
visit =
    record {
      shut = false;
      nfds = pos 1;
      events =
          record {
            ident = 3;
            ev_error = false;
            filter = negsuc 0;
            accepts = client 7 true ∷ no_client 35 ∷ [];
            reads = record { n = pos 0; errno = 0; buf = [] };
          }
          ∷ [];
    }
    ∷ record { shut = true; nfds = pos 0; events = [] }
    ∷ []

abbrev kqueue_calls : Options → Kqueue.Calls
kqueue_calls o = record {
  socket = pos 3;
  bind = pos 0;
  listen = pos 0;
  kqueue_create = pos 4;
  kevent_add = pos 0;
}

main_kqueue_same_example :
    main_epoll readable macos
      (map as_round visit)
      (λ o. as_calls (kqueue_calls o))
      ("--port" ∷ "9000" ∷ [])
    ≡ main_kqueue readable macos visit kqueue_calls ("--port" ∷ "9000" ∷ [])
main_kqueue_same_example =
    main_kqueue_same macos readable visit kqueue_calls ("--port" ∷ "9000" ∷ [])
