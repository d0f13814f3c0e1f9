-- ===== src/Epoll/Run/Tests.antt =====
-- The life of a server: client 7 connects, the server is shut down.
use kernel_net.Prelude.{ℕ, ◌≡◌, refl, true, false, List, [], ◌∷◌, some, pos, inl, inr, times}
use kernel_net.Epoll.{
  Errors, client, no_client, Calls, turn, handle_events, handle_event, close, construct, listening,
  create_epoll, watch_listen,
}
use kernel_net.Epoll.Boot.{opened}
use kernel_net.Epoll.Run.{
  Round, life, live, rounds, leave, destroy, arrive, shutdown, listen_errors, round_closes,
}
use kernel_net.Epoll.Run.Life.{life_closes}

abbrev linux : Errors
linux = record { eagain = 11; ewouldblock = 11 }

abbrev day : List Round
day =
    record {
      shut = false;
      nfds = pos 1;
      events =
          record {
            fd = 3;
            epollerr = false;
            epollin = true;
            accepts = client 7 true ∷ no_client 11 ∷ [];
            reads = record { n = pos 0; errno = 0; buf = [] };
          }
          ∷ [];
    }
    ∷ record { shut = true; nfds = pos 0; events = [] }
    ∷ []

abbrev calls : Calls
calls = record {
  socket = pos 3;
  bind = pos 0;
  listen = pos 0;
  epoll_create = pos 4;
  epoll_ctl = pos 0;
}

life_closes_example :
    (closed : List ℕ) × (life linux day calls ≡ some closed)
    × ((fd : ℕ) → times fd closed ≡ times fd (3 ∷ 4 ∷ []))
unfolding opened
life_closes_example =
    life_closes linux day calls ((tt, tt), (tt, tt)) (inr (inr (inl refl)))
      (((λ err. absurd (cc err)), tt), (tt, tt))

-- An error on the listening descriptor: the loop closes it, and so does the destructor.
abbrev bad_day : List Round
bad_day =
    record {
      shut = false;
      nfds = pos 1;
      events =
          record {
            fd = 3;
            epollerr = true;
            epollin = false;
            accepts = [];
            reads = record { n = pos 0; errno = 0; buf = [] };
          }
          ∷ [];
    }
    ∷ record { shut = true; nfds = pos 0; events = [] }
    ∷ []

closed_twice : life linux bad_day calls ≡ some (3 ∷ 4 ∷ 3 ∷ [])
unfolding life live rounds leave destroy arrive shutdown listen_errors round_closes turn
    handle_events handle_event close construct listening create_epoll watch_listen
closed_twice = refl
