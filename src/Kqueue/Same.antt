-- ===== src/Kqueue/Same.antt =====
-- The kqueue server beside the epoll server.
use kernel_net.Prelude.{
  ℕ, zero, suc, ◌+◌, ◌≡◌, refl, ap, ◌∙◌, Bool, true, false, List, [], ◌∷◌, ◌++◌, Option, none, some,
  ℤ, pos, negsuc, ◌>>=◌, map, take, drop,
}
use kernel_net.Epoll.{
  Errors, Server, deregister, give_up, Accepted, client, no_client, register, Written, wrote,
  write_failed, Event as EpollEvent, accept_connection as epoll_accept_connection,
  handle_read as epoll_handle_read, handle_event as epoll_handle_event,
  handle_events as epoll_handle_events, turn as epoll_turn, write_loop as epoll_write_loop,
}
use kernel_net.Kqueue.{
  Event, is_read, delete_filter, add_filter, hang_up, accept_connection, handle_read, handle_event,
  handle_events, turn, write_loop,
}

-- The event of epoll that says the same.
abbrev pub as_epoll : Event → EpollEvent
as_epoll e = record {
  fd = e.ident;
  epollerr = e.ev_error;
  epollin = is_read e.filter;
  accepts = e.accepts;
  reads = e.reads;
}

add_filter_same : (fd : ℕ) (added : Bool) (s : Server) → add_filter fd added s ≡ register fd added s
unfolding add_filter register
add_filter_same fd true s = refl
add_filter_same fd false s = refl

accept_same :
    (answers : List Accepted) (s : Server)
    → accept_connection answers s ≡ epoll_accept_connection answers s
unfolding accept_connection epoll_accept_connection
accept_same [] s = refl
accept_same (no_client errno ∷ answers) s = refl
accept_same (client fd added ∷ answers) s =
    accept_same answers (add_filter fd added s)
    ∙ ap (epoll_accept_connection answers) (add_filter_same fd added s)

>>=_congr :
    (r : Option Server) {f g : Server → Option Server}
    → ((t : Server) → f t ≡ g t)
    → (r >>= f) ≡ (r >>= g)
>>=_congr none same = refl
>>=_congr (some t) same = same t

module _ (os : Errors) where
  handle_read_same :
      (fd : ℕ) (n : ℤ) (errno : ℕ) (buf : List ℕ) (s : Server)
      → handle_read os fd n errno buf s ≡ epoll_handle_read os fd n errno buf s
  unfolding handle_read epoll_handle_read hang_up delete_filter give_up deregister
  handle_read_same fd (pos zero) errno buf s = refl
  handle_read_same fd (pos (suc n)) errno buf s = refl
  handle_read_same fd (negsuc n) errno buf s = refl

  handle_event_same :
      (e : Event) (s : Server) → handle_event os e s ≡ epoll_handle_event os (as_epoll e) s
  unfolding handle_event epoll_handle_event
  handle_event_same e s =
      rw (accept_same e.accepts s, handle_read_same e.ident e.reads.n e.reads.errno e.reads.buf s)
        refl

  handle_events_same :
      (es : List Event) (s : Server)
      → handle_events os es s ≡ epoll_handle_events os (map as_epoll es) s
  unfolding handle_events epoll_handle_events
  handle_events_same [] s = refl
  handle_events_same (e ∷ es) s =
      rw (handle_event_same e s)
        (>>=_congr (epoll_handle_event os (as_epoll e) s) (λ t. handle_events_same es t))

  map-take : (n : ℕ) (es : List Event) → map as_epoll (take n es) ≡ take n (map as_epoll es)
  map-take zero es = refl
  map-take (suc n) [] = refl
  map-take (suc n) (e ∷ es) = ap (λ rest. as_epoll e ∷ rest) (map-take n es)

  -- From the same answers of the system calls, a round of the kqueue server's loop leaves the same
  -- state as a round of the epoll server's, with the same watched descriptors and the same tasks.
  pub turn_same :
      (ret : ℤ) (events : List Event) (s : Server)
      → turn os ret events s ≡ epoll_turn os ret (map as_epoll events) s
  unfolding turn epoll_turn
  turn_same (negsuc n) events s = refl
  turn_same (pos nfds) events s =
      ap (λ r. r >>= λ t. some (some t))
        (handle_events_same (take nfds events) s
          ∙ ap (λ es. epoll_handle_events os es s) (map-take nfds events))

  -- The loops of the echo tasks of the two servers send the same, from the same answers of write.
  pub write_loop_same :
      (answers : List Written) (buf : List ℕ) (total : ℕ) (sent : List ℕ)
      → write_loop os answers buf total sent ≡ epoll_write_loop os answers buf total sent
  unfolding write_loop epoll_write_loop
  write_loop_same [] buf total sent = refl
  write_loop_same (wrote nw ∷ answers) buf total sent =
      rw (write_loop_same answers buf (total + nw) (sent ++ take nw (drop total buf))) refl
  write_loop_same (write_failed errno ∷ answers) buf total sent =
      rw (write_loop_same answers buf total sent) refl
