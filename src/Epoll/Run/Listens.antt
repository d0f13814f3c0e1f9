-- ===== src/Epoll/Run/Listens.antt =====
-- A round leaves the server listening where it did, when its accept loops come to an end.
use kernel_net.Prelude.{
  ℕ, zero, suc, ◌≡◌, refl, ◌∙◌, subst, Bool, true, false, List, [], ◌∷◌, Option, none, some, ℤ, pos,
  negsuc, ◌>>=◌, if◌then◌else◌, ◌==◌, take, arith,
}
use kernel_net.Epoll.{
  Errors, Server, enqueue, deregister, close, give_up, Accepted, client, no_client, register,
  accept_connection, Event, handle_read, handle_event, handle_events,
}

-- The accept loop is told at some time that there is no client left.
abbrev pub Drained : List Accepted → Type 0
Drained [] = ⊥
Drained (no_client errno ∷ answers) = Unit
Drained (client fd added ∷ answers) = Drained answers

abbrev pub AllDrained : List Event → Type 0
AllDrained [] = Unit
AllDrained (e ∷ es) = Drained e.accepts × AllDrained es

-- There is a server, and it listens where it did.
abbrev pub Serves : Server → Option Server → Type 0
Serves s none = ⊥
Serves s (some t) = t.listen_fd ≡ s.listen_fd

close_listens : (fd : ℕ) (s : Server) → (close fd s).listen_fd ≡ s.listen_fd
unfolding close
close_listens fd s = refl

register_listens :
    (fd : ℕ) (added : Bool) (s : Server) → (register fd added s).listen_fd ≡ s.listen_fd
unfolding register close
register_listens fd true s = refl
register_listens fd false s = refl

accept_connection-Serves :
    (answers : List Accepted) (s : Server)
    → Drained answers
    → Serves s (accept_connection answers s)
unfolding accept_connection
accept_connection-Serves [] s drained = absurd drained
accept_connection-Serves (no_client errno ∷ answers) s drained = refl
accept_connection-Serves (client fd added ∷ answers) s drained =
    subst
      (λ l. Serves (record s { listen_fd = l }) (accept_connection answers (register fd added s)))
      (register_listens fd added s) (accept_connection-Serves answers (register fd added s) drained)

bind-Serves :
    (s : Server) (r : Option Server) (f : Server → Option Server)
    → Serves s r
    → ((t : Server) → Serves t (f t))
    → Serves s (r >>= f)
bind-Serves s none f served next = served
bind-Serves s (some t) f served next = later (f t) (next t)
  where
    later : (o : Option Server) → Serves t o → Serves s o
    later none e = e
    later (some u) e = e ∙ served

module _ (os : Errors) where
  handle_read_listens :
      (fd : ℕ) (n : ℤ) (errno : ℕ) (buf : List ℕ) (s : Server)
      → (handle_read os fd n errno buf s).listen_fd ≡ s.listen_fd
  unfolding handle_read give_up enqueue deregister
  handle_read_listens fd (pos zero) errno buf s = refl
  handle_read_listens fd (pos (suc n)) errno buf s = refl
  handle_read_listens fd (negsuc n) errno buf s = ground arith

  handle_event-Serves :
      (e : Event) (s : Server) → Drained e.accepts → Serves s (handle_event os e s)
  unfolding handle_event
  handle_event-Serves e s drained = either e.epollerr (e.fd == s.listen_fd) e.epollin
    where
      either :
          (failed listens readable : Bool)
          → Serves s (
              if failed
              then some (close e.fd s)
              else (if listens
                  then accept_connection e.accepts s
                  else (if readable
                      then some (handle_read os e.fd e.reads.n e.reads.errno e.reads.buf s)
                      else some s)))
      either true listens readable = close_listens e.fd s
      either false true readable = accept_connection-Serves e.accepts s drained
      either false false true = handle_read_listens e.fd _ _ _ s
      either false false false = refl

  pub handle_events-Serves :
      (n : ℕ) (es : List Event) (s : Server)
      → AllDrained es
      → Serves s (handle_events os (take n es) s)
  unfolding handle_events
  handle_events-Serves zero es s drained = refl
  handle_events-Serves (suc n) [] s drained = refl
  handle_events-Serves (suc n) (e ∷ es) s (first, others) =
      bind-Serves s (handle_event os e s) (handle_events os (take n es))
        (handle_event-Serves e s first) (λ t. handle_events-Serves n es t others)
