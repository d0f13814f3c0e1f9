-- ===== src/Epoll/Workers.antt =====
-- A pool with more workers than one.
use kernel_net.Prelude.{
  ℕ, suc, ◌≤◌, ◌≡◌, ◌≢◌, refl, true, false, List, [], ◌∷◌, some, ℤ, pos, arith, update_self, take,
}
use kernel_net.Epoll.{
  Errors, echo, close_client, Server, enqueue, deregister, close, give_up, client, no_client,
  register, accept_connection, Event, handle_read, handle_event,
}
use kernel_net.Epoll.Pool.{System, execute, event, take_task, finish, fresh, Reach, begin, next}

module _ (os : Errors) (workers listen_fd fd n : ℕ) (buf : List ℕ) where
  connects : Event
  connects = record {
    fd = listen_fd;
    epollerr = false;
    epollin = true;
    accepts = client fd true ∷ no_client os.eagain ∷ [];
    reads = record { n = pos 0; errno = 0; buf = [] };
  }

  -- What `read` answers to the client's event.
  readable : ℤ → Event
  readable res = record {
    fd = fd;
    epollerr = false;
    epollin = true;
    accepts = [];
    reads = record { n = res; errno = 0; buf = buf };
  }

  accepted : Server
  accepted = register fd true (fresh listen_fd).server

  heard : Server
  heard = enqueue (echo fd (take (suc n) buf)) accepted

  ended : Server
  ended = give_up fd heard

  module _ (other : fd ≢ listen_fd) where
    accepts_it : handle_event os connects (fresh listen_fd).server ≡ some accepted
    unfolding handle_event accept_connection connects accepted
    accepts_it = ground arith

    hears_it : handle_event os (readable (pos (suc n))) accepted ≡ some heard
    unfolding handle_event handle_read readable accepted heard register
    hears_it = ground (arith, other)

    ends_it : handle_event os (readable (pos 0)) heard ≡ some ended
    unfolding handle_event handle_read readable accepted heard ended register enqueue
    ends_it = ground (arith, other)

    three_events : Reach os workers listen_fd (record { server = ended; hands = [] })
    unfolding connects readable accepted heard register enqueue
    three_events =
        next
          (next (next begin (event connects refl (λ h. absurd (h refl)) (refl, tt) accepts_it)) (
            event (readable (pos (suc n))) refl (λ _. update_self (λ _. false) fd true) tt
              hears_it))
          (event (readable (pos 0)) refl (λ _. update_self (λ _. false) fd true) tt ends_it)

    -- With two workers or more, and for every client and every message of it, there is a run
    -- without EPOLLERR (the client sends the message and ends, one worker takes the echo, another
    -- takes and finishes the close) at whose end a worker is still at the echo and the descriptor is
    -- closed.
    pub closed_while_echoing :
        2 ≤ workers
        → (s : System) × Reach os workers listen_fd s
          × (s.hands ≡ echo fd (take (suc n) buf) ∷ [])
          × (s.server.is_open fd ≡ false)
    unfolding ended heard accepted register give_up deregister enqueue execute close
    closed_while_echoing many = (
      _,
      next
          (next
            (next three_events (
              take_task (echo fd (take (suc n) buf)) (close_client fd ∷ []) [] [] refl refl
                (omega (arith, many))))
            (take_task (close_client fd) [] (echo fd (take (suc n) buf) ∷ []) [] refl refl
              (omega (arith, many))))
          (finish (echo fd (take (suc n) buf) ∷ []) [] (close_client fd) refl),
      refl,
      update_self ended.is_open fd false,
    )
