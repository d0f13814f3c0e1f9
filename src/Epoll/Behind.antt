-- ===== src/Epoll/Behind.antt =====
-- Handling an event does not depend on the queue: it only appends to it.
use kernel_net.Prelude.{
  ℕ, zero, suc, ◌≡◌, refl, ap, Bool, true, false, List, [], ◌∷◌, ◌++◌, append_assoc, Option, none,
  some, ℤ, pos, negsuc, ◌==◌, take, if◌then◌else◌,
}
use kernel_net.Epoll.{
  Errors, would_block, Task, echo, close_client, Server, enqueue, deregister, close, give_up,
  Accepted, client, no_client, register, accept_connection, Event, handle_read, handle_event,
}
use kernel_net.Epoll.Pool.{execute, Unused}

-- The server with older tasks in front of its own.
abbrev pub behind : List Task → Server → Server
behind older s = record s { tasks = older ++ s.tasks }

abbrev pub option_behind : List Task → Option Server → Option Server
option_behind older none = none
option_behind older (some s) = some (behind older s)

module _ (older : List Task) where
  enqueue-behind : (t : Task) (s : Server) → enqueue t (behind older s) ≡ behind older (enqueue t s)
  unfolding enqueue
  enqueue-behind t s = ap (λ ts. record s { tasks = ts }) (append_assoc older s.tasks (t ∷ []))

  register-behind :
      (fd : ℕ) (added : Bool) (s : Server)
      → register fd added (behind older s) ≡ behind older (register fd added s)
  unfolding register close
  register-behind fd true s = refl
  register-behind fd false s = refl

  accept_connection-behind :
      (answers : List Accepted) (s : Server)
      → accept_connection answers (behind older s)
        ≡ option_behind older (accept_connection answers s)
  unfolding accept_connection
  accept_connection-behind [] s = refl
  accept_connection-behind (no_client errno ∷ answers) s = refl
  accept_connection-behind (client fd added ∷ answers) s =
      rw (register-behind fd added s) (accept_connection-behind answers (register fd added s))

  pub Unused-behind :
      (answers : List Accepted) (s : Server) → Unused answers s → Unused answers (behind older s)
  Unused-behind [] s unused = tt
  Unused-behind (no_client errno ∷ answers) s unused = tt
  Unused-behind (client fd added ∷ answers) s (free, others) =
      (free, rw (register-behind fd added s) (Unused-behind answers (register fd added s) others))

  pub execute-behind :
      (t : Task) (s : Server) → execute t (behind older s) ≡ behind older (execute t s)
  unfolding execute close
  execute-behind (echo fd buf) s = refl
  execute-behind (close_client fd) s = refl

  module _ (os : Errors) where
    give_up-behind :
        (fd : ℕ) (s : Server) → give_up fd (behind older s) ≡ behind older (give_up fd s)
    unfolding give_up deregister
    give_up-behind fd s = enqueue-behind (close_client fd) (deregister fd s)

    handle_read-behind :
        (fd : ℕ) (n : ℤ) (errno : ℕ) (buf : List ℕ) (s : Server)
        → handle_read os fd n errno buf (behind older s)
          ≡ behind older (handle_read os fd n errno buf s)
    unfolding handle_read
    handle_read-behind fd (pos zero) errno buf s = give_up-behind fd s
    handle_read-behind fd (pos (suc n)) errno buf s = enqueue-behind (echo fd (take (suc n) buf)) s
    handle_read-behind fd (negsuc n) errno buf s = either (would_block os errno)
      where
        either :
            (b : Bool)
            → (if b then behind older s else give_up fd (behind older s))
              ≡ behind older (if b then s else give_up fd s)
        either true = refl
        either false = give_up-behind fd s

    pub handle_event-behind :
        (e : Event) (s : Server)
        → handle_event os e (behind older s) ≡ option_behind older (handle_event os e s)
    unfolding handle_event close
    handle_event-behind e s = either e.epollerr (e.fd == s.listen_fd) e.epollin
      where
        either :
            (failed listens readable : Bool)
            → (if failed
                then some (close e.fd (behind older s))
                else (if listens
                    then accept_connection e.accepts (behind older s)
                    else (if readable
                        then some (
                            handle_read os e.fd e.reads.n e.reads.errno e.reads.buf
                              (behind older s))
                        else some (behind older s))))
              ≡ option_behind older (
                  if failed
                  then some (close e.fd s)
                  else (if listens
                      then accept_connection e.accepts s
                      else (if readable
                          then some (handle_read os e.fd e.reads.n e.reads.errno e.reads.buf s)
                          else some s)))
        either true listens readable = refl
        either false true readable = accept_connection-behind e.accepts s
        either false false true = ap some (handle_read-behind e.fd _ _ _ s)
        either false false false = refl
