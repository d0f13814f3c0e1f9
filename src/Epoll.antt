-- ===== src/Epoll.antt =====
-- echo_server/flavors/epoll/server.{h,cpp}: one network thread that waits for epoll events, accepts and
-- reads, and hands what it reads to the workers of a thread pool, which write it back. What the
-- kernel answers to a call is an input. `none` stands for a loop that has not ended with the answers
-- given. Messages to `std::cerr` are left out.
pub mod Write
pub mod Pool
pub mod Tended
pub mod Lifetime
pub mod Workers
pub mod Boot
pub mod Behind
pub mod Composed
pub mod Run
mod Tests
use kernel_net.Prelude.{
  ℕ, zero, suc, ◌+◌, Bool, true, false, ◌||◌, List, [], ◌∷◌, ◌++◌, Option, none, some, ℤ, pos,
  negsuc, ◌>>=◌, ◌==◌, ltb, if◌then◌else◌, update, length, take, drop,
}

-- The platform's error numbers.
pub record Errors : Type 0 where
  pub eagain : ℕ
  pub ewouldblock : ℕ

-- `errno == EAGAIN || errno == EWOULDBLOCK`
unfoldable pub would_block : Errors → ℕ → Bool
would_block os errno = errno == os.eagain || errno == os.ewouldblock

-- The two lambdas that are enqueued, with what they capture.
pub data Task : Type 0 where
  echo : (client_fd : ℕ) (buf : List ℕ) → Task
  close_client : (client_fd : ℕ) → Task

-- The server with its clients' descriptors, those that are open and those that epoll watches, and
-- the queue of the thread pool.
pub record Server : Type 0 where
  pub listen_fd : ℕ
  pub is_open : ℕ → Bool
  pub watched : ℕ → Bool
  pub tasks : List Task

-- `pool_.enqueue`
unfoldable pub enqueue : Task → Server → Server
enqueue t s = record s { tasks = s.tasks ++ t ∷ [] }

-- `epoll_ctl(epoll_fd_, EPOLL_CTL_DEL, client_fd, nullptr)`
unfoldable pub deregister : ℕ → Server → Server
deregister fd s = record s { watched = update s.watched fd false }

-- `close`, which also ends the watch.
unfoldable pub close : ℕ → Server → Server
close fd s = record s { is_open = update s.is_open fd false; watched = update s.watched fd false }

-- What `accept4` answers: a descriptor, with the success of the `epoll_ctl` that follows, or an
-- error.
pub data Accepted : Type 0 where
  client : (client_fd : ℕ) (added : Bool) → Accepted
  no_client : (errno : ℕ) → Accepted

-- One pass of the loop, with a client.
unfoldable pub register : ℕ → Bool → Server → Server
register fd true s = record s {
  is_open = update s.is_open fd true;
  watched = update s.watched fd true;
}
register fd false s = close fd (record s { is_open = update s.is_open fd true })

unfoldable pub accept_connection : List Accepted → Server → Option Server
accept_connection [] s = none
accept_connection (no_client errno ∷ answers) s = some s
accept_connection (client fd added ∷ answers) s = accept_connection answers (register fd added s)

-- `read` answers `n`, with an error number or with bytes in the buffer.
pub record Read : Type 0 where
  pub n : ℤ
  pub errno : ℕ
  pub buf : List ℕ

-- One event of `epoll_wait`, with what the calls of its handling answer.
pub record Event : Type 0 where
  pub fd : ℕ
  pub epollerr : Bool
  pub epollin : Bool
  pub accepts : List Accepted
  pub reads : Read

-- The two calls by which the network thread gives a descriptor up.
unfoldable pub give_up : ℕ → Server → Server
give_up fd s = enqueue (close_client fd) (deregister fd s)

-- What `write` answers.
pub data Written : Type 0 where
  wrote : (nw : ℕ) → Written
  write_failed : (errno : ℕ) → Written

module _ (os : Errors) where
  unfoldable pub handle_read : ℕ → ℤ → ℕ → List ℕ → Server → Server
  handle_read fd (pos zero) errno buf s = give_up fd s
  handle_read fd (negsuc _) errno buf s = if would_block os errno then s else give_up fd s
  handle_read fd (pos (suc n)) errno buf s = enqueue (echo fd (take (suc n) buf)) s

  -- The body of the `for` loop.
  unfoldable pub handle_event : Event → Server → Option Server
  handle_event e s =
      if e.epollerr
      then some (close e.fd s)
      else (if e.fd == s.listen_fd
          then accept_connection e.accepts s
          else (if e.epollin
              then some (handle_read e.fd e.reads.n e.reads.errno e.reads.buf s)
              else some s))

  unfoldable pub handle_events : List Event → Server → Option Server
  handle_events [] s = some s
  handle_events (e ∷ es) s = handle_event e s >>= handle_events es

  -- One round of the loop, from what `epoll_wait` answers; `none` within `some` is the `break`.
  unfoldable pub turn : ℤ → List Event → Server → Option (Option Server)
  turn (negsuc _) events s = some none
  turn (pos nfds) events s = handle_events (take nfds events) s >>= λ s'. some (some s')

  -- The loop of an echo task: `total_written` bytes are written, `sent` is what the kernel took.
  unfoldable pub write_loop : List Written → List ℕ → ℕ → List ℕ → Option (List ℕ)
  write_loop [] buf total_written sent = if ltb total_written (length buf) then none else some sent
  write_loop (wrote nw ∷ answers) buf total_written sent =
      let rest =
        write_loop answers buf (total_written + nw) (sent ++ take nw (drop total_written buf)) in
      if ltb total_written (length buf) then rest else some sent
  write_loop (write_failed errno ∷ answers) buf total_written sent =
      let rest = write_loop answers buf total_written sent in
      if ltb total_written (length buf)
      then (if would_block os errno then rest else some sent)
      else some sent

-- What the constructor's calls answer, in their order; a negative answer is a failure.
pub record Calls : Type 0 where
  pub socket : ℤ
  pub bind : ℤ
  pub listen : ℤ
  pub epoll_create : ℤ
  pub epoll_ctl : ℤ

-- The constructor throws, having closed some descriptors, or gives a server.
pub data Built : Type 0 where
  threw : (closed : List ℕ) → Built
  built : (server : Server) (epoll_fd : ℕ) → Built

abbrev pub succeeds : ℤ → Bool
succeeds (pos _) = true
succeeds (negsuc _) = false

unfoldable pub watch_listen : (listen_fd epoll_fd : ℕ) → Calls → Built
watch_listen listen_fd epoll_fd c =
    if succeeds c.epoll_ctl
    then built
        (record { listen_fd = listen_fd; is_open = λ _. false; watched = λ _. false; tasks = [] })
        epoll_fd
    else threw (listen_fd ∷ epoll_fd ∷ [])

unfoldable pub create_epoll : (listen_fd : ℕ) → ℤ → Calls → Built
create_epoll listen_fd (negsuc _) c = threw (listen_fd ∷ [])
create_epoll listen_fd (pos epoll_fd) c = watch_listen listen_fd epoll_fd c

unfoldable pub listening : ℤ → Calls → Built
listening (negsuc _) c = threw []
listening (pos listen_fd) c =
    if succeeds c.bind
    then (if succeeds c.listen
        then create_epoll listen_fd c.epoll_create c
        else threw (listen_fd ∷ []))
    else threw (listen_fd ∷ [])

unfoldable pub construct : Calls → Built
construct c = listening c.socket c
