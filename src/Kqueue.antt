-- ===== src/Kqueue.antt =====
-- echo_server/flavors/kqueue/server.{h,cpp}, on macOS: the echo server over kevent. Its state, its tasks
-- and the answers of accept, read and write are those of `Epoll`; `watched` are the descriptors with a
-- read filter. The `fcntl` calls that make a socket non-blocking are left out.
pub mod Same
pub mod Run
mod Tests
use kernel_net.Prelude.{
  ℕ, zero, suc, ◌+◌, Bool, true, false, List, [], ◌∷◌, ◌++◌, Option, none, some, ℤ, pos, negsuc,
  ◌>>=◌, ◌==◌, ltb, if◌then◌else◌, update, length, take, drop,
}
use kernel_net.Epoll.{
  Errors, would_block, Task, echo, close_client, Server, enqueue, close, Accepted, client,
  no_client, Read, Written, wrote, write_failed,
}

-- `EV_SET(&ev, client_fd, EVFILT_READ, EV_DELETE, ...)` and the `kevent` that applies it.
unfoldable pub delete_filter : ℕ → Server → Server
delete_filter fd s = record s { watched = update s.watched fd false }

-- A new client, with the success of the `kevent` that adds its filter.
unfoldable pub add_filter : ℕ → Bool → Server → Server
add_filter fd added s =
    let s' = record s { is_open = update s.is_open fd true } in
    if added then record s' { watched = update s'.watched fd true } else close fd s'

unfoldable pub accept_connection : List Accepted → Server → Option Server
accept_connection [] s = none
accept_connection (no_client errno ∷ answers) s = some s
accept_connection (client fd added ∷ answers) s = accept_connection answers (add_filter fd added s)

-- One event of `kevent`, with what the calls of its handling answer.
pub record Event : Type 0 where
  pub ident : ℕ
  pub ev_error : Bool
  pub filter : ℤ
  pub accepts : List Accepted
  pub reads : Read

-- `events[i].filter == EVFILT_READ`, which is -1 on macOS.
abbrev pub is_read : ℤ → Bool
is_read (pos _) = false
is_read (negsuc n) = n == 0

unfoldable pub hang_up : ℕ → Server → Server
hang_up fd s = enqueue (close_client fd) (delete_filter fd s)

module _ (os : Errors) where
  unfoldable pub handle_read : ℕ → ℤ → ℕ → List ℕ → Server → Server
  handle_read fd (pos zero) errno buf s = hang_up fd s
  handle_read fd (negsuc _) errno buf s = if would_block os errno then s else hang_up fd s
  handle_read fd (pos (suc n)) errno buf s = enqueue (echo fd (take (suc n) buf)) s

  -- The body of the `for` loop.
  unfoldable pub handle_event : Event → Server → Option Server
  handle_event e s =
      if e.ev_error
      then some (close e.ident s)
      else (if e.ident == s.listen_fd
          then accept_connection e.accepts s
          else (if is_read e.filter
              then some (handle_read e.ident e.reads.n e.reads.errno e.reads.buf s)
              else some s))

  unfoldable pub handle_events : List Event → Server → Option Server
  handle_events [] s = some s
  handle_events (e ∷ es) s = handle_event e s >>= handle_events es

  -- One round of the loop, from what `kevent` answers; `none` within `some` is the `break`.
  unfoldable pub turn : ℤ → List Event → Server → Option (Option Server)
  turn (negsuc _) events s = some none
  turn (pos nfds) events s = handle_events (take nfds events) s >>= λ s'. some (some s')

  -- The loop of an echo task: `total_written` bytes are written, `sent` is what the kernel took.
  unfoldable pub write_loop : List Written → List ℕ → ℕ → List ℕ → Option (List ℕ)
  write_loop [] buf total_written sent = if ltb total_written (length buf) then none else some sent
  write_loop (wrote nw ∷ answers) buf total_written sent =
      let rest =
        write_loop answers buf (total_written + nw) (sent ++ take nw (drop total_written buf)) in
      if ltb total_written (length buf) then rest else some sent
  write_loop (write_failed errno ∷ answers) buf total_written sent =
      let rest = write_loop answers buf total_written sent in
      if ltb total_written (length buf)
      then (if would_block os errno then rest else some sent)
      else some sent

-- What the constructor's calls answer, in their order; a negative answer is a failure.
pub record Calls : Type 0 where
  pub socket : ℤ
  pub bind : ℤ
  pub listen : ℤ
  pub kqueue_create : ℤ
  pub kevent_add : ℤ

-- The constructor throws, having closed some descriptors, or gives a server.
pub data Built : Type 0 where
  threw : (closed : List ℕ) → Built
  built : (server : Server) (kq : ℕ) → Built

abbrev pub succeeds : ℤ → Bool
succeeds (pos _) = true
succeeds (negsuc _) = false

unfoldable pub watch_listen : (listen_fd kq : ℕ) → Calls → Built
watch_listen listen_fd kq c =
    if succeeds c.kevent_add
    then built
        (record { listen_fd = listen_fd; is_open = λ _. false; watched = λ _. false; tasks = [] })
        kq
    else threw (listen_fd ∷ kq ∷ [])

unfoldable pub create_kqueue : (listen_fd : ℕ) → ℤ → Calls → Built
create_kqueue listen_fd (negsuc _) c = threw (listen_fd ∷ [])
create_kqueue listen_fd (pos kq) c = watch_listen listen_fd kq c

unfoldable pub listening : ℤ → Calls → Built
listening (negsuc _) c = threw []
listening (pos listen_fd) c =
    if succeeds c.bind
    then (if succeeds c.listen
        then create_kqueue listen_fd c.kqueue_create c
        else threw (listen_fd ∷ []))
    else threw (listen_fd ∷ [])

unfoldable pub construct : Calls → Built
construct c = listening c.socket c
