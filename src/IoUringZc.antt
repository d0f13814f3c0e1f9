-- ===== src/IoUringZc.antt =====
-- echo_server/flavors/iouring_zc/server.{h,cpp}: the same server as `IoUring`, with zero-copy sends. Each
-- operation in flight owns a heap-allocated Request, whose pointer travels to the kernel in the
-- submission entry and back in the completion entry. `none` stands for undefined behaviour: the use
-- or the release of a request that is not allocated. Messages to `std::cerr` are left out.
pub mod Notify
pub mod Translates
pub mod Alike
pub mod Run
mod Tests
use kernel_net.Prelude.{
  ℕ, zero, suc, ◌+◌, ◌≡◌, Bool, true, false, not, ◌&&◌, ◌||◌, List, [], ◌∷◌, ◌++◌, Option, none,
  some, ℤ, pos, negsuc, ◌>>=◌, ◌==◌, if◌then◌else◌, update, map, length,
}
use kernel_net.Uring.{Call, accept_on, recv_into, send_zc_from, Sqe, Cqe, Platform, is_errno}

-- `Request::Op`
pub data Op : Type 0 where
  accept recv send_zc : Op

-- `Request`; `buf` holds the bytes that the kernel has written.
pub record Request : Type 0 where
  pub op : Op
  pub client_fd : ℤ
  pub buf : List ℕ
  pub len : ℕ

-- The server with the heap of requests: `next` is the next pointer that `new` returns. `sq` holds
-- the entries prepared since the last submit, `closed` the descriptors closed, in order.
pub record Server : Type 0 where
  pub heap : ℕ → Option Request
  pub next : ℕ
  pub sq : List Sqe
  pub listen_fd : ℤ
  pub accept_pending : Bool
  pub closed : List ℤ

abbrev pub buf_size : ℕ
buf_size = 4096

unfoldable pub allocate : Request → Server → Server
allocate req s = record s { heap = update s.heap s.next (some req); next = suc s.next }

-- `delete req`
unfoldable pub release : ℕ → Server → Option Server
release p s = s.heap p >>= λ _. some (record s { heap = update s.heap p none })

unfoldable pub store : ℕ → Request → Server → Server
store p req s = record s { heap = update s.heap p (some req) }

unfoldable pub prepare : ℕ → Call → Server → Server
prepare p call s = record s { sq = s.sq ++ record { call = call; request = p } ∷ [] }

abbrev pub close : ℤ → Server → Server
close fd s = record s { closed = s.closed ++ fd ∷ [] }

-- Before a receive completes the kernel has filled the buffer.
unfoldable pub fill : Op → Cqe → Request → Server → Server
fill recv c r s = store c.request (record r { buf = c.filled }) s
fill _ c r s = s

-- `io_uring_submit` hands all prepared entries to the kernel.
pub record Turn : Type 0 where
  pub server : Server
  pub submitted : List Sqe

unfoldable pub submit : Server → Turn
submit s = record { server = record s { sq = [] }; submitted = s.sq }

-- The fields of a new server.
unfoldable pub constructed : ℤ → Server
constructed listen_fd = record {
  heap = λ _. none;
  next = 0;
  sq = [];
  listen_fd = listen_fd;
  accept_pending = false;
  closed = [];
}

-- What the constructor's calls answer, in their order; a negative answer is a failure.
pub record Calls : Type 0 where
  pub socket : ℤ
  pub bind : ℤ
  pub listen : ℤ
  pub queue_init : ℤ

-- The constructor throws, having closed some descriptors, or gives a server.
pub data Built : Type 0 where
  threw : (closed : List ℤ) → Built
  built : (server : Server) → Built

unfoldable pub init_ring : ℤ → ℤ → Built
init_ring listen_fd (pos _) = built (constructed listen_fd)
init_ring listen_fd (negsuc _) = threw (listen_fd ∷ [])

unfoldable pub listening : ℤ → ℤ → ℤ → Built
listening listen_fd (pos _) queue_init = init_ring listen_fd queue_init
listening listen_fd (negsuc _) queue_init = threw (listen_fd ∷ [])

unfoldable pub bound : ℤ → ℤ → ℤ → ℤ → Built
bound listen_fd (pos _) listen queue_init = listening listen_fd listen queue_init
bound listen_fd (negsuc _) listen queue_init = threw (listen_fd ∷ [])

unfoldable pub construct_from : ℤ → ℤ → ℤ → ℤ → Built
construct_from (pos fd) bind listen queue_init = bound (pos fd) bind listen queue_init
construct_from (negsuc _) bind listen queue_init = threw []

unfoldable pub construct : Calls → Built
construct c = construct_from c.socket c.bind c.listen c.queue_init

-- The server beside what the kernel has in flight.
pub record System : Type 0 where
  pub server : Server
  pub flying : List Sqe

module _ (os : Platform) where
  open os use {eagain, etime, eintr, sqe_left}

  unfoldable pub submit_accept : Server → Option Server
  submit_accept s =
      let req = s.next in
      let s' = allocate (record { op = accept; client_fd = negsuc 0; buf = []; len = 0 }) s in
      if sqe_left (length s'.sq)
      then some (record (prepare req (accept_on s'.listen_fd) s') { accept_pending = true })
      else release req s'

  unfoldable pub submit_recv : ℕ → Server → Option Server
  submit_recv req s = s.heap req >>= λ r.
      if sqe_left (length s.sq)
      then some (prepare req (recv_into r.client_fd buf_size) s)
      else release req s

  unfoldable pub submit_send_zc : ℕ → Server → Option Server
  submit_send_zc req s = s.heap req >>= λ r.
      if sqe_left (length s.sq)
      then some (prepare req (send_zc_from r.client_fd r.len) s)
      else release req s

  unfoldable pub handle_accept : ℤ → Server → Option Server
  handle_accept (negsuc _) s = some (record s { accept_pending = false })
  handle_accept (pos fd) s = submit_recv s.next (
      allocate (record { op = recv; client_fd = pos fd; buf = []; len = 0 })
        (record s { accept_pending = false }))

  unfoldable pub handle_recv : ℕ → ℤ → Server → Option Server
  handle_recv req (pos zero) s = s.heap req >>= λ r. release req (close r.client_fd s)
  handle_recv req (negsuc n) s =
      s.heap req >>= λ r. release req (if is_errno n eagain then s else close r.client_fd s)
  handle_recv req (pos (suc n)) s =
      s.heap req >>= λ r. submit_send_zc req (store req (record r { op = send_zc; len = suc n }) s)

  unfoldable pub handle_send_zc : ℕ → Server → Option Server
  handle_send_zc req s =
      s.heap req >>= λ r. submit_recv req (store req (record r { op = recv; len = 0 }) s)

  -- The `switch` of the event loop.
  unfoldable pub dispatch : Op → Cqe → Server → Option Server
  dispatch accept c s = handle_accept c.res s >>= release c.request
  dispatch recv c s = handle_recv c.request c.res s
  dispatch send_zc c s = handle_send_zc c.request s

  unfoldable pub handle_cqe : Cqe → Server → Option Server
  handle_cqe c s = s.heap c.request >>= λ r. dispatch r.op c (fill r.op c r s)

  -- `io_uring_for_each_cqe`
  unfoldable pub for_each_cqe : List Cqe → Server → Option Server
  for_each_cqe [] s = some s
  for_each_cqe (c ∷ cs) s = handle_cqe c s >>= for_each_cqe cs

  -- `if (!accept_pending_) submit_accept();`
  unfoldable pub renew_accept : Server → Option Server
  renew_accept s = if s.accept_pending then some s else submit_accept s

  -- Phase 2.
  unfoldable pub phase_two : Server → Option Turn
  phase_two s = renew_accept s >>= λ s'. some (submit s')

  -- One round of the loop, from the result of the wait; `none` within `some` is the `break`.
  unfoldable pub turn : ℤ → List Cqe → Server → Option (Option Turn)
  turn (pos zero) cqes s = for_each_cqe cqes s >>= λ s'. phase_two s' >>= λ t. some (some t)
  turn (pos (suc _)) cqes s = phase_two s >>= λ t. some (some t)
  turn (negsuc n) cqes s =
      if is_errno n etime || is_errno n eintr
      then (phase_two s >>= λ t. some (some t))
      else some none
