-- ===== src/IoUring/Clients.antt =====
-- What becomes of one client at one completion.
use kernel_net.Prelude.{
  length, ℕ, zero, suc, ◌≡◌, refl, Bool, true, false, List, [], ◌∷◌, ◌++◌, none, some, ℤ, pos,
  negsuc, arith, update, update_self, if◌then◌else◌,
}
use kernel_net.Uring.{send_from, Platform, is_errno}
use kernel_net.IoUring.{
  recv, send, Request, Server, release, store, prepare, submit_send, handle_recv, dispatch, fill,
  handle_cqe,
}

-- The request that sends what was received.
abbrev pub echo_of : Request → List ℕ → ℕ → Request
echo_of r bytes n = record { op = send; client_fd = r.client_fd; buf = bytes; len = n }

abbrev pub positive : ℤ → Bool
positive (pos (suc _)) = true
positive _ = false

-- `res == -errno`
abbrev pub is_error : ℤ → ℕ → Bool
is_error (pos _) errno = false
is_error (negsuc n) errno = is_errno n errno

module _ (os : Platform) (s : Server) (p : ℕ) (r : Request) (owned : s.heap p ≡ some r) where
  -- When bytes have arrived for a client and an entry is left, the server prepares the send of as
  -- many bytes as arrived, to that client and from the buffer that holds them, and nothing else.
  pub recv_echoes :
      (n : ℕ) (bytes : List ℕ)
      → r.op ≡ recv
      → os.sqe_left (length s.sq) ≡ true
      → (t : Server) × (handle_cqe os (record { request = p; res = pos (suc n); filled = bytes }) s
          ≡ some t)
        × (t.sq ≡ s.sq ++ record { call = send_from r.client_fd (suc n); request = p } ∷ [])
        × (t.heap p ≡ some (echo_of r bytes (suc n)))
        × (t.closed ≡ s.closed)
  unfolding handle_cqe dispatch fill handle_recv submit_send store prepare
  recv_echoes n bytes is_recv left = (
    prepare p (send_from r.client_fd (suc n))
        (store p (echo_of r bytes (suc n)) (store p (record r { buf = bytes }) s)),
    ground (arith, owned, left, is_recv),
    refl,
    update_self (store p (record r { buf = bytes }) s).heap p (some (echo_of r bytes (suc n))),
    refl,
  )

  -- After a send the server waits for the client's next bytes, whatever the result of the send: a
  -- send that failed or took only a part of the bytes is not noticed.
  pub send_result_ignored :
      (res other : ℤ) (filled : List ℕ)
      → r.op ≡ send
      → handle_cqe os (record { request = p; res = res; filled = filled }) s
        ≡ handle_cqe os (record { request = p; res = other; filled = filled }) s
  unfolding handle_cqe dispatch fill
  send_result_ignored res other filled is_send = ground (arith, owned, is_send)

  -- A receive that ends the connection or fails releases the request and prepares nothing. The
  -- descriptor is closed, except when the error is EAGAIN: then the client stays connected and
  -- nothing refers to it any more.
  pub recv_failure :
      (res : ℤ) (filled : List ℕ)
      → r.op ≡ recv
      → positive res ≡ false
      → (t : Server) × (handle_cqe os (record { request = p; res = res; filled = filled }) s
          ≡ some t)
        × (t.sq ≡ s.sq)
        × (t.heap p ≡ none)
        × (t.closed ≡ (if is_error res os.eagain then s.closed else s.closed ++ r.client_fd ∷ []))
  unfolding handle_cqe dispatch fill handle_recv store release
  recv_failure (pos zero) filled is_recv failed = (
    record s {
      heap = update (update s.heap p (some (record r { buf = filled }))) p none;
      closed = s.closed ++ r.client_fd ∷ [];
    },
    ground (arith, owned, is_recv),
    refl,
    update_self (update s.heap p (some (record r { buf = filled }))) p none,
    refl,
  )
  recv_failure (pos (suc n)) filled is_recv failed = cc
  recv_failure (negsuc n) filled is_recv failed = (
    record s {
      heap = update (update s.heap p (some (record r { buf = filled }))) p none;
      closed = if is_errno n os.eagain then s.closed else s.closed ++ r.client_fd ∷ [];
    },
    ground (arith, owned, is_recv),
    refl,
    update_self (update s.heap p (some (record r { buf = filled }))) p none,
    refl,
  )

  -- Bytes that arrive when no submission entry is left are lost: the request is released, nothing
  -- is prepared and the client's descriptor is not closed.
  pub full_queue_forgets :
      (n : ℕ) (bytes : List ℕ)
      → r.op ≡ recv
      → os.sqe_left (length s.sq) ≡ false
      → (t : Server) × (handle_cqe os (record { request = p; res = pos (suc n); filled = bytes }) s
          ≡ some t)
        × (t.sq ≡ s.sq)
        × (t.heap p ≡ none)
        × (t.closed ≡ s.closed)
  unfolding handle_cqe dispatch fill handle_recv submit_send store release
  full_queue_forgets n bytes is_recv full = (
    record s {
      heap =
          update
            (update (update s.heap p (some (record r { buf = bytes }))) p
              (some (echo_of r bytes (suc n))))
            p none;
    },
    ground (arith, owned, full, is_recv),
    refl,
    update_self
        (update (update s.heap p (some (record r { buf = bytes }))) p
          (some (echo_of r bytes (suc n))))
        p none,
    refl,
  )
