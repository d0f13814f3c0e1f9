-- ===== src/IoUringZc/Alike.antt =====
-- Step by step the zero-copy server does what the io_uring server does, with its sends zero-copy.
use kernel_net.Prelude.{
  ℕ, zero, suc, ◌≡◌, refl, ap, ◌∙◌, Bool, true, false, ◌||◌, List, [], ◌∷◌, Option, none, some, ℤ,
  pos, negsuc, ◌>>=◌, if◌then◌else◌, map, length, length-map,
}
use kernel_net.Uring.{accept_on, recv_into, send_from, Cqe, Platform, is_errno}
use kernel_net.IoUring
use kernel_net.IoUring.{Op, accept, recv, send, Request, Server, Turn}
use kernel_net.IoUringZc
use kernel_net.IoUringZc.{send_zc}
use kernel_net.IoUringZc.Translates.{
  as_op, as_request, as_sqe, as_server, as_result, as_turned, lookup, follow, branch, allocate_same,
  store_same, release_same, prepare_same,
}

module _ (os : Platform) where
  -- With its request allocated.
  queued :
      (req : ℕ) (u : Server)
      → (if os.sqe_left (length (map as_sqe u.sq))
          then some (record (IoUringZc.prepare req (accept_on u.listen_fd) (as_server u)) {
            accept_pending = true;
          })
          else IoUringZc.release req (as_server u))
        ≡ as_result (
            if os.sqe_left (length u.sq)
            then some
                (record (IoUring.prepare req (accept_on u.listen_fd) u) { accept_pending = true })
            else IoUring.release req u)
  queued req u = rw (length-map as_sqe u.sq) (
      branch (os.sqe_left (length u.sq)) (some _) (IoUring.release req u)
        (ap (λ (t : IoUringZc.Server). some (record t { accept_pending = true }))
          (prepare_same req (accept_on u.listen_fd) u))
        (release_same req u))

  pub submit_accept_alike :
      (s : Server)
      → IoUringZc.submit_accept os (as_server s) ≡ as_result (IoUring.submit_accept os s)
  unfolding IoUringZc.submit_accept IoUring.submit_accept
  submit_accept_alike s =
      rw (allocate_same (record { op = accept; client_fd = negsuc 0; buf = []; len = 0 }) s) (
        queued s.next
          (IoUring.allocate (record { op = accept; client_fd = negsuc 0; buf = []; len = 0 }) s))

  submit_recv_alike :
      (req : ℕ) (s : Server)
      → IoUringZc.submit_recv os req (as_server s) ≡ as_result (IoUring.submit_recv os req s)
  unfolding IoUringZc.submit_recv IoUring.submit_recv
  submit_recv_alike req s = lookup (s.heap req) _ _ (λ r. rw (length-map as_sqe s.sq) (
      branch (os.sqe_left (length s.sq)) (some _) (IoUring.release req s)
        (ap some (prepare_same req (recv_into r.client_fd IoUring.buf_size) s))
        (release_same req s)))

  submit_send_alike :
      (req : ℕ) (s : Server)
      → IoUringZc.submit_send_zc os req (as_server s) ≡ as_result (IoUring.submit_send os req s)
  unfolding IoUringZc.submit_send_zc IoUring.submit_send
  submit_send_alike req s = lookup (s.heap req) _ _ (λ r. rw (length-map as_sqe s.sq) (
      branch (os.sqe_left (length s.sq)) (some _) (IoUring.release req s)
        (ap some (prepare_same req (send_from r.client_fd r.len) s)) (release_same req s)))

  handle_accept_alike :
      (res : ℤ) (s : Server)
      → IoUringZc.handle_accept os res (as_server s) ≡ as_result (IoUring.handle_accept os res s)
  unfolding IoUringZc.handle_accept IoUring.handle_accept
  handle_accept_alike (negsuc n) s = refl
  handle_accept_alike (pos fd) s =
      ap (IoUringZc.submit_recv os s.next) (
        allocate_same (record { op = recv; client_fd = pos fd; buf = []; len = 0 })
          (record s { accept_pending = false }))
      ∙ submit_recv_alike s.next _

  handle_recv_alike :
      (req : ℕ) (res : ℤ) (s : Server)
      → IoUringZc.handle_recv os req res (as_server s)
        ≡ as_result (IoUring.handle_recv os req res s)
  unfolding IoUringZc.handle_recv IoUring.handle_recv
  handle_recv_alike req (pos zero) s =
      lookup (s.heap req) _ _ (λ r. release_same req (IoUring.close r.client_fd s))
  handle_recv_alike req (negsuc n) s =
      lookup (s.heap req) _ _ (λ r. closes r.client_fd (is_errno n os.eagain))
    where
      closes :
          (fd : ℤ) (b : Bool)
          → IoUringZc.release req (if b then as_server s else IoUringZc.close fd (as_server s))
            ≡ as_result (IoUring.release req (if b then s else IoUring.close fd s))
      closes fd true = release_same req s
      closes fd false = release_same req (IoUring.close fd s)
  handle_recv_alike req (pos (suc n)) s = lookup (s.heap req) _ _ (λ r.
      ap (IoUringZc.submit_send_zc os req) (store_same req (record r { op = send; len = suc n }) s)
      ∙ submit_send_alike req _)

  handle_send_alike :
      (req : ℕ) (s : Server)
      → IoUringZc.handle_send_zc os req (as_server s) ≡ as_result (IoUring.handle_send os req s)
  unfolding IoUringZc.handle_send_zc IoUring.handle_send
  handle_send_alike req s = lookup (s.heap req) _ _ (λ r.
      ap (IoUringZc.submit_recv os req) (store_same req (record r { op = recv; len = 0 }) s)
      ∙ submit_recv_alike req _)

  fill_alike :
      (op : Op) (c : Cqe) (r : Request) (s : Server)
      → IoUringZc.fill (as_op op) c (as_request r) (as_server s) ≡ as_server (IoUring.fill op c r s)
  unfolding IoUringZc.fill IoUring.fill
  fill_alike accept c r s = refl
  fill_alike recv c r s = store_same c.request (record r { buf = c.filled }) s
  fill_alike send c r s = refl

  dispatch_alike :
      (op : Op) (c : Cqe) (s : Server)
      → IoUringZc.dispatch os (as_op op) c (as_server s) ≡ as_result (IoUring.dispatch os op c s)
  unfolding IoUringZc.dispatch IoUring.dispatch
  dispatch_alike accept c s =
      ap (λ r. r >>= IoUringZc.release c.request) (handle_accept_alike c.res s)
      ∙ follow (IoUring.handle_accept os c.res s) _ _ (release_same c.request)
  dispatch_alike recv c s = handle_recv_alike c.request c.res s
  dispatch_alike send c s = handle_send_alike c.request s

  handle_cqe_alike :
      (c : Cqe) (s : Server)
      → IoUringZc.handle_cqe os c (as_server s) ≡ as_result (IoUring.handle_cqe os c s)
  unfolding IoUringZc.handle_cqe IoUring.handle_cqe
  handle_cqe_alike c s = lookup (s.heap c.request) _ _ (λ r.
      ap (IoUringZc.dispatch os (as_op r.op) c) (fill_alike r.op c r s) ∙ dispatch_alike r.op c _)

  for_each_cqe_alike :
      (cqes : List Cqe) (s : Server)
      → IoUringZc.for_each_cqe os cqes (as_server s) ≡ as_result (IoUring.for_each_cqe os cqes s)
  unfolding IoUringZc.for_each_cqe IoUring.for_each_cqe
  for_each_cqe_alike [] s = refl
  for_each_cqe_alike (c ∷ cqes) s =
      ap (λ r. r >>= IoUringZc.for_each_cqe os cqes) (handle_cqe_alike c s)
      ∙ follow (IoUring.handle_cqe os c s) _ _ (for_each_cqe_alike cqes)

  renew_accept_alike :
      (s : Server) → IoUringZc.renew_accept os (as_server s) ≡ as_result (IoUring.renew_accept os s)
  unfolding IoUringZc.renew_accept IoUring.renew_accept
  renew_accept_alike s =
      branch s.accept_pending (some s) (IoUring.submit_accept os s) refl (submit_accept_alike s)

  -- What phase 2 leaves, from the server that has renewed its accept.
  submits :
      (r : Option Server)
      → ((as_result r >>= λ s. some (IoUringZc.submit s)) >>= λ t. some (some t))
        ≡ as_turned ((r >>= λ s. some (IoUring.submit s)) >>= λ t. some (some t))
  unfolding IoUringZc.submit IoUring.submit
  submits none = refl
  submits (some s) = refl

  phase_two_alike :
      (s : Server)
      → (IoUringZc.phase_two os (as_server s) >>= λ t. some (some t))
        ≡ as_turned (IoUring.phase_two os s >>= λ t. some (some t))
  unfolding IoUringZc.phase_two IoUring.phase_two
  phase_two_alike s =
      ap (λ r. (r >>= λ s. some (IoUringZc.submit s)) >>= λ t. some (some t)) (renew_accept_alike s)
      ∙ submits (IoUring.renew_accept os s)

  -- From the same answers of the kernel, a round of the zero-copy server's loop does what a round
  -- of the io_uring server's does, with each send prepared as a zero-copy send, also when the
  -- loop is left and when a request is used that is not allocated.
  pub turn_alike :
      (ret : ℤ) (cqes : List Cqe) (s : Server)
      → IoUringZc.turn os ret cqes (as_server s) ≡ as_turned (IoUring.turn os ret cqes s)
  unfolding IoUringZc.turn IoUring.turn
  turn_alike (pos zero) cqes s =
      ap (λ r. r >>= λ s'. IoUringZc.phase_two os s' >>= λ t. some (some t))
        (for_each_cqe_alike cqes s)
      ∙ after (IoUring.for_each_cqe os cqes s)
    where
      after :
          (r : Option Server)
          → (as_result r >>= λ s'. IoUringZc.phase_two os s' >>= λ t. some (some t))
            ≡ as_turned (r >>= λ s'. IoUring.phase_two os s' >>= λ t. some (some t))
      after none = refl
      after (some s) = phase_two_alike s
  turn_alike (pos (suc n)) cqes s = phase_two_alike s
  turn_alike (negsuc n) cqes s = either (is_errno n os.etime || is_errno n os.eintr)
    where
      either :
          (b : Bool)
          → (if b then (IoUringZc.phase_two os (as_server s) >>= λ t. some (some t)) else some none)
            ≡ as_turned (if b then (IoUring.phase_two os s >>= λ t. some (some t)) else some none)
      either true = phase_two_alike s
      either false = refl
