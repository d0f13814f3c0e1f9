-- ===== src/IoUring/Handlers.antt =====
-- The handlers and the ownership of requests.
use kernel_net.Prelude.{
  length, ℕ, zero, suc, Bool, true, false, List, [], ◌∷◌, ◌++◌, Option, none, some, ℤ, pos, negsuc,
  ◌>>=◌, Bool-cases, inl, inr, map, if◌then◌else◌,
}
use kernel_net.Uring.{Call, accept_on, recv_into, send_from, Cqe, Platform, is_errno}
use kernel_net.IoUring.{
  Op, accept, recv, send, Request, Server, buf_size, allocate, release, prepare, close,
  submit_accept, submit_recv, submit_send, handle_accept, handle_recv, handle_send, dispatch, fill,
  handle_cqe, for_each_cqe, renew_accept,
}
use kernel_net.IoUring.Owners.{
  Owned, Succeeds, request_of, release-Owned, prepare-Owned, store-Owned, allocate-Owned,
}

>>=-Succeeds :
    (m : Option Server) (f : Server → Option Server) (mid others : List ℕ)
    → Succeeds m mid
    → ((s : Server) → Owned s mid → Succeeds (f s) others)
    → Succeeds (m >>= f) others
>>=-Succeeds none f mid others ok next = absurd ok
>>=-Succeeds (some s) f mid others ok next = next s ok

close-Owned : {s : Server} {others : List ℕ} (fd : ℤ) → Owned s others → Owned (close fd s) others
close-Owned fd o = record { owned = o.owned; fresh = o.fresh }

pending-Owned :
    {s : Server} {others : List ℕ} (pending : Bool)
    → Owned s others
    → Owned (record s { accept_pending = pending }) others
pending-Owned pending o = record { owned = o.owned; fresh = o.fresh }

maybe_close-Owned :
    {s : Server} {others : List ℕ} (stay : Bool) (fd : ℤ)
    → Owned s others
    → Owned (if stay then s else close fd s) others
maybe_close-Owned true fd o = o
maybe_close-Owned false fd o = close-Owned fd o

-- With an entry left the request goes into it, and without one it is released.
give_or_release :
    (left : Bool) {s : Server} {others : List ℕ} (req : ℕ) (call : Call)
    → Owned s (req ∷ others)
    → Succeeds (if left then some (prepare req call s) else release req s) others
give_or_release true req call o = prepare-Owned o call
give_or_release false req call o = release-Owned o

module _ (os : Platform) where
  submit_recv-Owned :
      {s : Server} {others : List ℕ} (req : ℕ)
      → Owned s (req ∷ others)
      → Succeeds (submit_recv os req s) others
  unfolding submit_recv
  submit_recv-Owned {s} req o =
      let (r, found) = request_of o in
      rw (found, submit_recv)
        (give_or_release (os.sqe_left (length s.sq)) req (recv_into r.client_fd buf_size) o)

  submit_send-Owned :
      {s : Server} {others : List ℕ} (req : ℕ)
      → Owned s (req ∷ others)
      → Succeeds (submit_send os req s) others
  unfolding submit_send
  submit_send-Owned {s} req o =
      let (r, found) = request_of o in
      rw (found, submit_send)
        (give_or_release (os.sqe_left (length s.sq)) req (send_from r.client_fd r.len) o)

  pub submit_accept-Owned :
      {s : Server} {others : List ℕ} → Owned s others → Succeeds (submit_accept os s) others
  unfolding submit_accept allocate prepare release
  submit_accept-Owned {s} o = elim (Bool-cases (os.sqe_left (length s.sq))) [
    | inl left ↦ rw left (
        pending-Owned true (
          prepare-Owned
            (allocate-Owned (record { op = accept; client_fd = negsuc 0; buf = []; len = 0 }) o)
            (accept_on s.listen_fd)))
    | inr full ↦ rw full (
        release-Owned
          (allocate-Owned (record { op = accept; client_fd = negsuc 0; buf = []; len = 0 }) o))
  ]

  pub handle_accept-Owned :
      {s : Server} {others : List ℕ} (res : ℤ)
      → Owned s others
      → Succeeds (handle_accept os res s) others
  unfolding handle_accept
  handle_accept-Owned (negsuc n) o = pending-Owned false o
  handle_accept-Owned {s} (pos fd) o =
      submit_recv-Owned s.next (allocate-Owned _ (pending-Owned false o))

  handle_recv-Owned :
      {s : Server} {others : List ℕ} (req : ℕ) (res : ℤ)
      → Owned s (req ∷ others)
      → Succeeds (handle_recv os req res s) others
  unfolding handle_recv
  handle_recv-Owned req (pos zero) o =
      let (r, found) = request_of o in rw found (release-Owned (close-Owned r.client_fd o))
  handle_recv-Owned req (negsuc n) o =
      let (r, found) = request_of o in
      rw found (release-Owned (maybe_close-Owned (is_errno n os.eagain) r.client_fd o))
  handle_recv-Owned req (pos (suc n)) o =
      let (r, found) = request_of o in rw found (submit_send-Owned req (store-Owned o _))

  handle_send-Owned :
      {s : Server} {others : List ℕ} (req : ℕ)
      → Owned s (req ∷ others)
      → Succeeds (handle_send os req s) others
  unfolding handle_send
  handle_send-Owned req o =
      let (r, found) = request_of o in rw found (submit_recv-Owned req (store-Owned o _))

  dispatch-Owned :
      {s : Server} {others : List ℕ} (op : Op) (c : Cqe)
      → Owned s (c.request ∷ others)
      → Succeeds (dispatch os op c s) others
  unfolding dispatch
  dispatch-Owned {s} {others} accept c o =
      >>=-Succeeds (handle_accept os c.res s) (release c.request) (c.request ∷ others) others
        (handle_accept-Owned c.res o) (λ t p. release-Owned p)
  dispatch-Owned recv c o = handle_recv-Owned c.request c.res o
  dispatch-Owned send c o = handle_send-Owned c.request o

  fill-Owned :
      {s : Server} {others : List ℕ} (op : Op) (c : Cqe) (r : Request)
      → Owned s (c.request ∷ others)
      → Owned (fill op c r s) (c.request ∷ others)
  unfolding fill
  fill-Owned accept c r o = o
  fill-Owned recv c r o = store-Owned o _
  fill-Owned send c r o = o

  -- A completion whose request is owned is handled without use of a released request.
  pub handle_cqe-Owned :
      {s : Server} {others : List ℕ} (c : Cqe)
      → Owned s (c.request ∷ others)
      → Succeeds (handle_cqe os c s) others
  unfolding handle_cqe
  handle_cqe-Owned c o =
      let (r, found) = request_of o in rw found (dispatch-Owned r.op c (fill-Owned r.op c r o))

  pub for_each_cqe-Owned :
      {s : Server} (others : List ℕ) (cs : List Cqe)
      → Owned s (map (λ c. c.request) cs ++ others)
      → Succeeds (for_each_cqe os cs s) others
  unfolding for_each_cqe
  for_each_cqe-Owned others [] o = o
  for_each_cqe-Owned {s} others (c ∷ cs) o =
      >>=-Succeeds (handle_cqe os c s) (for_each_cqe os cs) (map (λ c. c.request) cs ++ others)
        others (handle_cqe-Owned c o) (λ t p. for_each_cqe-Owned others cs p)

  unless_pending :
      (pending : Bool) {s : Server} {others : List ℕ}
      → Owned s others
      → Succeeds (if pending then some s else submit_accept os s) others
  unless_pending true o = o
  unless_pending false o = submit_accept-Owned o

  pub renew_accept-Owned :
      {s : Server} {others : List ℕ} → Owned s others → Succeeds (renew_accept os s) others
  unfolding renew_accept
  renew_accept-Owned {s} o = unless_pending s.accept_pending o
