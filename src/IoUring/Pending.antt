-- ===== src/IoUring/Pending.antt =====
-- The handlers and the requests that wait for a connection.
use kernel_net.Prelude.{
  length, ℕ, zero, suc, ◌≡◌, ◌≢◌, refl, sym, ap, ◌∙◌, subst, Bool, true, false, List, [], ◌∷◌, none,
  some, ℤ, pos, negsuc, Bool-cases, inl, inr, arith, if◌then◌else◌, update_self,
}
use kernel_net.Uring.{Call, accept_on, recv_into, send_from, Platform, is_errno}
use kernel_net.IoUring.{
  accept, recv, send, Request, Server, buf_size, allocate, release, store, prepare, close,
  submit_accept, submit_recv, submit_send, handle_accept, handle_recv, handle_send,
}
use kernel_net.IoUring.Owners.{request_of}
use kernel_net.IoUring.Accepts.{
  kind, Waits, AllWait, prepare-Waits, store-Waits, release-Waits, release_accept-Waits,
  allocate-Waits, close-Waits, completed-Waits, prepared-Waits,
}

give_or_release-Waits :
    (left : Bool) {s : Server} {others : List ℕ} {extra : ℕ} (req : ℕ) (call : Call)
    → Waits s (req ∷ others) extra
    → kind (s.heap req) ≡ 0
    → AllWait (if left then some (prepare req call s) else release req s) others extra
give_or_release-Waits true req call w quiet = prepare-Waits w call
give_or_release-Waits false req call w quiet = release-Waits w quiet

maybe_close-Waits :
    {s : Server} {others : List ℕ} {extra : ℕ} (stay : Bool) (fd : ℤ)
    → Waits s others extra
    → Waits (if stay then s else close fd s) others extra
maybe_close-Waits true fd w = w
maybe_close-Waits false fd w = close-Waits fd w

heap_if : (stay : Bool) (fd : ℤ) (s : Server) → (if stay then s else close fd s).heap ≡ s.heap
heap_if true fd s = refl
heap_if false fd s = refl

module _ (os : Platform) where
  submit_recv-Waits :
      {s : Server} {others : List ℕ} {extra : ℕ} (req : ℕ)
      → Waits s (req ∷ others) extra
      → kind (s.heap req) ≡ 0
      → AllWait (submit_recv os req s) others extra
  unfolding submit_recv
  submit_recv-Waits {s} req w quiet =
      let (r, found) = request_of w.owned in
      rw (found, submit_recv)
        (give_or_release-Waits (os.sqe_left (length s.sq)) req (recv_into r.client_fd buf_size) w
          quiet)

  submit_send-Waits :
      {s : Server} {others : List ℕ} {extra : ℕ} (req : ℕ)
      → Waits s (req ∷ others) extra
      → kind (s.heap req) ≡ 0
      → AllWait (submit_send os req s) others extra
  unfolding submit_send
  submit_send-Waits {s} req w quiet =
      let (r, found) = request_of w.owned in
      rw (found, submit_send)
        (give_or_release-Waits (os.sqe_left (length s.sq)) req (send_from r.client_fd r.len) w
          quiet)

  pub submit_accept-Waits :
      {s : Server} {others : List ℕ}
      → Waits s others 0
      → s.accept_pending ≡ false
      → AllWait (submit_accept os s) others 0
  unfolding submit_accept allocate prepare
  submit_accept-Waits {s} w idle =
      let r : Request = record { op = accept; client_fd = negsuc 0; buf = []; len = 0 } in
      elim (Bool-cases (os.sqe_left (length s.sq))) [
        | inl left ↦
            rw left
              (prepared-Waits (prepare-Waits (allocate-Waits r w) (accept_on s.listen_fd)) idle)
        | inr full ↦ rw full (
            release_accept-Waits (allocate-Waits r w)
              (ap kind (update_self s.heap s.next (some r))))
      ]

  pub handle_accept-Waits :
      {s : Server} {others : List ℕ} (res : ℤ)
      → Waits s others 0
      → s.accept_pending ≡ true
      → AllWait (handle_accept os res s) others 1
  unfolding handle_accept allocate
  handle_accept-Waits (negsuc n) w pending = completed-Waits w pending
  handle_accept-Waits {s} (pos fd) w pending =
      let r : Request = record { op = recv; client_fd = pos fd; buf = []; len = 0 } in
      submit_recv-Waits s.next (allocate-Waits r (completed-Waits w pending))
        (ap kind (update_self s.heap s.next (some r)))

  pub handle_accept_keeps :
      (s : Server) (p : ℕ) (r : Request) (res : ℤ) (t : Server)
      → s.heap p ≡ some r
      → s.heap s.next ≡ none
      → handle_accept os res s ≡ some t
      → t.heap p ≡ some r
  unfolding handle_accept submit_recv allocate prepare release
  handle_accept_keeps s p r (negsuc n) t found free e = ground (arith, e, found)
  handle_accept_keeps s p r (pos fd) t found free e =
      let other : s.next ≢ p =
        λ same. ground (arith, subst (λ q. s.heap q ≡ none) same free, found) in
      elim (Bool-cases (os.sqe_left (length s.sq))) [
        | inl left ↦ ground (arith, e, found, other, left)
        | inr full ↦ ground (arith, e, found, other, full)
      ]

  pub handle_recv-Waits :
      {s : Server} {others : List ℕ} {extra : ℕ} (req : ℕ) (res : ℤ)
      → Waits s (req ∷ others) extra
      → kind (s.heap req) ≡ 0
      → AllWait (handle_recv os req res s) others extra
  unfolding handle_recv store
  handle_recv-Waits req (pos zero) w quiet =
      let (r, found) = request_of w.owned in
      rw found (release-Waits (close-Waits r.client_fd w) quiet)
  handle_recv-Waits {s} req (negsuc n) w quiet =
      let (r, found) = request_of w.owned in
      rw found (
        release-Waits (maybe_close-Waits (is_errno n os.eagain) r.client_fd w)
          (ap (λ h. kind (h req)) (heap_if (is_errno n os.eagain) r.client_fd s) ∙ quiet))
  handle_recv-Waits {s} req (pos (suc n)) w quiet =
      let (r, found) = request_of w.owned in
      let r' : Request = record r { op = send; len = suc n } in
      rw found (
        submit_send-Waits req (store-Waits w r' (sym quiet))
          (ap kind (update_self s.heap req (some r'))))

  pub handle_send-Waits :
      {s : Server} {others : List ℕ} {extra : ℕ} (req : ℕ)
      → Waits s (req ∷ others) extra
      → kind (s.heap req) ≡ 0
      → AllWait (handle_send os req s) others extra
  unfolding handle_send store
  handle_send-Waits {s} req w quiet =
      let (r, found) = request_of w.owned in
      let r' : Request = record r { op = recv; len = 0 } in
      rw found (
        submit_recv-Waits req (store-Waits w r' (sym quiet))
          (ap kind (update_self s.heap req (some r'))))
