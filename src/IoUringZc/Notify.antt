-- ===== src/IoUringZc/Notify.antt =====
-- The second completion entry of a zero-copy send: the kernel posts one with the result of the
-- send, and later another, the notification, with the same user data and the result 0.
use kernel_net.Prelude.{
  length, ℕ, ◌≡◌, refl, true, [], ◌∷◌, ◌++◌, none, some, ℤ, pos, arith, update, update_self,
}
use kernel_net.Uring.{recv_into, Cqe, Platform}
use kernel_net.IoUringZc.{
  recv, send_zc, Request, Server, buf_size, release, store, prepare, submit_recv, handle_recv,
  handle_send_zc, dispatch, fill, handle_cqe, for_each_cqe,
}

-- The entry with the result of a send, and its notification.
abbrev pub sent : ℕ → ℤ → Cqe
sent p res = record { request = p; res = res; filled = [] }

abbrev pub notification : ℕ → Cqe
notification p = record { request = p; res = pos 0; filled = [] }

module _ (os : Platform) (s : Server) (p : ℕ) (r : Request) (owned : s.heap p ≡ some r) where
  -- What the client's request is once its send is done.
  waiting : Request
  waiting = record r { op = recv; len = 0 }

  after_sent : Server
  unfolding waiting
  after_sent = prepare p (recv_into r.client_fd buf_size) (store p waiting s)

  handle_cqe-sent :
      (res : ℤ)
      → r.op ≡ send_zc
      → os.sqe_left (length s.sq) ≡ true
      → handle_cqe os (sent p res) s ≡ some after_sent
  unfolding handle_cqe dispatch fill handle_send_zc submit_recv store prepare after_sent waiting
  handle_cqe-sent res is_send left = ground (arith, owned, left, is_send)

  -- The result of a zero-copy send followed by its notification closes the client's descriptor and
  -- releases its request, while an entry that receives into this request has been prepared, if an
  -- entry was left.
  pub notification_frees :
      (res : ℤ)
      → r.op ≡ send_zc
      → os.sqe_left (length s.sq) ≡ true
      → (t : Server) × (for_each_cqe os (sent p res ∷ notification p ∷ []) s ≡ some t)
        × (t.sq ≡ s.sq ++ record { call = recv_into r.client_fd buf_size; request = p } ∷ [])
        × (t.heap p ≡ none)
        × (t.closed ≡ s.closed ++ r.client_fd ∷ [])
  unfolding for_each_cqe handle_cqe dispatch fill handle_recv store prepare release after_sent
      waiting
  notification_frees res is_send left = (
    record after_sent {
      heap = update (update after_sent.heap p (some (record waiting { buf = [] }))) p none;
      closed = s.closed ++ r.client_fd ∷ [];
    },
    rw (handle_cqe-sent res is_send left, update_self s.heap p (some waiting))
        (rw (update_self (update s.heap p (some waiting)) p (some (record waiting { buf = [] })))
          refl),
    refl,
    update_self (update after_sent.heap p (some (record waiting { buf = [] }))) p none,
    refl,
  )
