-- ===== src/IoUring/Tallies.antt =====
-- The handlers keep the tally, when an entry is left and no receive fails with EAGAIN.
use kernel_net.Prelude.{
  ℕ, zero, suc, ◌+◌, ◌≡◌, refl, sym, ap, ◌∙◌, false, [], Option, none, some, ℤ, pos, negsuc, ◌>>=◌,
  update_self, update_ne, arith,
}
use kernel_net.Uring.{recv_into, Platform, is_errno}
use kernel_net.IoUring.{
  accept, recv, send, Request, Server, allocate, release, store, prepare, buf_size, submit_recv,
  submit_send, handle_accept, handle_recv, handle_send,
}
use kernel_net.IoUring.Room.{Left}
use kernel_net.IoUring.Tally.{
  of_client, serves, Tallied, Tallies, used_below, allocate-Tallied, store-Tallied, release-Tallies,
  close-Tallied, prepare-Tallied,
}

pub same-Tallied : {s : Server} {m m' : ℕ → ℕ} → Tallied s m → ((k : ℕ) → m k ≡ m' k) → Tallied s m'
same-Tallied t same = record { fresh = t.fresh; tally = λ k. t.tally k ∙ same k }

pub same-Tallies :
    (o : Option Server) {m m' : ℕ → ℕ} → Tallies o m → ((k : ℕ) → m k ≡ m' k) → Tallies o m'
same-Tallies none t same = tt
same-Tallies (some s) t same = same-Tallied t same

pub find :
    (h : Option Request) (f : Request → Option Server) (m : Option Request → ℕ → ℕ)
    → ((r : Request) → h ≡ some r → Tallies (f r) (m (some r)))
    → Tallies (h >>= f) (m h)
find none f m each = tt
find (some r) f m each = each r refl

module _ (os : Platform) where
  submit_recv-Tallies :
      {s : Server} {m : ℕ → ℕ} (req : ℕ)
      → Left os s
      → Tallied s m
      → Tallies (submit_recv os req s) m
  unfolding submit_recv
  submit_recv-Tallies {s} {m} req left t =
      find (s.heap req) _ (λ _. m) (λ r used. rw (left) (prepare-Tallied t req _))

  submit_send-Tallies :
      {s : Server} {m : ℕ → ℕ} (req : ℕ)
      → Left os s
      → Tallied s m
      → Tallies (submit_send os req s) m
  unfolding submit_send
  submit_send-Tallies {s} {m} req left t =
      find (s.heap req) _ (λ _. m) (λ r used. rw (left) (prepare-Tallied t req _))

  abbrev receives : ℕ → Request
  receives fd = record { op = recv; client_fd = pos fd; buf = []; len = 0 }

  accepts_client :
      (fd : ℕ) (s : Server)
      → Left os s
      → handle_accept os (pos fd) s
        ≡ some (
            prepare s.next
              (recv_into (pos fd) buf_size)
              (allocate (receives fd) (record s { accept_pending = false })))
  unfolding handle_accept submit_recv allocate
  accepts_client fd s left = rw (update_self s.heap s.next (some (receives fd)), left) refl

  -- The flag is not part of the tally.
  unset : {s : Server} {m : ℕ → ℕ} → Tallied s m → Tallied (record s { accept_pending = false }) m
  unset t = record { fresh = t.fresh; tally = t.tally }

  -- The new request is not the one that waited.
  other :
      {s : Server} {m : ℕ → ℕ}
      → Tallied s m
      → (fd req : ℕ) (r : Request) → s.heap req ≡ some r
      → (prepare s.next
            (recv_into (pos fd) buf_size)
            (allocate (receives fd) (record s { accept_pending = false }))).heap
          req
        ≡ some r
  unfolding allocate prepare
  other {s} t fd req r used =
      let below = used_below s req r t.fresh used in
      update_ne s.heap s.next req (some (receives fd)) (λ e. omega (arith, below, e)) ∙ used

  pub accept-Tallies :
      {s : Server} {m : ℕ → ℕ} (req : ℕ) (r : Request) (res : ℤ)
      → Left os s
      → Tallied s m
      → s.heap req ≡ some r
      → r.op ≡ accept
      → Tallies (handle_accept os res s >>= release req) (λ k. m k + of_client k res)
  unfolding handle_accept
  accept-Tallies {s} {m} req r (negsuc n) left t used waits =
      release-Tallies (unset t) req r (λ k. m k + 0) used
        (λ k. omega (arith, ap (λ o. serves o k r.client_fd) waits))
  accept-Tallies {s} {m} req r (pos fd) left t used waits = rw (accepts_client fd s left) (
      release-Tallies (prepare-Tallied (allocate-Tallied (unset t) (receives fd)) s.next _) req r
        (λ k. m k + of_client k (pos fd)) (other t fd req r used)
        (λ k. omega (arith, ap (λ o. serves o k r.client_fd) waits)))

  pub recv-Tallies :
      {s : Server} {m : ℕ → ℕ} (req : ℕ) (r : Request) (res : ℤ)
      → Left os s
      → Tallied s m
      → s.heap req ≡ some r
      → r.op ≡ recv
      → ((n : ℕ) → res ≡ negsuc n → is_errno n os.eagain ≡ false)
      → Tallies (handle_recv os req res s) m
  unfolding handle_recv store
  recv-Tallies {m = m} req r (pos zero) left t used op fails = rw used (
      release-Tallies (close-Tallied t r.client_fd) req r m used
        (λ k. ap (λ o. m k + serves o k r.client_fd) (sym op)))
  recv-Tallies {m = m} req r (negsuc n) left t used op fails =
      rw (used, fails n refl)
        (release-Tallies (close-Tallied t r.client_fd) req r m used
          (λ k. ap (λ o. m k + serves o k r.client_fd) (sym op)))
  recv-Tallies req r (pos (suc n)) left t used op fails = rw used (
      submit_send-Tallies req left (
        store-Tallied t req r (record r { op = send; len = suc n }) used
          (λ k. ap (λ o. serves o k r.client_fd) (sym op))))

  pub send-Tallies :
      {s : Server} {m : ℕ → ℕ} (req : ℕ) (r : Request)
      → Left os s
      → Tallied s m
      → s.heap req ≡ some r
      → r.op ≡ send
      → Tallies (handle_send os req s) m
  unfolding handle_send store
  send-Tallies req r left t used op = rw used (
      submit_recv-Tallies req left (
        store-Tallied t req r (record r { op = recv; len = 0 }) used
          (λ k. ap (λ o. serves o k r.client_fd) (sym op))))
