-- ===== src/IoUring/Arrivals.antt =====
-- The completions of a round, and its new accept, keep the tally, when an entry is always
-- left and no receive fails with EAGAIN.
use kernel_net.Prelude.{
  ℕ, ◌+◌, ◌≡◌, refl, Bool, true, false, List, [], ◌∷◌, Option, none, some, ℤ, negsuc, ◌>>=◌,
  update_self, arith, if◌then◌else◌,
}
use kernel_net.Uring.{Cqe, Platform, is_errno}
use kernel_net.IoUring.{
  Op, accept, recv, send, Request, Server, allocate, store, fill, submit_accept, handle_recv,
  handle_send, dispatch, handle_cqe, for_each_cqe, renew_accept,
}
use kernel_net.IoUring.Room.{Left, OnResult, AlwaysLeft}
use kernel_net.IoUring.Tally.{
  of_client, Tallied, Tallies, allocate-Tallied, store-Tallied, prepare-Tallied,
}
use kernel_net.IoUring.Tallies.{
  same-Tallied, same-Tallies, find, accept-Tallies, recv-Tallies, send-Tallies,
}

-- The client that a completion brings.
abbrev pub arrival : ℕ → Op → ℤ → ℕ
arrival k accept res = of_client k res
arrival k recv res = 0
arrival k send res = 0

abbrev pub arrival_at : ℕ → ℤ → Option Request → ℕ
arrival_at k res none = 0
arrival_at k res (some r) = arrival k r.op res

module _ (os : Platform) where
  -- How often `accept` returns descriptor `k` among some completions.
  unfoldable pub arrivals : ℕ → List Cqe → Server → ℕ
  arrivals k [] s = 0
  arrivals k (c ∷ cs) s =
      arrival_at k c.res (s.heap c.request)
      + elim (handle_cqe os c s) [ none ↦ 0 | some t ↦ arrivals k cs t ]

  -- No result is -EAGAIN.
  abbrev pub NotAgain : List Cqe → Type 0
  NotAgain [] = Unit
  NotAgain (c ∷ cs) = ((n : ℕ) → c.res ≡ negsuc n → is_errno n os.eagain ≡ false) × NotAgain cs

module _ (os : Platform) where
  store_fill :
      {s : Server} {m : ℕ → ℕ} (c : Cqe) (r : Request)
      → Tallied s m
      → s.heap c.request ≡ some r
      → Tallied (store c.request (record r { buf = c.filled }) s) m
  store_fill c r t used = store-Tallied t c.request r (record r { buf = c.filled }) used (λ k. refl)

  filled :
      (s : Server) (c : Cqe) (r : Request)
      → (store c.request (record r { buf = c.filled }) s).heap c.request
        ≡ some (record r { buf = c.filled })
  unfolding store
  filled s c r = update_self s.heap c.request _

  dispatch-Tallies :
      {s : Server} {m : ℕ → ℕ} (op : Op) (c : Cqe) (r : Request)
      → Left os s
      → Tallied s m
      → s.heap c.request ≡ some r
      → r.op ≡ op
      → ((n : ℕ) → c.res ≡ negsuc n → is_errno n os.eagain ≡ false)
      → Tallies (dispatch os op c (fill op c r s)) (λ k. m k + arrival k op c.res)
  unfolding dispatch fill store
  dispatch-Tallies accept c r left t used op fails =
      accept-Tallies os c.request r c.res left t used op
  dispatch-Tallies {s} recv c r left t used op fails =
      same-Tallies
        (handle_recv os c.request c.res (store c.request (record r { buf = c.filled }) s))
        (recv-Tallies os c.request (record r { buf = c.filled }) c.res left (store_fill c r t used)
          (filled s c r) op fails)
        (λ k. omega arith)
  dispatch-Tallies {s} send c r left t used op fails =
      same-Tallies (handle_send os c.request s) (send-Tallies os c.request r left t used op)
        (λ k. omega arith)

  handle_cqe-Tallies :
      {s : Server} {m : ℕ → ℕ} (c : Cqe)
      → Left os s
      → Tallied s m
      → ((n : ℕ) → c.res ≡ negsuc n → is_errno n os.eagain ≡ false)
      → Tallies (handle_cqe os c s) (λ k. m k + arrival_at k c.res (s.heap c.request))
  unfolding handle_cqe
  handle_cqe-Tallies {s} {m} c left t fails =
      find (s.heap c.request) _ (λ h k. m k + arrival_at k c.res h)
        (λ r used. dispatch-Tallies r.op c r left t used refl fails)

  pub for_each_cqe-Tallies :
      (cqes : List Cqe) {s : Server} {m : ℕ → ℕ}
      → AlwaysLeft os cqes s
      → Tallied s m
      → NotAgain os cqes
      → Tallies (for_each_cqe os cqes s) (λ k. m k + arrivals os k cqes s)
  unfolding for_each_cqe arrivals
  for_each_cqe-Tallies [] room t fails = same-Tallied t (λ k. omega arith)
  for_each_cqe-Tallies (c ∷ cqes) {s} {m} (left, room) t (fails, others) =
      after (handle_cqe os c s) (handle_cqe-Tallies c left t fails) room
        (λ u roomy tallied. for_each_cqe-Tallies cqes roomy tallied others)
    where
      first : ℕ → ℕ
      first k = arrival_at k c.res (s.heap c.request)

      after :
          (o : Option Server)
          → Tallies o (λ k. m k + first k)
          → OnResult (AlwaysLeft os cqes) o
          → ((u : Server)
              → AlwaysLeft os cqes u
              → Tallied u (λ k. m k + first k)
              → Tallies (for_each_cqe os cqes u) (λ k. m k + first k + arrivals os k cqes u))
          → Tallies
              (o >>= for_each_cqe os cqes)
              (λ k. m k + (first k + elim o [ none ↦ 0 | some u ↦ arrivals os k cqes u ]))
      after none tallied room later = tt
      after (some u) tallied room later =
          same-Tallies (for_each_cqe os cqes u) (later u room tallied) (λ k. omega arith)

  pub submit_accept-Tallies :
      {s : Server} {m : ℕ → ℕ} → Left os s → Tallied s m → Tallies (submit_accept os s) m
  unfolding submit_accept allocate
  submit_accept-Tallies {s} left t = rw left (
      same-Tallied
        (waits (
          prepare-Tallied
            (allocate-Tallied t (record { op = accept; client_fd = negsuc 0; buf = []; len = 0 }))
            s.next _))
        (λ k. omega arith))
    where
      waits :
          {u : Server} {m' : ℕ → ℕ} → Tallied u m' → Tallied (record u { accept_pending = true }) m'
      waits u = record { fresh = u.fresh; tally = u.tally }

  pub renew_accept-Tallies :
      {s : Server} {m : ℕ → ℕ} → Left os s → Tallied s m → Tallies (renew_accept os s) m
  unfolding renew_accept
  renew_accept-Tallies {s} {m} left t = either s.accept_pending
    where
      either : (b : Bool) → Tallies (if b then some s else submit_accept os s) m
      either true = t
      either false = submit_accept-Tallies left t
