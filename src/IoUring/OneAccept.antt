-- ===== src/IoUring/OneAccept.antt =====
-- A batch of completions and the requests that wait for a connection.
use kernel_net.Prelude.{
  ℕ, ◌≡◌, refl, sym, ap, ◌∙◌, Bool, true, false, List, [], ◌∷◌, ◌++◌, Option, none, some, ◌>>=◌,
  arith, map, if◌then◌else◌, update_self,
}
use kernel_net.Uring.{Cqe, Platform}
use kernel_net.IoUring.{
  Op, accept, recv, send, Request, Server, release, store, submit_accept, handle_accept, dispatch,
  fill, handle_cqe, for_each_cqe, renew_accept,
}
use kernel_net.IoUring.Owners.{request_of}
use kernel_net.IoUring.Accepts.{kind, weigh, Waits, AllWait, store-Waits, release_accept-Waits}
use kernel_net.IoUring.Pending.{
  submit_accept-Waits, handle_accept-Waits, handle_accept_keeps, handle_recv-Waits,
  handle_send-Waits,
}

>>=-AllWait :
    (m : Option Server) (f : Server → Option Server) (mid others : List ℕ) (extra : ℕ)
    → AllWait m mid extra
    → ((t : Server) → m ≡ some t → Waits t mid extra → AllWait (f t) others 0)
    → AllWait (m >>= f) others 0
>>=-AllWait none f mid others extra all next = absurd all
>>=-AllWait (some t) f mid others extra w next = next t refl w

module _ (os : Platform) where
  -- The request `r` of a completion, whose operation is `op`.
  dispatch-Waits :
      {s : Server} {others : List ℕ} (op : Op) (c : Cqe) (r : Request)
      → Waits s (c.request ∷ others) 0
      → s.heap c.request ≡ some r
      → r.op ≡ op
      → AllWait (dispatch os op c (fill op c r s)) others 0
  unfolding dispatch fill weigh store
  dispatch-Waits {s} {others} accept c r w found is_op =
      let waits : kind (s.heap c.request) ≡ 1 = ground (arith, found, is_op) in
      let pending : s.accept_pending ≡ true = ground (arith, w.count, waits) in
      >>=-AllWait (handle_accept os c.res s) (release c.request) (c.request ∷ others) others 1
        (handle_accept-Waits os c.res w pending)
        (λ t e u. release_accept-Waits u (
          ap kind (
            handle_accept_keeps os s c.request r c.res t found (w.owned.fresh s.next (omega arith))
              e)
          ∙ ap kind (sym found)
          ∙ waits))
  dispatch-Waits {s} recv c r w found is_op =
      let quiet : kind (s.heap c.request) ≡ 0 = ground (arith, found, is_op) in
      let r' : Request = record r { buf = c.filled } in
      let same : kind (some r') ≡ 0 = ground (arith, is_op) in
      handle_recv-Waits os c.request c.res (store-Waits w r' (same ∙ sym quiet))
        (ap kind (update_self s.heap c.request (some r')) ∙ same)
  dispatch-Waits send c r w found is_op =
      handle_send-Waits os c.request w (ground (arith, found, is_op))

  handle_cqe-Waits :
      {s : Server} {others : List ℕ} (c : Cqe)
      → Waits s (c.request ∷ others) 0
      → AllWait (handle_cqe os c s) others 0
  unfolding handle_cqe
  handle_cqe-Waits c w =
      let (r, found) = request_of w.owned in rw found (dispatch-Waits r.op c r w found refl)

  pub for_each_cqe-Waits :
      {s : Server} (others : List ℕ) (cs : List Cqe)
      → Waits s (map (λ c. c.request) cs ++ others) 0
      → AllWait (for_each_cqe os cs s) others 0
  unfolding for_each_cqe
  for_each_cqe-Waits others [] w = w
  for_each_cqe-Waits others (c ∷ cs) w =
      >>=-AllWait (handle_cqe os c _) (for_each_cqe os cs) (map (λ c. c.request) cs ++ others)
        others 0 (handle_cqe-Waits c w) (λ t e u. for_each_cqe-Waits others cs u)

  unless_pending :
      (pending : Bool) {s : Server} {others : List ℕ}
      → s.accept_pending ≡ pending
      → Waits s others 0
      → AllWait (if pending then some s else submit_accept os s) others 0
  unless_pending true e w = w
  unless_pending false e w = submit_accept-Waits os w e

  pub renew_accept-Waits :
      {s : Server} {others : List ℕ} → Waits s others 0 → AllWait (renew_accept os s) others 0
  unfolding renew_accept
  renew_accept-Waits {s} w = unless_pending s.accept_pending refl w
