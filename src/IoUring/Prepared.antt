-- ===== src/IoUring/Prepared.antt =====
-- How many submission entries the completions of a round take.
use kernel_net.Prelude.{
  ℕ, zero, suc, ◌≤◌, ◌≡◌, refl, ap, subst, Bool, true, false, ◌||◌, List, [], ◌∷◌, Option, none,
  some, ℤ, pos, negsuc, ◌>>=◌, length, length-append, arith, if◌then◌else◌,
}
use kernel_net.Uring.{Call, accept_on, Cqe, Platform, is_errno}
use kernel_net.IoUring.{
  Op, accept, recv, send, Request, Server, System, Turn, constructed, allocate, release, store,
  prepare, fill, close, submit, submit_accept, submit_recv, submit_send, handle_accept, handle_recv,
  handle_send, dispatch, handle_cqe, for_each_cqe, renew_accept, phase_two, turn,
}
use kernel_net.IoUring.Loop.{Reach, begin, round}
use kernel_net.IoUring.Room.{OnResult}

-- At most so many entries are prepared in this state.
abbrev pub Prepared : ℕ → Server → Type 0
Prepared n s = length s.sq ≤ n

prepare-Prepared :
    (n : ℕ) (p : ℕ) (call : Call) (s : Server) → Prepared n s → Prepared (suc n) (prepare p call s)
unfolding prepare
prepare-Prepared n p call s few =
    omega (arith, few, length-append s.sq (record { call = call; request = p } ∷ []))

then_on :
    (n : ℕ) (o : Option Request) (f : Request → Option Server)
    → ((r : Request) → OnResult (Prepared n) (f r))
    → OnResult (Prepared n) (o >>= f)
then_on n none f each = tt
then_on n (some r) f each = each r

release-Prepared : (n p : ℕ) (s : Server) → Prepared n s → OnResult (Prepared n) (release p s)
unfolding release
release-Prepared n p s few = then_on n (s.heap p) _ (λ r. few)

either-Prepared :
    (left : Bool) (n p : ℕ) (call : Call) (s : Server)
    → Prepared n s
    → OnResult (Prepared (suc n)) (if left then some (prepare p call s) else release p s)
either-Prepared true n p call s few = prepare-Prepared n p call s few
either-Prepared false n p call s few = release-Prepared (suc n) p s (omega (arith, few))

then_release :
    (n p : ℕ) (o : Option Server)
    → OnResult (Prepared n) o
    → OnResult (Prepared n) (o >>= release p)
then_release n p none few = tt
then_release n p (some s) few = release-Prepared n p s few

module _ (os : Platform) where
  submit_recv-Prepared :
      (n p : ℕ) (s : Server) → Prepared n s → OnResult (Prepared (suc n)) (submit_recv os p s)
  unfolding submit_recv
  submit_recv-Prepared n p s few =
      then_on (suc n) (s.heap p) _ (λ r. either-Prepared (os.sqe_left (length s.sq)) n p _ s few)

  submit_send-Prepared :
      (n p : ℕ) (s : Server) → Prepared n s → OnResult (Prepared (suc n)) (submit_send os p s)
  unfolding submit_send
  submit_send-Prepared n p s few =
      then_on (suc n) (s.heap p) _ (λ r. either-Prepared (os.sqe_left (length s.sq)) n p _ s few)

  handle_accept-Prepared :
      (n : ℕ) (res : ℤ) (s : Server)
      → Prepared n s
      → OnResult (Prepared (suc n)) (handle_accept os res s)
  unfolding handle_accept allocate
  handle_accept-Prepared n (negsuc _) s few = omega (arith, few)
  handle_accept-Prepared n (pos fd) s few = submit_recv-Prepared n s.next _ few

  handle_recv-Prepared :
      (n p : ℕ) (res : ℤ) (s : Server)
      → Prepared n s
      → OnResult (Prepared (suc n)) (handle_recv os p res s)
  unfolding handle_recv store
  handle_recv-Prepared n p (pos zero) s few =
      then_on (suc n) (s.heap p) _
        (λ r. release-Prepared (suc n) p (close r.client_fd s) (omega (arith, few)))
  handle_recv-Prepared n p (negsuc m) s few =
      then_on (suc n) (s.heap p) _ (λ r. either r (is_errno m os.eagain))
    where
      either :
          (r : Request) (b : Bool)
          → OnResult (Prepared (suc n)) (release p (if b then s else close r.client_fd s))
      either r true = release-Prepared (suc n) p s (omega (arith, few))
      either r false = release-Prepared (suc n) p (close r.client_fd s) (omega (arith, few))
  handle_recv-Prepared n p (pos (suc m)) s few =
      then_on (suc n) (s.heap p) _ (λ r. submit_send-Prepared n p _ few)

  handle_send-Prepared :
      (n p : ℕ) (s : Server) → Prepared n s → OnResult (Prepared (suc n)) (handle_send os p s)
  unfolding handle_send store
  handle_send-Prepared n p s few =
      then_on (suc n) (s.heap p) _ (λ r. submit_recv-Prepared n p _ few)

  dispatch-Prepared :
      (n : ℕ) (op : Op) (c : Cqe) (r : Request) (s : Server)
      → Prepared n s
      → OnResult (Prepared (suc n)) (dispatch os op c (fill op c r s))
  unfolding dispatch fill store
  dispatch-Prepared n accept c r s few =
      then_release (suc n) c.request _ (handle_accept-Prepared n c.res s few)
  dispatch-Prepared n recv c r s few = handle_recv-Prepared n c.request c.res _ few
  dispatch-Prepared n send c r s few = handle_send-Prepared n c.request s few

  -- A completion takes one entry at most.
  pub handle_cqe-Prepared :
      (n : ℕ) (c : Cqe) (s : Server)
      → Prepared n s
      → OnResult (Prepared (suc n)) (handle_cqe os c s)
  unfolding handle_cqe
  handle_cqe-Prepared n c s few =
      then_on (suc n) (s.heap c.request) _ (λ r. dispatch-Prepared n r.op c r s few)

  -- The next round finds nothing prepared.
  abbrev Emptied : Option (Option Turn) → Type 0
  Emptied none = Unit
  Emptied (some none) = Unit
  Emptied (some (some u)) = u.server.sq ≡ []

  phase_two-Emptied : (s : Server) → Emptied (phase_two os s >>= λ t. some (some t))
  unfolding phase_two submit
  phase_two-Emptied s = submits (renew_accept os s)
    where
      submits : (o : Option Server) → Emptied ((o >>= λ s. some (submit s)) >>= λ t. some (some t))
      submits none = tt
      submits (some s) = refl

  turn-Emptied : (ret : ℤ) (cqes : List Cqe) (s : Server) → Emptied (turn os ret cqes s)
  unfolding turn
  turn-Emptied (pos zero) cqes s = after (for_each_cqe os cqes s)
    where
      after : (o : Option Server) → Emptied (o >>= λ s. phase_two os s >>= λ t. some (some t))
      after none = tt
      after (some t) = phase_two-Emptied t
  turn-Emptied (pos (suc n)) cqes s = phase_two-Emptied s
  turn-Emptied (negsuc n) cqes s = either (is_errno n os.etime || is_errno n os.eintr)
    where
      either :
          (b : Bool) → Emptied (if b then (phase_two os s >>= λ t. some (some t)) else some none)
      either true = phase_two-Emptied s
      either false = tt

  submit_accept-Prepared : (s : Server) → s.sq ≡ [] → OnResult (Prepared 1) (submit_accept os s)
  unfolding submit_accept allocate
  submit_accept-Prepared s empty = either (os.sqe_left (length s.sq))
    where
      r : Request
      r = record { op = accept; client_fd = negsuc 0; buf = []; len = 0 }

      none_yet : Prepared 0 (allocate r s)
      none_yet = omega (arith, ap length empty)

      either :
          (b : Bool)
          → OnResult (Prepared 1) (
              if b
              then some (record (prepare s.next (accept_on s.listen_fd) (allocate r s)) {
                accept_pending = true;
              })
              else release s.next (allocate r s))
      either true = prepare-Prepared 0 s.next _ (allocate r s) none_yet
      either false = release-Prepared 1 s.next (allocate r s) (omega (arith, none_yet))

  -- At the head of the loop one entry at most is prepared, that of the first accept.
  pub Reach-Prepared : {fd : ℤ} {s : System} → Reach os fd s → Prepared 1 s.server
  unfolding constructed
  Reach-Prepared {fd} (begin e) =
      subst (OnResult (Prepared 1)) e (submit_accept-Prepared (constructed fd) refl)
  Reach-Prepared (round {s} ret cqes left reach c e) =
      let empty = subst Emptied e (turn-Emptied ret cqes s.server) in omega (arith, ap length empty)
